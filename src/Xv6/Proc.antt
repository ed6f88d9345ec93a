-- ===== src/Xv6/Proc.antt =====
-- Processes: the table of proc.c, B22CS052/Helpful, under its lock. A process is its index in
-- `ptable.proc`; what it runs, its memory and its files are left out.
pub mod State
pub mod Inv
pub mod Steps
pub mod Family
pub mod Adopt
pub mod Leave
pub mod Runs
pub mod Reaping
mod Tests
use os_project.Base.{
  ℕ, zero, suc, ◌+◌, Bool, true, false, ◌&&◌, ◌||◌, Option, none, some, ◌==◌, if◌then◌else◌, update,
  add32,
}

abbrev pub nproc : ℕ
nproc = 64

pub data ProcState : Type 0 where
  unused : ProcState
  embryo : ProcState
  sleeping : ProcState
  runnable : ProcState
  running : ProcState
  zombie : ProcState

-- What a process sleeps on: nothing, the `struct proc` of a process, or another address.
pub data Chan : Type 0 where
  null : Chan
  proc : ℕ → Chan
  other : ℕ → Chan

pub record Proc : Type 0 where
  pub state : ProcState
  pub pid : ℕ
  pub parent : Option ℕ
  pub chan : Chan
  pub killed : Bool

pub record Table : Type 0 where
  pub proc : ℕ → Proc
  pub nextpid : ℕ
  pub initproc : ℕ

abbrev pub is_unused : ProcState → Bool
is_unused unused = true
is_unused embryo = false
is_unused sleeping = false
is_unused runnable = false
is_unused running = false
is_unused zombie = false

abbrev pub is_sleeping : ProcState → Bool
is_sleeping unused = false
is_sleeping embryo = false
is_sleeping sleeping = true
is_sleeping runnable = false
is_sleeping running = false
is_sleeping zombie = false

abbrev pub is_zombie : ProcState → Bool
is_zombie unused = false
is_zombie embryo = false
is_zombie sleeping = false
is_zombie runnable = false
is_zombie running = false
is_zombie zombie = true

abbrev pub same_chan : Chan → Chan → Bool
same_chan null null = true
same_chan null (proc q) = false
same_chan null (other b) = false
same_chan (proc p) null = false
same_chan (proc p) (proc q) = p == q
same_chan (proc p) (other b) = false
same_chan (other a) null = false
same_chan (other a) (proc q) = false
same_chan (other a) (other b) = a == b

abbrev pub parent_chan : Option ℕ → Chan
parent_chan none = null
parent_chan (some q) = proc q

-- `p->parent == curproc`
abbrev pub is_child : ℕ → Proc → Bool
is_child me p = elim (p.parent) [ none ↦ false | some q ↦ q == me ]

abbrev pub put : ℕ → Proc → Table → Table
put i p t = record t { proc = update t.proc i p }

-- The first process from `i` on that meets the test.
unfoldable pub find_from : (Proc → Bool) → ℕ → ℕ → (ℕ → Proc) → Option ℕ
find_from test zero i procs = none
find_from test (suc rounds) i procs =
    let later = find_from test rounds (i + 1) procs in if test (procs i) then some i else later

-- The section of `allocproc` under the lock. `nextpid` is an `int`, by its pattern.
unfoldable pub allocproc : Table → Option (ℕ × Table)
allocproc t = elim (find_from (λ p. is_unused p.state) nproc 0 t.proc) [
  | none ↦ none
  | some i ↦ some (
    i,
    record {
      proc = update t.proc i (record (t.proc i) { state = embryo; pid = t.nextpid });
      nextpid = add32 t.nextpid 1;
      initproc = t.initproc;
    },
  )
]

-- `userinit`, where `allocproc` leaves the new process to it alone.
unfoldable pub userinit : Table → Option Table
userinit t = elim (allocproc t) [
  | none ↦ none
  | some s ↦
      some (record (put s.0 (record (s.1.proc s.0) { state = runnable }) s.1) { initproc = s.0 })
]

-- A failure behind `allocproc`, there or in `fork`.
unfoldable pub give_up : ℕ → Table → Table
give_up i t = put i (record (t.proc i) { state = unused }) t

-- The end of `fork`, where nothing else has changed `np`.
unfoldable pub start : ℕ → ℕ → Table → Table
start me np t = put np (record (t.proc np) { parent = some me; state = runnable }) t

-- `fork`, with whether `kalloc` and `copyuvm` succeed; `none` is -1.
unfoldable pub fork : Bool → Bool → ℕ → Table → Option ℕ × Table
fork stack memory me t = elim (allocproc t) [
  | none ↦ (none, t)
  | some s ↦
      if stack && memory
      then (some (s.1.proc s.0).pid, start me s.0 s.1)
      else (none, give_up s.0 s.1)
]

abbrev pub wake : Chan → Proc → Proc
wake c p = record p {
  state = if is_sleeping p.state && same_chan p.chan c then runnable else p.state;
}

unfoldable pub wakeup1 : Chan → Table → Table
wakeup1 c t = record t { proc = λ i. wake c (t.proc i) }

-- A round of the loop of `exit` that passes the children to init.
unfoldable pub pass_on : ℕ → ℕ → Table → Table
pass_on me i t =
    let t' = put i (record (t.proc i) { parent = some t.initproc }) t in
    if is_child me (t.proc i)
    then (if is_zombie (t.proc i).state then wakeup1 (proc t.initproc) t' else t')
    else t

-- The loop from process `i` on.
unfoldable pub pass_from : ℕ → ℕ → ℕ → Table → Table
pass_from me zero i t = t
pass_from me (suc rounds) i t = pass_from me rounds (i + 1) (pass_on me i t)

-- `exit`, up to the call of `sched`; `none` is a panic.
unfoldable pub exit : ℕ → Table → Option Table
exit me t =
    let t' = pass_from me nproc 0 (wakeup1 (parent_chan (t.proc me).parent) t) in
    if me == t.initproc then none else some (put me (record (t'.proc me) { state = zombie }) t')

-- How a pass of `wait` ends: with the pid of a child, with -1, or asleep.
pub data Waited : Type 0 where
  reaped : ℕ → Waited
  failed : Waited
  asleep : Waited

abbrev pub cleared : Proc → Proc
cleared p = record p { state = unused; pid = 0; parent = none; killed = false }

unfoldable pub sleep : ℕ → Chan → Table → Table
sleep me c t = put me (record (t.proc me) { chan = c; state = sleeping }) t

-- `wait`, one pass over the table.
unfoldable pub wait : ℕ → Table → Waited × Table
wait me t = elim (find_from (λ p. is_child me p && is_zombie p.state) nproc 0 t.proc) [
  | some i ↦ (reaped (t.proc i).pid, put i (cleared (t.proc i)) t)
  | none ↦ elim (find_from (is_child me) nproc 0 t.proc) [
    | none ↦ (failed, t)
    | some i ↦ if (t.proc me).killed then (failed, t) else (asleep, sleep me (proc me) t)
  ]
]

-- `scheduler` at a process, and the end of `sleep` if that process had called it.
unfoldable pub schedule : ℕ → Table → Table
schedule i t = put i (record (t.proc i) { state = running; chan = null }) t

unfoldable pub yield : ℕ → Table → Table
yield me t = put me (record (t.proc me) { state = runnable }) t

-- `kill`, with whether it found the process.
unfoldable pub kill : ℕ → Table → Bool × Table
kill pid t = elim (find_from (λ p. p.pid == pid) nproc 0 t.proc) [
  | none ↦ (false, t)
  | some i ↦ (
    true,
    put i
        (record (t.proc i) {
          killed = true;
          state = if is_sleeping (t.proc i).state then runnable else (t.proc i).state;
        })
        t,
  )
]
