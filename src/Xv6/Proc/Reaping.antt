-- ===== src/Xv6/Proc/Reaping.antt =====
-- exit and wait, kill and fork of proc.c, one after the other.
use os_project.Base.{
  update_here, update_other, ℕ, zero, suc, ◌+◌, ◌<◌, ◌≡◌, inl, inr, refl, ap, ◌∙◌, Bool, true,
  false, ◌&&◌, some, ◌==◌, if◌then◌else◌, arith, ℕ-cases, Option-cases,
}
use os_project.Xv6.Proc.{
  nproc, ProcState, unused, embryo, sleeping, runnable, running, zombie, Proc, Table, is_unused,
  is_sleeping, is_zombie, is_child, put, find_from, start, cleared, kill, wait, exit, fork, reaped,
}
use os_project.Xv6.Proc.State.{kind, find_from-some, find_from-none}
use os_project.Xv6.Proc.Family.{<-cases, parent-is_child, is_child-parent, taken, allocproc-taken}
use os_project.Xv6.Proc.Leave.{exit-zombie}
use os_project.Xv6.Proc.Runs.{Reach, Reach-Inv}

-- A `wait` reaps a zombie child when there is one in the table.
wait_finds :
    (me j : ℕ) (t : Table)
    → j < nproc
    → (t.proc j).state ≡ zombie
    → (t.proc j).parent ≡ some me
    → (i : ℕ) × ((is_child me (t.proc i) && is_zombie (t.proc i).state) ≡ true)
      × (wait me t ≡ (reaped (t.proc i).pid, put i (cleared (t.proc i)) t))
unfolding wait
wait_finds me j t l z e =
    elim (Option-cases (find_from (λ p. is_child me p && is_zombie p.state) nproc 0 t.proc)) [
      | inl lost ↦
          let h : (is_child me (t.proc j) && is_zombie (t.proc j).state) ≡ false =
            find_from-none (λ p. is_child me p && is_zombie p.state) nproc 0 t.proc j lost
              (omega arith) (omega (arith, l)) in
          let there : is_zombie (t.proc j).state ≡ true = rw z refl in
          absurd (ground (arith, h, parent-is_child me (t.proc j) e, there))
      | inr (i, found) ↦ (
        i,
        (find_from-some (λ p. is_child me p && is_zombie p.state) nproc 0 t.proc i found).0,
        rw (found, wait) refl,
      )
    ]

-- In every run, when a process has exited, a `wait` of its parent returns: it reaps a zombie that is its
-- child, returns that process's pid and clears its slot.
pub exit-wait :
    {n : ℕ} (t t' : Table) (me q : ℕ)
    → Reach n t
    → (t.proc me).state ≡ running
    → (t.proc me).parent ≡ some q
    → exit me t ≡ some t'
    → (i : ℕ) × ((t'.proc i).parent ≡ some q)
      × (is_zombie (t'.proc i).state ≡ true)
      × (wait q t' ≡ (reaped (t'.proc i).pid, put i (cleared (t'.proc i)) t'))
exit-wait t t' me q r k e x =
    let v = Reach-Inv r in
    let (z, same) = exit-zombie me t t' x v in
    let l : me < nproc = elim (<-cases me nproc) [
      | inl l ↦ l
      | inr b ↦ absurd (ground (arith, v.bounded me b, ap kind k))
    ] in
    let (i, h, runs) = wait_finds q me t' l z (same ∙ e) in
    (i, is_child-parent q (t'.proc i) (ground (arith, h)), ground (arith, h), runs)

find_from-same :
    (test : Proc → Bool) (rounds i : ℕ) (a b : ℕ → Proc)
    → ((j : ℕ) → test (a j) ≡ test (b j))
    → find_from test rounds i a ≡ find_from test rounds i b
unfolding find_from
find_from-same test zero i a b h = refl
find_from-same test (suc rounds) i a b h = rw (h i, find_from-same test rounds (i + 1) a b h) refl

-- What `kill` makes of the process that it finds.
abbrev marked : Proc → Proc
marked p = record p { killed = true; state = if is_sleeping p.state then runnable else p.state }

kill-marked :
    (pid i : ℕ) (t : Table)
    → find_from (λ p. p.pid == pid) nproc 0 t.proc ≡ some i
    → (kill pid t).1 ≡ put i (marked (t.proc i)) t
unfolding kill
kill-marked pid i t e = rw (e, kill) refl

marked-unused : (p : Proc) → is_unused (marked p).state ≡ is_unused p.state
marked-unused p = by_state p.state
  where
    by_state : (x : ProcState) → is_unused (if is_sleeping x then runnable else x) ≡ is_unused x
    by_state unused = refl
    by_state embryo = refl
    by_state sleeping = refl
    by_state runnable = refl
    by_state running = refl
    by_state zombie = refl

-- `kill` does not change which slot is the first that is not in use.
put-marked-unused :
    (i j : ℕ) (t : Table)
    → is_unused ((put i (marked (t.proc i)) t).proc j).state ≡ is_unused (t.proc j).state
put-marked-unused i j t = elim (ℕ-cases j i) [
  | inl e ↦ rw (e, update_here t.proc i _) (marked-unused (t.proc i))
  | inr ne ↦ rw (update_other t.proc i _ j ne) refl
]

fork-started :
    (me i : ℕ) (t : Table)
    → find_from (λ p. is_unused p.state) nproc 0 t.proc ≡ some i
    → fork true true me t ≡ (some t.nextpid, start me i (taken i t))
unfolding fork start
fork-started me i t e = rw (allocproc-taken i t e, fork, update_here t.proc i _) refl

-- `kill` of a pid that the first slot that is not in use still holds succeeds, and the process that
-- the next `fork` makes in that slot is killed from the start.
pub kill-fork :
    (pid me i : ℕ) (t : Table)
    → find_from (λ p. p.pid == pid) nproc 0 t.proc ≡ some i
    → find_from (λ p. is_unused p.state) nproc 0 t.proc ≡ some i
    → ((kill pid t).0 ≡ true)
      × ((fork true true me (kill pid t).1).0 ≡ some t.nextpid)
      × ((((fork true true me (kill pid t).1).1).proc i).killed ≡ true)
unfolding kill start
kill-fork pid me i t held first =
    let t₁ = put i (marked (t.proc i)) t in
    let still : find_from (λ p. is_unused p.state) nproc 0 t₁.proc ≡ some i =
      find_from-same (λ p. is_unused p.state) nproc 0 t₁.proc t.proc (λ j. put-marked-unused i j t)
      ∙ first in
    (
      rw (held, kill) refl,
      rw (kill-marked pid i t held, fork-started me i t₁ still) refl,
      rw
          (
            kill-marked pid i t held,
            fork-started me i t₁ still,
            update_here (taken i t₁).proc i _,
            update_here t₁.proc i _,
            update_here t.proc i _,
          )
          refl,
    )
