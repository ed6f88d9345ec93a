-- ===== src/Xv6/Proc/Runs.antt =====
-- Runs of the processes of proc.c: the operations in any order, one at a time under the lock.
use os_project.Base.{
  ℕ, ◌+◌, ◌^◌, ◌≤◌, ◌<◌, ◌≡◌, ◌≢◌, ◌⊎◌, inl, inr, refl, sym, ap, ◌∙◌, false, none, some, update,
  arith, ℕ-cases, Option-cases,
}
use mathlib.Core.Path.{subst}
use os_project.Xv6.Proc.{
  nproc, ProcState, unused, embryo, sleeping, runnable, running, zombie, Chan, null, other, Proc,
  Table, is_unused, find_from, allocproc, give_up, start, wakeup1, sleep, schedule, yield, kill,
  wait, exit, userinit,
}
use os_project.Xv6.Proc.State.{free, new, living, dead, kind, waits}
use os_project.Xv6.Proc.Inv.{Inv}
use os_project.Xv6.Proc.Family.{start-Inv, give_up-Inv, allocproc-Inv, wait-Inv}
use os_project.Xv6.Proc.Steps.{schedule-Inv, yield-Inv, wakeup1-Inv, sleep-Inv, kill-Inv}
use os_project.Xv6.Proc.Leave.{exit-Inv}

-- The table before the first process.
abbrev pub no_proc : Proc
no_proc = record { state = unused; pid = 0; parent = none; chan = null; killed = false }

abbrev pub zeroed : Table
zeroed = record { proc = λ i. no_proc; nextpid = 1; initproc = 0 }

-- A process calls an operation while it runs; `i` in `give_up` and `start` is a process that `fork`
-- has allocated.
pub data Step : Table → Table → Type 0 where
  undo : (i : ℕ) (t : Table) → (t.proc i).state ≡ embryo → Step t (give_up i t)
  forked :
      (me i : ℕ) (t : Table)
      → (t.proc me).state ≡ running
      → (t.proc i).state ≡ embryo
      → Step t (start me i t)
  exited : (me : ℕ) {t t' : Table} → (t.proc me).state ≡ running → exit me t ≡ some t' → Step t t'
  waited : (me : ℕ) (t : Table) → (t.proc me).state ≡ running → Step t (wait me t).1
  slept : (me a : ℕ) (t : Table) → (t.proc me).state ≡ running → Step t (sleep me (other a) t)
  woke : (c : Chan) (t : Table) → Step t (wakeup1 c t)
  killed : (n : ℕ) (t : Table) → Step t (kill n t).1
  scheduled : (i : ℕ) (t : Table) → (t.proc i).state ≡ runnable → Step t (schedule i t)
  yielded : (me : ℕ) (t : Table) → (t.proc me).state ≡ running → Step t (yield me t)

-- The tables that a run from the one that `userinit` leaves can meet when `allocproc` has given out
-- `n` pids.
pub data Reach : ℕ → Table → Type 0 where
  booted : {t : Table} → userinit zeroed ≡ some t → Reach 1 t
  alloc : {n i : ℕ} {t t' : Table} → Reach n t → allocproc t ≡ some (i, t') → Reach (n + 1) t'
  next : {n : ℕ} {t t' : Table} → Reach n t → Step t t' → Reach n t'

Step-Inv : {n : ℕ} {t t' : Table} → Step t t' → Inv n t → Inv n t'
Step-Inv (undo i t k) v = give_up-Inv i t (rw k refl) v
Step-Inv (forked me i t k e) v = start-Inv me i t (rw e refl) (rw k refl) v
Step-Inv {n} {t} {t'} (exited me k e) v = exit-Inv me t t' k e v
Step-Inv (waited me t k) v = wait-Inv me t k v
Step-Inv (slept me a t k) v = sleep-Inv me a t k v
Step-Inv (woke c t) v = wakeup1-Inv c t v
Step-Inv (killed n t) v = kill-Inv n t v
Step-Inv (scheduled i t k) v = schedule-Inv i t k v
Step-Inv (yielded me t k) v = yield-Inv me t k v

-- What `userinit` leaves.
abbrev first : Table
first = record {
  proc =
      update (update (λ i. no_proc) 0 (record no_proc { state = embryo; pid = 1 })) 0
        (record no_proc { state = runnable; pid = 1 });
  nextpid = 2;
  initproc = 0;
}

userinit-first : userinit zeroed ≡ some first
unfolding userinit allocproc find_from
userinit-first = refl

first-others : (j : ℕ) → j ≢ 0 → first.proc j ≡ no_proc
first-others j ne = ground (arith, ne)

-- Only init is in use.
first-split :
    (P : ℕ → Proc → Type 0)
    → P 0 (first.proc 0)
    → ((j : ℕ) → P j no_proc)
    → (j : ℕ) → P j (first.proc j)
first-split P at others j = elim (ℕ-cases j 0) [
  | inl e ↦ rw e at
  | inr ne ↦ rw (first-others j ne) (others j)
]

first-Inv : Inv 1 first
first-Inv = record {
  bounded =
      first-split (λ j x. nproc ≤ j → kind x.state ≡ free) (λ b. absurd (omega (arith, b)))
        (λ j b. refl);
  unowned =
      first-split (λ j x. (kind x.state ≡ free) ⊎ (kind x.state ≡ new) → x.parent ≡ none)
        (λ h. refl) (λ j h. refl);
  owned =
      first-split (λ j x. j ≢ 0 → x.parent ≡ none → (kind x.state ≡ free) ⊎ (kind x.state ≡ new))
        (λ ne e. absurd (ne refl)) (λ j ne e. inl refl);
  cared =
      first-split
        (λ j x. (q : ℕ) → x.parent ≡ some q → (kind (first.proc q).state ≡ living) × (q ≢ j))
        (λ q e. absurd (ground (arith, e))) (λ j q e. absurd (ground (arith, e)));
  root = (refl, refl);
  heard =
      first-split
        (λ j x. (q : ℕ) → kind x.state ≡ dead → x.parent ≡ some q → waits q (first.proc q) ≡ false)
        (λ q d e. absurd (ground (arith, e))) (λ j q d e. absurd (ground (arith, e)));
  counted = λ w. refl;
  small = λ w.
      first-split (λ j x. kind x.state ≢ free → x.pid < 2) (λ h. omega arith)
        (λ j h. absurd (h refl));
  distinct = λ w i j ki kj e. used i ki ∙ sym (used j kj);
}
  where
    used : (i : ℕ) → kind (first.proc i).state ≢ free → i ≡ 0
    used i k = elim (ℕ-cases i 0) [ inl e ↦ e | inr ne ↦ absurd (k (rw (first-others i ne) refl)) ]

pub Reach-Inv : {n : ℕ} {t : Table} → Reach n t → Inv n t
Reach-Inv {n} {t} (booted e) =
    let runs : some first ≡ some t = sym userinit-first ∙ e in
    let same : first ≡ t = ap (λ o. elim o [ none ↦ first | some s ↦ s ]) runs in
    subst (Inv 1) same first-Inv
Reach-Inv {t = t'} (alloc {i = i} {t = t} r e) = (allocproc-Inv t i t' e (Reach-Inv r)).0
Reach-Inv (next r s) = Step-Inv s (Reach-Inv r)

-- In every run, a process that is a zombie has a parent, which lives and does not sleep in `wait`; init lives.
pub no_lost_zombie :
    {n : ℕ} (t : Table) (i : ℕ)
    → Reach n t
    → (t.proc i).state ≡ zombie
    → (kind (t.proc t.initproc).state ≡ living)
      × ((q : ℕ) × ((t.proc i).parent ≡ some q)
          × (kind (t.proc q).state ≡ living)
          × (waits q (t.proc q) ≡ false))
no_lost_zombie t i r z =
    let v = Reach-Inv r in
    let dead_one : kind (t.proc i).state ≡ dead = rw z refl in
    (
      v.root.0,
      elim (Option-cases (t.proc i).parent) [
        | inl e ↦ absurd (
            ground (
              arith,
              v.owned i
                  (λ at. ground (arith, ap (λ x. kind (t.proc x).state) at, dead_one, v.root.0)) e,
              dead_one,
            ))
        | inr (q, e) ↦ (q, e, (v.cared i q e).0, v.heard i q dead_one e)
      ],
    )

-- In every run in which `allocproc` has given out fewer than 2 ^ 31 - 1 pids, so that the `int` nextpid has not
-- overflowed, two slots that are in use hold different pids.
pub pids_differ :
    {n : ℕ} (t : Table) (i j : ℕ)
    → n + 1 < 2 ^ 31
    → Reach n t
    → is_unused (t.proc i).state ≡ false
    → is_unused (t.proc j).state ≡ false
    → i ≢ j
    → (t.proc i).pid ≢ (t.proc j).pid
pids_differ t i j few r ki kj ne e =
    ne ((Reach-Inv r).distinct few i j (in_use (t.proc i).state ki) (in_use (t.proc j).state kj) e)
  where
    in_use : (x : ProcState) → is_unused x ≡ false → kind x ≢ free
    in_use unused e f = absurd (ground (arith, e))
    in_use embryo e f = ground (arith, f)
    in_use sleeping e f = ground (arith, f)
    in_use runnable e f = ground (arith, f)
    in_use running e f = ground (arith, f)
    in_use zombie e f = ground (arith, f)
