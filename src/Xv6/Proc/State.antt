-- ===== src/Xv6/Proc/State.antt =====
-- What the invariant of the process table sees of a process.
use os_project.Base.{
  ℕ, zero, suc, ◌+◌, ◌≤◌, ◌<◌, ◌≡◌, inl, inr, sym, ap, ◌∙◌, Bool, true, false, ◌&&◌, none, some,
  arith, Bool-cases, ℕ-cases,
}
use os_project.Xv6.Proc.{
  ProcState, unused, embryo, sleeping, runnable, running, zombie, proc, Proc, is_sleeping,
  same_chan, find_from,
}

-- The states, but for those between which a living process changes.
pub data Kind : Type 0 where
  free : Kind
  new : Kind
  living : Kind
  dead : Kind

abbrev pub kind : ProcState → Kind
kind unused = free
kind embryo = new
kind sleeping = living
kind runnable = living
kind running = living
kind zombie = dead

-- Process `i` sleeps in `wait`.
abbrev pub waits : ℕ → Proc → Bool
waits i p = is_sleeping p.state && same_chan p.chan (proc i)

pub find_from-some :
    (test : Proc → Bool) (rounds i : ℕ) (procs : ℕ → Proc) (j : ℕ)
    → find_from test rounds i procs ≡ some j
    → (test (procs j) ≡ true) × (i ≤ j) × (j < i + rounds)
unfolding find_from
find_from-some test zero i procs j e = absurd (ground (arith, e))
find_from-some test (suc rounds) i procs j e = elim (Bool-cases (test (procs i))) [
  | inl here ↦
      let at : i ≡ j = ground (arith, e, here) in
      (sym (ap (λ k. test (procs k)) at) ∙ here, omega (arith, at), omega (arith, at))
  | inr there ↦
      let later : find_from test rounds (i + 1) procs ≡ some j = ground (arith, e, there) in
      let h = find_from-some test rounds (i + 1) procs j later in
      (h.0, omega (arith, h.1), omega (arith, h.2))
]

pub find_from-none :
    (test : Proc → Bool) (rounds i : ℕ) (procs : ℕ → Proc) (j : ℕ)
    → find_from test rounds i procs ≡ none
    → i ≤ j
    → j < i + rounds
    → test (procs j) ≡ false
unfolding find_from
find_from-none test zero i procs j e l h = absurd (omega (arith, l, h))
find_from-none test (suc rounds) i procs j e l h = elim (Bool-cases (test (procs i))) [
  | inl here ↦ absurd (ground (arith, e, here))
  | inr there ↦ elim (ℕ-cases i j) [
    | inl at ↦ sym (ap (λ k. test (procs k)) at) ∙ there
    | inr ne ↦
        find_from-none test rounds (i + 1) procs j (ground (arith, e, there)) (omega (arith, l, ne))
          (omega (arith, h))
  ]
]
