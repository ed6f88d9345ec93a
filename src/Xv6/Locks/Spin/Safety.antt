-- ===== src/Xv6/Locks/Spin/Safety.antt =====
-- What the users of a spin lock rely on under every interleaving, for spinlock.c.
use os_project.Base.{
  ℕ, ◌≡◌, ◌≢◌, refl, sym, true, false, ℕ-cases, inl, inr, some, List, [], ◌∷◌, arith,
}
use os_project.Xv6.Locks.Spin.{inside, panicked, Spinlock, initlock, advance, interleave}
use os_project.Xv6.Locks.Spin.Invariant.{
  owns, names, waits, Holds, free, owned, owns-waits, owner_step, named_step, advance-Holds,
}

initlock-Holds : Holds initlock
unfolding initlock waits
initlock-Holds = free (record { unlocked = refl; nobody = refl; all = λ j. refl })

interleave-Holds : (is : List ℕ) (s : Spinlock) → Holds s → Holds (interleave is s)
unfolding interleave
interleave-Holds [] s hs = hs
interleave-Holds (i ∷ is) s hs =
    interleave-Holds is (advance i (s.pc i) s) (advance-Holds s hs i (s.pc i) refl)

-- What the users of a lock rely on.
pub record Safe (s : Spinlock) : Type 0 where
  pub exclusive : (i j : ℕ) → owns (s.pc i) ≡ true → owns (s.pc j) ≡ true → i ≡ j
  pub taken : (i : ℕ) → owns (s.pc i) ≡ true → s.locked ≡ true
  pub named : (i : ℕ) → s.pc i ≡ inside → s.cpu ≡ some i
  pub calm : (i : ℕ) → s.pc i ≢ panicked

Holds-same :
    (s : Spinlock) → Holds s → (i j : ℕ) → owns (s.pc i) ≡ true → owns (s.pc j) ≡ true → i ≡ j
Holds-same s hs i j e f = elim (ℕ-cases i j) [
  | inl same ↦ same
  | inr ne ↦ absurd (owns-waits (s.pc i) e ((owner_step s hs j f).others i ne))
]

Holds-calm : (s : Spinlock) → Holds s → (i : ℕ) → s.pc i ≢ panicked
unfolding owns waits
Holds-calm s (free f) i e = let w : waits (s.pc i) ≡ false = rw e refl in ground (arith, w, f.all i)
Holds-calm s (owned h o) i e = elim (ℕ-cases i h) [
  | inl same ↦ let w : owns (s.pc h) ≡ false = rw (sym same, e) refl in ground (arith, w, o.owner)
  | inr ne ↦ let w : waits (s.pc i) ≡ false = rw e refl in ground (arith, w, o.others i ne)
]

-- However any number of processors interleave their accesses to a lock that was free, at most one of
-- them stands between the `xchg` that took the lock and the store that frees it, the lock is then
-- marked as taken, a processor that `acquire` has returned to is the one the lock names, and neither
-- `acquire` nor `release` panics.
pub interleave-Safe : (is : List ℕ) → Safe (interleave is initlock)
unfolding owns names
interleave-Safe is =
    let hs = interleave-Holds is initlock initlock-Holds in
    record {
      exclusive = Holds-same (interleave is initlock) hs;
      taken = λ i e. (owner_step (interleave is initlock) hs i e).locked;
      named = λ i e. named_step (interleave is initlock) hs i inside e refl refl;
      calm = Holds-calm (interleave is initlock) hs;
    }
