-- ===== src/Xv6/Locks/Sleep.antt =====
-- `acquiresleep` and `releasesleep` of sleeplock.c, with `wakeup1` of proc.c, on one lock that any
-- number of processes use. What a process does from one wait to the next is one step: the spin lock
-- `lk->lk` is held throughout, and `sleep` gives it up together with the processor.
use os_project.Base.{
  ℕ, ◌≡◌, ◌≢◌, refl, sym, ◌∙◌, Bool, true, false, ◌==◌, if◌then◌else◌, List, [], ◌∷◌, arith,
  ℕ-cases, inl, inr,
}

-- Where a process stands.
pub data Stage : Type 0 where
  outside : Stage
  trying : Stage  -- runnable, before the test of `lk->locked`
  asleep : Stage  -- SLEEPING on the lock
  holding : Stage  -- `acquiresleep` has returned

pub record Sleeplock : Type 0 where
  pub locked : Bool
  pub pid : ℕ
  pub stage : ℕ → Stage

unfoldable pub initsleeplock : Sleeplock
initsleeplock = record { locked = false; pid = 0; stage = λ p. outside }

unfoldable pub put : ℕ → Stage → (ℕ → Stage) → ℕ → Stage
put p x stage q = if q == p then x else stage q

unfoldable pub wake : Stage → Stage
wake outside = outside
wake trying = trying
wake asleep = trying
wake holding = holding

unfoldable pub wakeup : Sleeplock → Sleeplock
wakeup s = record s { stage = λ q. wake (s.stage q) }

-- The loop of `acquiresleep`, until it sleeps or returns.
unfoldable pub acquiresleep : ℕ → Sleeplock → Sleeplock
acquiresleep p s = record s {
  locked = true;
  pid = if s.locked then s.pid else p;
  stage = put p (if s.locked then asleep else holding) s.stage;
}

unfoldable pub releasesleep : ℕ → Sleeplock → Sleeplock
releasesleep p s = wakeup (record s { locked = false; pid = 0; stage = put p outside s.stage })

-- The next step of process `p`, which stands at the given place.
unfoldable pub act : ℕ → Stage → Sleeplock → Sleeplock
act p outside s = acquiresleep p s
act p trying s = acquiresleep p s
act p asleep s = s
act p holding s = releasesleep p s

unfoldable pub acts : List ℕ → Sleeplock → Sleeplock
acts [] s = s
acts (p ∷ ps) s = acts ps (act p (s.stage p) s)

-- Without a holder nobody sleeps; with one, it is the process the lock names.
pub record IsFree (s : Sleeplock) : Type 0 where
  pub unlocked : s.locked ≡ false
  pub awake : (q : ℕ) → s.stage q ≢ asleep
  pub released : (q : ℕ) → s.stage q ≢ holding

pub record IsHeld (s : Sleeplock) : Type 0 where
  pub locked : s.locked ≡ true
  pub holder : s.stage s.pid ≡ holding
  pub alone : (q : ℕ) → s.stage q ≡ holding → q ≡ s.pid

pub data Holds (s : Sleeplock) : Type 0 where
  free : IsFree s → Holds s
  held : IsHeld s → Holds s

put_same : (p : ℕ) (x : Stage) (f : ℕ → Stage) → put p x f p ≡ x
unfolding put
put_same p x f = ground arith

put_other : (p : ℕ) (x : Stage) (f : ℕ → Stage) (q : ℕ) → q ≢ p → put p x f q ≡ f q
unfolding put
put_other p x f q ne = ground arith

wake-asleep : (x : Stage) → wake x ≢ asleep
unfolding wake
wake-asleep outside e = ground (arith, e)
wake-asleep trying e = ground (arith, e)
wake-asleep asleep e = ground (arith, e)
wake-asleep holding e = ground (arith, e)

wake-holding : (x : Stage) → wake x ≡ holding → x ≡ holding
unfolding wake
wake-holding outside e = ground (arith, e)
wake-holding trying e = ground (arith, e)
wake-holding asleep e = ground (arith, e)
wake-holding holding e = refl

put-other_holding :
    (p : ℕ) (x : Stage) (f : ℕ → Stage) (q : ℕ)
    → x ≢ holding
    → put p x f q ≡ holding
    → f q ≡ holding
unfolding put
put-other_holding p x f q ne e = ground (arith, ne, e)

acquire_free : (s : Sleeplock) (p : ℕ) → IsFree s → Holds (acquiresleep p s)
unfolding acquiresleep
acquire_free s p f = held (record {
  locked = refl;
  holder = rw f.unlocked (put_same p holding s.stage);
  alone = rw f.unlocked (λ q e. elim (ℕ-cases q p) [
    | inl same ↦ same
    | inr ne ↦ absurd (f.released q (sym (put_other p holding s.stage q ne) ∙ e))
  ]);
})

acquire_held : (s : Sleeplock) (p : ℕ) → IsHeld s → s.stage p ≢ holding → Holds (acquiresleep p s)
unfolding acquiresleep
acquire_held s p h out =
    let ne : s.pid ≢ p = λ same. out (rw (sym same) h.holder) in
    held (record {
      locked = refl;
      holder = rw h.locked (put_other p asleep s.stage s.pid ne ∙ h.holder);
      alone =
          rw h.locked (λ q e. h.alone q (put-other_holding p asleep s.stage q (ground arith) e));
    })

acquiresleep-Holds :
    (s : Sleeplock) → Holds s → (p : ℕ) → s.stage p ≢ holding → Holds (acquiresleep p s)
acquiresleep-Holds s (free f) p out = acquire_free s p f
acquiresleep-Holds s (held h) p out = acquire_held s p h out

releasesleep-Holds :
    (s : Sleeplock) → Holds s → (p : ℕ) → s.stage p ≡ holding → Holds (releasesleep p s)
unfolding releasesleep wakeup
releasesleep-Holds s (free f) p e = absurd (f.released p e)
releasesleep-Holds s (held h) p e = free (record {
  unlocked = refl;
  awake = λ q. wake-asleep (put p outside s.stage q);
  released = λ q r. elim (ℕ-cases q p) [
    | inl same ↦
        let still : put p outside s.stage q ≡ outside = rw same (put_same p outside s.stage) in
        ground (arith, still, wake-holding (put p outside s.stage q) r)
    | inr ne ↦ ne (
        h.alone q (
          put-other_holding p outside s.stage q (ground arith)
            (wake-holding (put p outside s.stage q) r))
        ∙ sym (h.alone p e))
  ];
})

act-Holds : (s : Sleeplock) → Holds s → (p : ℕ) (x : Stage) → s.stage p ≡ x → Holds (act p x s)
unfolding act
act-Holds s hs p outside e = acquiresleep-Holds s hs p (λ h. ground (arith, e, h))
act-Holds s hs p trying e = acquiresleep-Holds s hs p (λ h. ground (arith, e, h))
act-Holds s hs p asleep e = hs
act-Holds s hs p holding e = releasesleep-Holds s hs p e

initsleeplock-Holds : Holds initsleeplock
unfolding initsleeplock
initsleeplock-Holds =
    free (record { unlocked = refl; awake = λ q. ground arith; released = λ q. ground arith })

acts-Holds : (ps : List ℕ) (s : Sleeplock) → Holds s → Holds (acts ps s)
unfolding acts
acts-Holds [] s hs = hs
acts-Holds (p ∷ ps) s hs = acts-Holds ps (act p (s.stage p) s) (act-Holds s hs p (s.stage p) refl)

-- What the users of a sleep lock rely on.
pub record Serves (s : Sleeplock) : Type 0 where
  pub exclusive : (p q : ℕ) → s.stage p ≡ holding → s.stage q ≡ holding → p ≡ q
  pub named : (p : ℕ) → s.stage p ≡ holding → s.pid ≡ p
  pub kept_waiting : (p : ℕ) → s.stage p ≡ asleep → s.stage s.pid ≡ holding

Holds-Serves : (s : Sleeplock) → Holds s → Serves s
Holds-Serves s (free f) = record {
  exclusive = λ p q e. absurd (f.released p e);
  named = λ p e. absurd (f.released p e);
  kept_waiting = λ p e. absurd (f.awake p e);
}
Holds-Serves s (held h) = record {
  exclusive = λ p q e r. h.alone p e ∙ sym (h.alone q r);
  named = λ p e. sym (h.alone p e);
  kept_waiting = λ p e. h.holder;
}

-- However processes take turns on a sleep lock that was free, at most one of them holds it, `lk->pid`
-- is the holder's, and no wakeup is lost: as long as some process sleeps on the lock, another one
-- holds it, and will wake it.
pub acts-Serves : (ps : List ℕ) → Serves (acts ps initsleeplock)
acts-Serves ps =
    Holds-Serves (acts ps initsleeplock) (acts-Holds ps initsleeplock initsleeplock-Holds)
