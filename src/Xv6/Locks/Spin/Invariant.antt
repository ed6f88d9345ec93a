-- ===== src/Xv6/Locks/Spin/Invariant.antt =====
-- The invariant of a spin lock and the steps that preserve it, for spinlock.c.
use os_project.Base.{
  ℕ, ◌≡◌, ◌≢◌, refl, sym, ◌∙◌, Bool, true, false, Bool-cases, ℕ-cases, inl, inr, Option, none, some,
  if◌then◌else◌, arith,
}
use os_project.Xv6.Locks.Spin.{
  Pc, idle, asking, spinning, acquired, inside, confirming, clearing, leaving, panicked, Spinlock,
  put, is_mine, advance,
}

-- The processor is between the `xchg` that took the lock and the store that frees it.
unfoldable pub owns : Pc → Bool
owns idle = false
owns asking = false
owns spinning = false
owns acquired = true
owns inside = true
owns confirming = true
owns clearing = true
owns leaving = true
owns panicked = false

unfoldable pub waits : Pc → Bool
waits idle = true
waits asking = true
waits spinning = true
waits acquired = false
waits inside = false
waits confirming = false
waits clearing = false
waits leaving = false
waits panicked = false

-- The lock names the processor as its owner.
unfoldable pub names : Pc → Bool
names idle = false
names asking = false
names spinning = false
names acquired = false
names inside = true
names confirming = true
names clearing = true
names leaving = false
names panicked = false

-- The lock is free and every processor is waiting.
pub record IsFree (s : Spinlock) : Type 0 where
  pub unlocked : s.locked ≡ false
  pub nobody : s.cpu ≡ none
  pub all : (j : ℕ) → waits (s.pc j) ≡ true

-- Processor `h` owns the lock and all others are waiting.
pub record IsOwned (s : Spinlock) (h : ℕ) : Type 0 where
  pub locked : s.locked ≡ true
  pub owner : owns (s.pc h) ≡ true
  pub named : s.cpu ≡ (if names (s.pc h) then some h else none)
  pub others : (j : ℕ) → j ≢ h → waits (s.pc j) ≡ true

pub data Holds (s : Spinlock) : Type 0 where
  free : IsFree s → Holds s
  owned : (h : ℕ) → IsOwned s h → Holds s

pub owns-waits : (p : Pc) → owns p ≡ true → waits p ≢ true
unfolding owns waits
owns-waits idle e w = ground (arith, e, w)
owns-waits asking e w = ground (arith, e, w)
owns-waits spinning e w = ground (arith, e, w)
owns-waits acquired e w = ground (arith, e, w)
owns-waits inside e w = ground (arith, e, w)
owns-waits confirming e w = ground (arith, e, w)
owns-waits clearing e w = ground (arith, e, w)
owns-waits leaving e w = ground (arith, e, w)
owns-waits panicked e w = ground (arith, e, w)

put_same : (i : ℕ) (x : Pc) (f : ℕ → Pc) → put i x f i ≡ x
unfolding put
put_same i x f = ground arith

put_other : (i : ℕ) (x : Pc) (f : ℕ → Pc) (j : ℕ) → j ≢ i → put i x f j ≡ f j
unfolding put
put_other i x f j ne = ground arith

put-waits :
    (i : ℕ) (x : Pc) (f : ℕ → Pc)
    → waits x ≡ true
    → (j : ℕ) → (j ≢ i → waits (f j) ≡ true)
    → waits (put i x f j) ≡ true
unfolding put
put-waits i x f w j v = ground (arith, w, v)

-- The processor that owns the lock is the one the invariant names.
pub owner_step : (s : Spinlock) → Holds s → (i : ℕ) → owns (s.pc i) ≡ true → IsOwned s i
owner_step s (free f) i e = absurd (owns-waits (s.pc i) e (f.all i))
owner_step s (owned h o) i e = elim (ℕ-cases i h) [
  | inl same ↦ rw same o
  | inr ne ↦ absurd (owns-waits (s.pc i) e (o.others i ne))
]

-- A waiting processor that goes on waiting.
waiter_step :
    (s : Spinlock)
    → Holds s
    → (i : ℕ) (x : Pc) (l : Bool) → waits (s.pc i) ≡ true
    → waits x ≡ true
    → s.locked ≡ l
    → Holds (record s { locked = l; pc = put i x s.pc })
waiter_step s (free f) i x l w v same = free (record {
  unlocked = sym same ∙ f.unlocked;
  nobody = f.nobody;
  all = λ j. put-waits i x s.pc v j (λ ne. f.all j);
})
waiter_step s (owned h o) i x l w v same =
    let ne : h ≢ i = λ mine. absurd (owns-waits (s.pc h) o.owner (rw mine w)) in
    let kept = put_other i x s.pc h ne in
    owned h (record {
      locked = sym same ∙ o.locked;
      owner = rw kept o.owner;
      named = rw kept o.named;
      others = λ j ne. put-waits i x s.pc v j (λ other. o.others j ne);
    })

-- The owner goes on to another place at which it owns the lock.
keeper_step :
    (s : Spinlock)
    → Holds s
    → (i : ℕ) (x : Pc) (c : Option ℕ) → owns (s.pc i) ≡ true
    → owns x ≡ true
    → c ≡ (if names x then some i else none)
    → Holds (record s { cpu = c; pc = put i x s.pc })
keeper_step s hs i x c e v n =
    let o = owner_step s hs i e in
    let now = put_same i x s.pc in
    owned i (record {
      locked = o.locked;
      owner = rw now v;
      named = rw now n;
      others = λ j ne. rw (put_other i x s.pc j ne) (o.others j ne);
    })

-- What the lock records where the owner is named.
pub named_step :
    (s : Spinlock)
    → Holds s
    → (i : ℕ) (p : Pc) → s.pc i ≡ p
    → owns p ≡ true
    → names p ≡ true
    → s.cpu ≡ some i
named_step s hs i p e o n =
    let named : names (s.pc i) ≡ true = rw e n in (owner_step s hs i (rw e o)).named ∙ rw named refl

-- The processor that frees the lock.
leaver_step : (s : Spinlock) → Holds s → (i : ℕ) → s.pc i ≡ leaving → Holds (advance i leaving s)
unfolding advance owns waits names
leaver_step s hs i e =
    let o = owner_step s hs i (rw e refl) in
    let unnamed : names (s.pc i) ≡ false = rw e refl in
    free (record {
      unlocked = refl;
      nobody = o.named ∙ rw unnamed refl;
      all = λ j. put-waits i idle s.pc refl j (o.others j);
    })

-- The processor that takes the free lock.
taker_step :
    (s : Spinlock)
    → Holds s
    → (i : ℕ) → s.pc i ≡ spinning
    → s.locked ≡ false
    → Holds (advance i spinning s)
unfolding advance owns waits names
taker_step s (free f) i e l = owned i (record {
  locked = refl;
  owner = rw (l, put_same i acquired s.pc) refl;
  named = rw (l, put_same i acquired s.pc) f.nobody;
  others = λ j ne. rw (l, put_other i acquired s.pc j ne) (f.all j);
})
taker_step s (owned h o) i e l = absurd (ground (arith, o.locked, l))

-- The processor that finds the lock taken.
spinner_step :
    (s : Spinlock)
    → Holds s
    → (i : ℕ) → s.pc i ≡ spinning
    → s.locked ≡ true
    → Holds (advance i spinning s)
unfolding advance waits
spinner_step s hs i e l = rw l (waiter_step s hs i spinning true (rw e refl) refl l)

-- No waiting processor is named as the owner.
is_mine-waits : (s : Spinlock) → Holds s → (i : ℕ) → waits (s.pc i) ≡ true → is_mine s.cpu i ≡ false
unfolding is_mine
is_mine-waits s (free f) i w = rw f.nobody refl
is_mine-waits s (owned h o) i w =
    let ne : h ≢ i = λ same. owns-waits (s.pc h) o.owner (rw same w) in
    elim (Bool-cases (names (s.pc h))) [
      | inl n ↦ rw (o.named, n) (ground (arith, ne))
      | inr n ↦ rw (o.named, n) refl
    ]

is_mine-some : (c : Option ℕ) (i : ℕ) → c ≡ some i → is_mine c i ≡ true
unfolding is_mine
is_mine-some c i e = rw e (ground arith)

inside_step :
    (s : Spinlock)
    → Holds s
    → (i : ℕ) → s.pc i ≡ inside
    → s.locked ≡ true
    → Holds (advance i inside s)
unfolding advance owns names
inside_step s hs i e l =
    let next : (if s.locked then confirming else panicked) ≡ confirming = rw l refl in
    rw next
      (keeper_step s hs i confirming s.cpu (rw e refl) refl (named_step s hs i inside e refl refl))

-- One step of any processor preserves the invariant.
pub advance-Holds : (s : Spinlock) → Holds s → (i : ℕ) (p : Pc) → s.pc i ≡ p → Holds (advance i p s)
unfolding advance owns waits names
advance-Holds s hs i idle e =
    waiter_step s hs i (if s.locked then asking else spinning) s.locked (rw e refl) (ground arith)
      refl
advance-Holds s hs i asking e =
    let waiting : waits (s.pc i) ≡ true = rw e refl in
    rw (is_mine-waits s hs i waiting) (waiter_step s hs i spinning s.locked waiting refl refl)
advance-Holds s hs i spinning e = elim (Bool-cases s.locked) [
  | inl l ↦ spinner_step s hs i e l
  | inr l ↦ taker_step s hs i e l
]
advance-Holds s hs i acquired e = keeper_step s hs i inside (some i) (rw e refl) refl refl
advance-Holds s hs i inside e = inside_step s hs i e (owner_step s hs i (rw e refl)).locked
advance-Holds s hs i confirming e =
    let c = named_step s hs i confirming e refl refl in
    rw (is_mine-some s.cpu i c) (keeper_step s hs i clearing s.cpu (rw e refl) refl c)
advance-Holds s hs i clearing e = keeper_step s hs i leaving none (rw e refl) refl refl
advance-Holds s hs i leaving e = leaver_step s hs i e
advance-Holds s hs i panicked e = hs
