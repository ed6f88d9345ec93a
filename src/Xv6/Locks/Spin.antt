-- ===== src/Xv6/Locks/Spin.antt =====
-- `acquire`, `release` and `holding` of spinlock.c on a lock that any number of processors use at
-- once. One step is one access of a processor to the lock, so a list of processors is an interleaving.
pub mod Invariant
pub mod Safety
use os_project.Base.{
  ℕ, zero, suc, ◌+◌, ◌≡◌, ◌≢◌, refl, sym, ◌∙◌, ap, Bool, true, false, Option, none, some, ◌==◌,
  if◌then◌else◌, List, [], ◌∷◌, arith,
}

-- Where a processor stands.
pub data Pc : Type 0 where
  idle : Pc  -- does not have the lock
  asking : Pc  -- in `holding`, called by `acquire`, which found the lock taken
  spinning : Pc  -- before an `xchg`
  acquired : Pc  -- behind the `xchg` that found 0
  inside : Pc  -- `acquire` has returned
  confirming : Pc  -- in `holding`, called by `release`, which found the lock taken
  clearing : Pc  -- before `lk->cpu = 0`
  leaving : Pc  -- before the store that frees the lock
  panicked : Pc

pub record Spinlock : Type 0 where
  pub locked : Bool
  pub cpu : Option ℕ
  pub pc : ℕ → Pc

unfoldable pub put : ℕ → Pc → (ℕ → Pc) → ℕ → Pc
put i x pc j = if j == i then x else pc j

-- A free lock.
unfoldable pub initlock : Spinlock
initlock = record { locked = false; cpu = none; pc = λ i. idle }

-- `lock->cpu == mycpu()`
unfoldable pub is_mine : Option ℕ → ℕ → Bool
is_mine none i = false
is_mine (some j) i = j == i

-- The next access of processor `i`, which stands at the given place.
unfoldable pub advance : ℕ → Pc → Spinlock → Spinlock
advance i idle s = record s { pc = put i (if s.locked then asking else spinning) s.pc }
advance i asking s = record s { pc = put i (if is_mine s.cpu i then panicked else spinning) s.pc }
advance i spinning s = record s {
  locked = true;
  pc = put i (if s.locked then spinning else acquired) s.pc;
}
advance i acquired s = record s { cpu = some i; pc = put i inside s.pc }
advance i inside s = record s { pc = put i (if s.locked then confirming else panicked) s.pc }
advance i confirming s = record s {
  pc = put i (if is_mine s.cpu i then clearing else panicked) s.pc;
}
advance i clearing s = record s { cpu = none; pc = put i leaving s.pc }
advance i leaving s = record s { locked = false; pc = put i idle s.pc }
advance i panicked s = s

unfoldable pub interleave : List ℕ → Spinlock → Spinlock
interleave [] s = s
interleave (i ∷ is) s = interleave is (advance i (s.pc i) s)
