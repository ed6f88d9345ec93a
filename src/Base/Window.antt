-- ===== src/Base/Window.antt =====
-- A ring buffer's bytes from an index on, as a list: the index runs on through the words and is taken
-- modulo the size.
use Prim.Native.Nat.{ℕ, zero, suc, ◌+◌, ◌%◌, ◌^◌, ◌≤◌, ◌<◌}
use Prim.Native.Nat.add
use mathlib.Core.Path.{◌≡◌, refl, sym, ap, ap₂, ◌∙◌}
use mathlib.Core.Logic.{◌≢◌}
use mathlib.Core.List.{List, [], ◌∷◌, ◌++◌}
use native.Mathlib.Omega.{arith}
use os_project.Base.Lists.{length, update}
use os_project.Base.Words.{add32, sub32}

abbrev pub window_of : ℕ → (ℕ → ℕ) → ℕ → ℕ → List ℕ
window_of size buf i zero = []
window_of size buf i (suc n) = buf (i % size) ∷ window_of size buf (add32 i 1) n

module _ (size : ℕ) (buf : ℕ → ℕ) where
  pub length-window_of : (i n : ℕ) → length (window_of size buf i n) ≡ n
  length-window_of i zero = refl
  length-window_of i (suc n) = ap suc (length-window_of (add32 i 1) n)

  pub window_of-append :
      (i j n m : ℕ)
      → i < 2 ^ 32
      → j ≡ add32 i n
      → window_of size buf i (n + m) ≡ window_of size buf i n ++ window_of size buf j m
  window_of-append i j zero m h e =
      let e' : j ≡ i = omega (arith, e) in
      ap₂ (λ a b. window_of size buf a b) (sym e') (omega arith)
  window_of-append i j (suc n) m h e =
      ap (window_of size buf i) (add.suc n m)
      ∙ ap (λ l. buf (i % size) ∷ l)
          (window_of-append (add32 i 1) j n m (omega arith) (omega (arith, e)))

-- Indices less than the size apart have places of their own.
abbrev pub Apart : ℕ → Type 0
Apart size =
    (i j : ℕ) → i < 2 ^ 32 → j < 2 ^ 32 → 0 < sub32 j i → sub32 j i < size → i % size ≢ j % size

-- A write `k` places on leaves the `n ≤ k` bytes before it, if `k` is less than the size.
pub window_of-update :
    (size : ℕ) (apart : Apart size) (buf : ℕ → ℕ) (i j v n : ℕ)
    → i < 2 ^ 32
    → j < 2 ^ 32
    → n ≤ sub32 j i
    → sub32 j i < size
    → window_of size (update buf (j % size) v) i n ≡ window_of size buf i n
window_of-update size apart buf i j v zero hi hj h k = refl
window_of-update size apart buf i j v (suc n) hi hj h k =
    let other : i % size ≢ j % size = apart i j hi hj (omega (arith, h)) k in
    ap₂ ◌∷◌ (ground (arith, other)) (
      window_of-update size apart buf (add32 i 1) j v n (omega arith) hj
        (omega (arith, h, k, hi, hj)) (omega (arith, h, k, hi, hj)))
