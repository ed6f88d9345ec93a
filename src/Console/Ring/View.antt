-- ===== src/Console/Ring/View.antt =====
-- The input buffer as two lists: the bytes ready to be read, and the line that is being edited.
use os_project.Base.{
  ℕ, ◌+◌, ◌%◌, ◌^◌, ◌≤◌, ◌<◌, ◌≡◌, ◌≢◌, sym, ap, ap₂, ◌∙◌, List, [], ◌∷◌, ◌++◌, arith, length,
  sub32, window_of, length-window_of, window_of-append, window_of-update, Apart,
}
use os_project.Console.Ring.{Ring, input_buf, append, last, drop_last, commit}

-- The `n` bytes from index `i` on.
abbrev pub window : (ℕ → ℕ) → ℕ → ℕ → List ℕ
window = window_of input_buf

pub length-window : (buf : ℕ → ℕ) (i n : ℕ) → length (window buf i n) ≡ n
length-window = length-window_of input_buf

apart : Apart input_buf
apart i j hi hj h k = omega (arith, hi, hj, h, k)

-- The indices are words; what is to be read and what is edited fit the array together.
pub record IsValid (s : Ring) : Type 0 where
  pub words : (s.r < 2 ^ 32) × (s.w < 2 ^ 32) × (s.e < 2 ^ 32)
  pub fits : sub32 s.e s.r ≤ input_buf
  pub order : sub32 s.w s.r ≤ sub32 s.e s.r

abbrev pub ready : Ring → List ℕ
ready s = window s.buf s.r (sub32 s.w s.r)

abbrev pub line : Ring → List ℕ
line s = window s.buf s.w (sub32 s.e s.w)

-- The bytes that the two parts hold together.
pub sizes : (s : Ring) → IsValid s → sub32 s.w s.r + sub32 s.e s.w ≡ sub32 s.e s.r
sizes s v = omega (arith, v.words, v.order)

module _ (c : ℕ) (s : Ring) (v : IsValid s) (room : sub32 s.e s.r < input_buf) where
  pub append-IsValid : IsValid (append c s)
  unfolding append
  append-IsValid = omega (arith, v.words, v.fits, v.order, room)

  pub ready-append : ready (append c s) ≡ ready s
  unfolding append
  ready-append =
      window_of-update input_buf apart s.buf s.r s.e (c % 256) (sub32 s.w s.r)
        (omega (arith, v.words)) (omega (arith, v.words)) v.order room

  -- A byte appended is the last of the line.
  pub line-append : line (append c s) ≡ line s ++ (c % 256 ∷ [])
  unfolding append
  line-append =
      ap (window (append c s).buf s.w) (omega (arith, v.words, v.fits, v.order))
      ∙ window_of-append input_buf (append c s).buf s.w s.e (sub32 s.e s.w) 1
          (omega (arith, v.words)) (omega (arith, v.words))
      ∙ ap₂ ◌++◌
          (window_of-update input_buf apart s.buf s.w s.e (c % 256) (sub32 s.e s.w)
            (omega (arith, v.words)) (omega (arith, v.words)) (omega arith)
            (omega (arith, v.words, v.order, room)))
          (ap (λ b. b ∷ []) (ground arith))

module _ (s : Ring) (v : IsValid s) (some_line : s.e ≢ s.w) where
  pub drop_last-IsValid : IsValid (drop_last s)
  unfolding drop_last
  drop_last-IsValid = omega (arith, v.words, v.fits, v.order, some_line)

  -- The line is what is left of it by a deletion, and the byte deleted.
  pub line-drop_last : line s ≡ line (drop_last s) ++ (last s ∷ [])
  unfolding drop_last
  line-drop_last =
      ap (window s.buf s.w) (omega (arith, v.words, v.fits, v.order, some_line))
      ∙ window_of-append input_buf s.buf s.w (sub32 s.e 1) (sub32 (sub32 s.e 1) s.w) 1
          (omega (arith, v.words)) (omega (arith, v.words))

module _ (s : Ring) (v : IsValid s) where
  pub commit-IsValid : IsValid (commit s)
  unfolding commit
  commit-IsValid = omega (arith, v.words, v.fits, v.order)

  -- A commit makes the line ready to be read and starts an empty one.
  pub ready-commit : ready (commit s) ≡ ready s ++ line s
  unfolding commit
  ready-commit =
      ap (window s.buf s.r) (sym (sizes s v))
      ∙ window_of-append input_buf s.buf s.r s.w (sub32 s.w s.r) (sub32 s.e s.w)
          (omega (arith, v.words)) (omega (arith, v.words))

pub line-commit : (s : Ring) → line (commit s) ≡ []
unfolding commit
line-commit s = let none_left : sub32 s.e s.e ≡ 0 = omega arith in ap (window s.buf s.e) none_left
