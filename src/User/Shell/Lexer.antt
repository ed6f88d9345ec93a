-- ===== src/User/Shell/Lexer.antt =====
-- How much of the line `gettoken` of sh.c takes.
use os_project.Base.{
  ℕ, ◌≤◌, ◌<◌, ◌≡◌, ◌⊎◌, inl, inr, refl, ap, true, false, List, [], ◌∷◌, ◌==◌, length, is_empty,
  arith, Bool-cases,
}
use os_project.User.Shell.{
  is_blank, is_symbol, skip, split_word, scan_greater, scan, gettoken, starts,
}

pub skip-cases :
    (s : List ℕ)
    → (skip s ≡ []) ⊎ ((c : ℕ) × (cs : List ℕ) × (skip s ≡ c ∷ cs) × (is_blank c ≡ false))
unfolding skip
skip-cases [] = inl refl
skip-cases (c ∷ cs) = elim (Bool-cases (is_blank c)) [
  | inl blank ↦ elim (skip-cases cs) [
    | inl e ↦ inl (rw blank e)
    | inr (d, ds, e, other) ↦ inr (d, ds, rw blank e, other)
  ]
  | inr other ↦ inr (c, cs, rw other refl, other)
]

pub skip_begins : (c : ℕ) (cs : List ℕ) → is_blank c ≡ false → skip (c ∷ cs) ≡ c ∷ cs
unfolding skip
skip_begins c cs e = rw e refl

pub skip-skip : (s : List ℕ) → skip (skip s) ≡ skip s
unfolding skip
skip-skip s = elim (skip-cases s) [
  | inl e ↦ rw e refl
  | inr (c, cs, e, other) ↦ rw e (skip_begins c cs other)
]

pub length-skip : (s : List ℕ) → length (skip s) ≤ length s
unfolding skip
length-skip [] = omega arith
length-skip (c ∷ cs) = ground (arith, length-skip cs)

length-split_word : (s : List ℕ) → length (split_word s).1 ≤ length s
unfolding split_word
length-split_word [] = omega arith
length-split_word (c ∷ cs) = ground (arith, length-split_word cs)

length-scan_greater : (s : List ℕ) → length (scan_greater s).1 ≤ length s
unfolding scan_greater
length-scan_greater [] = omega arith
length-scan_greater (c ∷ cs) = ground arith

length-scan : (c : ℕ) (cs : List ℕ) → is_blank c ≡ false → length (scan (c ∷ cs)).2 ≤ length cs
unfolding scan split_word is_symbol
length-scan c cs e = ground (arith, e, length-scan_greater cs, length-split_word cs)

-- A token takes a byte at least, unless nothing but blanks is left.
pub length-gettoken : (s : List ℕ) → is_empty (skip s) ≡ false → length (gettoken s).2 < length s
unfolding gettoken
length-gettoken s more = elim (skip-cases s) [
  | inl e ↦ absurd (ground (arith, more, e))
  | inr (c, cs, e, other) ↦ omega (
    arith,
    length-skip s,
    length-scan c cs other,
    length-skip (scan (skip s)).2,
    ap length e,
    ap (λ t. length (scan t).2) e,
  )
]

pub gettoken_le : (s : List ℕ) → length (gettoken s).2 ≤ length s
unfolding gettoken scan skip
gettoken_le s = elim (skip-cases s) [
  | inl e ↦ rw e (omega arith)
  | inr (c, cs, e, other) ↦ omega (arith, length-gettoken s (rw e refl))
]

pub starts-nonempty : (toks s : List ℕ) → starts toks s ≡ true → is_empty s ≡ false
starts-nonempty toks [] e = ground (arith, e)
starts-nonempty toks (c ∷ cs) e = refl

-- The token that `peek` has seen is taken.
pub length-peeked :
    (toks s : List ℕ) → starts toks (skip s) ≡ true → length (gettoken (skip s)).2 < length s
length-peeked toks s e = omega (
  arith,
  length-skip s,
  length-gettoken (skip s) (rw (skip-skip s) (starts-nonempty toks (skip s) e)),
)

gettoken_nil : (gettoken []).0 ≡ 0
unfolding gettoken scan skip
gettoken_nil = refl

-- A token that is not the end of the line takes a byte.
pub length-word :
    (s : List ℕ) → ((gettoken (skip s)).0 == 0) ≡ false → length (gettoken (skip s)).2 < length s
length-word s e = elim (skip-cases s) [
  | inl none_left ↦
      let done : (gettoken (skip s)).0 ≡ 0 = rw none_left gettoken_nil in
      absurd (ground (arith, e, done))
  | inr (c, cs, more, other) ↦
      omega (arith, length-skip s, length-gettoken (skip s) (rw (skip-skip s, more) refl))
]
