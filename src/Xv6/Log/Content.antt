-- ===== src/Xv6/Log/Content.antt =====
-- What a disk stands for: its blocks with the committed transaction of its log installed.
use os_project.Base.{
  ℕ, zero, suc, ◌+◌, ◌≤◌, ◌<◌, ◌≡◌, ◌≢◌, ◌⊎◌, inl, inr, refl, ap, ◌==◌, if◌then◌else◌, arith,
  Bool-cases,
}
use os_project.Xv6.Log.{Block, nlog}

-- The blocks outside the log.
abbrev pub IsHome : ℕ → ℕ → Type 0
IsHome start x = (x < start) ⊎ (start + nlog ≤ x)

-- The block `x` after the first `n` entries of the log have been installed.
abbrev pub content : ℕ → ℕ → (ℕ → ℕ) → (ℕ → Block) → ℕ → Block
content start zero block disk x = disk x
content start (suc n) block disk x =
    if block n == x then disk (start + n + 1) else content start n block disk x

-- What the disk stands for, by the header that it holds.
abbrev pub committed : ℕ → (ℕ → Block) → ℕ → Block
committed start disk x = content start (disk start 0) (λ i. disk start (i + 1)) disk x

-- The entries of a header fit the log and name blocks outside of it.
pub record IsValid (start n : ℕ) (block : ℕ → ℕ) : Type 0 where
  pub fits : n < nlog
  pub homes : (i : ℕ) → i < n → IsHome start (block i)

pub content-cong :
    (start n : ℕ) (block block' : ℕ → ℕ) (disk : ℕ → Block) (x : ℕ)
    → ((i : ℕ) → i < n → block i ≡ block' i)
    → content start n block disk x ≡ content start n block' disk x
content-cong start zero block block' disk x h = refl
content-cong start (suc n) block block' disk x h = ground (
  arith,
  h n (omega arith),
  content-cong start n block block' disk x (λ i l. h i (omega (arith, l))),
)

-- Only the block itself and the slots of the log matter.
pub content-agree :
    (start n : ℕ) (block : ℕ → ℕ) (disk disk' : ℕ → Block) (x : ℕ)
    → disk x ≡ disk' x
    → ((i : ℕ) → i < n → disk (start + i + 1) ≡ disk' (start + i + 1))
    → content start n block disk x ≡ content start n block disk' x
content-agree start zero block disk disk' x e h = e
content-agree start (suc n) block disk disk' x e h = ground (
  arith,
  h n (omega arith),
  content-agree start n block disk disk' x e (λ i l. h i (omega (arith, l))),
)

-- A block that the log holds is not read.
pub content-ignore :
    (start n j : ℕ) (block : ℕ → ℕ) (disk disk' : ℕ → Block)
    → j < n
    → ((i : ℕ) → i < n → disk (start + i + 1) ≡ disk' (start + i + 1))
    → content start n block disk (block j) ≡ content start n block disk' (block j)
content-ignore start zero j block disk disk' l h = absurd (omega (arith, l))
content-ignore start (suc n) j block disk disk' l h = elim (Bool-cases (block n == block j)) [
  | inl here ↦ rw here (h n (omega arith))
  | inr there ↦
      let ne : j ≢ n = λ e. ground (arith, there, ap block e) in
      rw there (
        content-ignore start n j block disk disk' (omega (arith, l, ne))
          (λ i k. h i (omega (arith, k))))
]
