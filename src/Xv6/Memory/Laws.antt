-- ===== src/Xv6/Memory/Laws.antt =====
-- The blocks that memmove, memset and memcmp of B22CS052/Helpful/string.c work on.
use os_project.Base.{
  ℕ, zero, suc, ◌+◌, ◌-◌, ◌*◌, ◌/◌, ◌%◌, ◌^◌, ◌≤◌, ◌<◌, ◌≡◌, ◌⊎◌, inl, inr, refl, sym, ap, ◌∙◌,
  ◌&&◌, ◌==◌, ltb, leb, if◌then◌else◌, arith, update, Bool-cases,
}
use mathlib.Core.Logic.{◌↔◌}
use os_project.Xv6.Memory.{stosb, stosl, memset, memcmp, copy_up, copy_down, memmove}

-- The memory with the block of `n` bytes at `dst` as `block` gives it, by offset.
abbrev pub with_block : ℕ → ℕ → (ℕ → ℕ) → (ℕ → ℕ) → ℕ → ℕ
with_block dst n block mem i = if leb dst i && ltb i (dst + n) then block (i - dst) else mem i

copy_up_lem :
    (d s n : ℕ) (mem : ℕ → ℕ) (i : ℕ)
    → (d ≤ s) ⊎ (s + n ≤ d)
    → copy_up d s n mem i ≡ with_block d n (λ k. mem (s + k)) mem i
unfolding copy_up
copy_up_lem d s zero mem i h = ground arith
copy_up_lem d s (suc n) mem i h =
    copy_up_lem (d + 1) (s + 1) n (update mem d (mem s)) i (ground (arith, h)) ∙ ground (arith, h)

copy_down_lem :
    (d s n : ℕ) (mem : ℕ → ℕ) (i : ℕ)
    → s ≤ d
    → copy_down d s n mem i ≡ with_block d n (λ k. mem (s + k)) mem i
unfolding copy_down
copy_down_lem d s zero mem i h = ground arith
copy_down_lem d s (suc n) mem i h =
    copy_down_lem d s n (update mem (d + n) (mem (s + n))) i h ∙ ground (arith, h)

-- The block at `dst` is afterwards what the block at `src` was before, byte by byte, also where the
-- two overlap, and every other byte stays.
pub memmove_lem :
    (dst src n : ℕ) (mem : ℕ → ℕ) (i : ℕ)
    → memmove dst src n mem i ≡ with_block dst n (λ k. mem (src + k)) mem i
unfolding memmove
memmove_lem dst src n mem i =
    ground (arith, copy_up_lem dst src n mem i, copy_down_lem dst src n mem i)

stosb_lem :
    (dst c n : ℕ) (mem : ℕ → ℕ) (i : ℕ)
    → stosb dst c n mem i ≡ with_block dst n (λ k. c % 256) mem i
unfolding stosb
stosb_lem dst c zero mem i = ground arith
stosb_lem dst c (suc n) mem i = stosb_lem (dst + 1) c n (update mem dst (c % 256)) i ∙ ground arith

-- A word of four equal bytes.
abbrev spread : ℕ → ℕ
spread b = b * 2 ^ 24 + b * 2 ^ 16 + b * 2 ^ 8 + b

spread_bytes :
    (b : ℕ)
    → b < 256
    → (spread b % 256 ≡ b)
      × (spread b / 2 ^ 8 % 256 ≡ b)
      × (spread b / 2 ^ 16 % 256 ≡ b)
      × (spread b / 2 ^ 24 % 256 ≡ b)
spread_bytes b h = omega (arith, h)

stosl_lem :
    (dst b n : ℕ) (mem : ℕ → ℕ) (i : ℕ)
    → b < 256
    → stosl dst (spread b) n mem i ≡ with_block dst (4 * n) (λ k. b) mem i
unfolding stosl
stosl_lem dst b zero mem i h = ground arith
stosl_lem dst b (suc n) mem i h =
    let (b₀, b₁, b₂, b₃) = spread_bytes b h in
    let start : ℕ → ℕ =
      update (update (update (update mem dst b) (dst + 1) b) (dst + 2) b) (dst + 3) b in
    rw (b₀, b₁, b₂, b₃) (stosl_lem (dst + 4) b n start i h ∙ ground arith)

-- Every byte of the block gets the low byte of `c`, whichever of the two instructions sets it, and
-- every other byte stays.
pub memset_lem :
    (dst c n : ℕ) (mem : ℕ → ℕ) (i : ℕ)
    → memset dst c n mem i ≡ with_block dst n (λ k. c % 256) mem i
unfolding memset
memset_lem dst c n mem i =
    let bound : c % 256 < 256 = omega arith in
    elim (Bool-cases (dst % 4 == 0 && n % 4 == 0)) [
      | inl w ↦
          let whole : 4 * (n / 4) ≡ n = ground (arith, w) in
          rw w (
            stosl_lem dst (c % 256) (n / 4) mem i bound
            ∙ ap (λ m. with_block dst m (λ k. c % 256) mem i) whole)
      | inr w ↦ rw w (stosb_lem dst c n mem i)
    ]

memcmp_sound :
    (v₁ v₂ n : ℕ) (mem : ℕ → ℕ)
    → ((i : ℕ) → mem i < 256)
    → memcmp v₁ v₂ n mem ≡ 0
    → (k : ℕ) → k < n
    → mem (v₁ + k) ≡ mem (v₂ + k)
unfolding memcmp
memcmp_sound v₁ v₂ zero mem b h k l = absurd (omega (arith, l))
memcmp_sound v₁ v₂ (suc n) mem b h zero l = ground (arith, h, b v₁, b v₂)
memcmp_sound v₁ v₂ (suc n) mem b h (suc k) l =
    let rest : memcmp (v₁ + 1) (v₂ + 1) n mem ≡ 0 = ground (arith, h, b v₁, b v₂) in
    let p₁ : v₁ + suc k ≡ v₁ + 1 + k = omega arith in
    let p₂ : v₂ + suc k ≡ v₂ + 1 + k = omega arith in
    ap mem p₁ ∙ memcmp_sound (v₁ + 1) (v₂ + 1) n mem b rest k (omega (arith, l)) ∙ sym (ap mem p₂)

memcmp_complete :
    (v₁ v₂ n : ℕ) (mem : ℕ → ℕ)
    → ((k : ℕ) → k < n → mem (v₁ + k) ≡ mem (v₂ + k))
    → memcmp v₁ v₂ n mem ≡ 0
unfolding memcmp
memcmp_complete v₁ v₂ zero mem h = refl
memcmp_complete v₁ v₂ (suc n) mem h =
    let first : mem v₁ ≡ mem v₂ =
      (let p₁ : v₁ ≡ v₁ + 0 = omega arith in
        let p₂ : v₂ ≡ v₂ + 0 = omega arith in ap mem p₁ ∙ h 0 (omega arith) ∙ sym (ap mem p₂)) in
    let rest = memcmp_complete (v₁ + 1) (v₂ + 1) n mem (λ k l.
      let p₁ : v₁ + 1 + k ≡ v₁ + suc k = omega arith in
      let p₂ : v₂ + 1 + k ≡ v₂ + suc k = omega arith in
      ap mem p₁ ∙ h (suc k) (omega (arith, l)) ∙ sym (ap mem p₂)) in
    ground (arith, first, rest)

-- The comparison gives 0 exactly if the two blocks of bytes are equal.
pub memcmp_iff :
    (v₁ v₂ n : ℕ) (mem : ℕ → ℕ)
    → ((i : ℕ) → mem i < 256)
    → (memcmp v₁ v₂ n mem ≡ 0) ↔ ((k : ℕ) → k < n → mem (v₁ + k) ≡ mem (v₂ + k))
memcmp_iff v₁ v₂ n mem b = (memcmp_sound v₁ v₂ n mem b, memcmp_complete v₁ v₂ n mem)
