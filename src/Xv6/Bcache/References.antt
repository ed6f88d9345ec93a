-- ===== src/Xv6/Bcache/References.antt =====
-- References to the buffers of bio.c, and what changes of the cache leave of them.
use os_project.Base.{
  update_here, update_other, ℕ, ◌+◌, ◌≤◌, ◌≡◌, ◌≢◌, ◌⊎◌, inl, inr, sym, ap, ◌∙◌, true, List, [],
  ◌∷◌, ◌++◌, ◌==◌, if◌then◌else◌, arith, update, ℕ-cases, All, length,
}
use os_project.Xv6.Bcache.{Buf, Bcache, recycled}
use os_project.Xv6.Bcache.Search.{has}

-- A reference to buffer `slot`, obtained for a block.
pub record Reference : Type 0 where
  pub slot : ℕ
  pub dev : ℕ
  pub blockno : ℕ

-- The references to a buffer.
abbrev pub uses : ℕ → List Reference → ℕ
uses s [] = 0
uses s (r ∷ rs) = (if r.slot == s then 1 else 0) + uses s rs

-- The reference is to a buffer of the cache that holds its block.
pub record Serves (c : Bcache) (r : Reference) : Type 0 where
  pub linked : has r.slot c.order ≡ true
  pub on_dev : (c.buf r.slot).dev ≡ r.dev
  pub on_block : (c.buf r.slot).blockno ≡ r.blockno

-- Two buffers of the cache that hold the same block are one, but for block 0 of device 0, which all
-- buffers are marked with at the start.
abbrev pub IsOnce : Bcache → Type 0
IsOnce c =
    (s t : ℕ)
    → has s c.order ≡ true
    → has t c.order ≡ true
    → (c.buf s).dev ≡ (c.buf t).dev
    → (c.buf s).blockno ≡ (c.buf t).blockno
    → (s ≡ t) ⊎ (((c.buf s).dev ≡ 0) × ((c.buf s).blockno ≡ 0))

pub uses-le : (s : ℕ) (rs : List Reference) → uses s rs ≤ length rs
uses-le s [] = omega arith
uses-le s (r ∷ rs) = ground (arith, uses-le s rs)

pub uses-append : (s : ℕ) (rs ts : List Reference) → uses s (rs ++ ts) ≡ uses s rs + uses s ts
uses-append s [] ts = omega arith
uses-append s (r ∷ rs) ts = omega (arith, uses-append s rs ts)

-- A buffer without references is nobody's.
pub unused_slot : (s : ℕ) (rs : List Reference) → uses s rs ≡ 0 → All (λ r. r.slot ≢ s) rs
unused_slot s [] e = tt
unused_slot s (r ∷ rs) e = (ground (arith, e), unused_slot s rs (omega (arith, e)))

-- The two caches have the same buffers, with the same blocks.
pub record Same (c c' : Bcache) : Type 0 where
  pub devs : (t : ℕ) → (c'.buf t).dev ≡ (c.buf t).dev
  pub blocks : (t : ℕ) → (c'.buf t).blockno ≡ (c.buf t).blockno
  pub kept : (t : ℕ) → has t c.order ≡ true → has t c'.order ≡ true
  pub old : (t : ℕ) → has t c'.order ≡ true → has t c.order ≡ true

pub update_field :
    (f : Buf → ℕ) (buf : ℕ → Buf) (s : ℕ) (b : Buf) (t : ℕ)
    → f b ≡ f (buf s)
    → f (update buf s b t) ≡ f (buf t)
update_field f buf s b t e = elim (ℕ-cases s t) [
  | inl same ↦ let e' : f b ≡ f (buf t) = e ∙ ap (λ i. f (buf i)) same in ground (arith, same, e')
  | inr ne ↦ ground (arith, ne)
]

pub Same-Serves : (c c' : Bcache) → Same c c' → (r : Reference) → Serves c r → Serves c' r
Same-Serves c c' h r v = record {
  linked = h.kept r.slot v.linked;
  on_dev = h.devs r.slot ∙ v.on_dev;
  on_block = h.blocks r.slot ∙ v.on_block;
}

pub Same-IsOnce : (c c' : Bcache) → Same c c' → IsOnce c → IsOnce c'
Same-IsOnce c c' h once s t hs ht d b =
    elim (once s t (h.old s hs) (h.old t ht) (sym (h.devs s) ∙ d ∙ h.devs t)
      (sym (h.blocks s) ∙ b ∙ h.blocks t)) [
        | inl same ↦ inl same
        | inr zeros ↦ inr (h.devs s ∙ zeros.0, h.blocks s ∙ zeros.1)
      ]

pub All_imp :
    (P Q : Reference → Type 0) (rs : List Reference)
    → ((r : Reference) → P r → Q r)
    → All P rs
    → All Q rs
All_imp P Q [] f h = tt
All_imp P Q (r ∷ rs) f h = (f r h.0, All_imp P Q rs f h.1)

-- A change of one buffer that counts its references.
pub counted_update :
    (buf : ℕ → Buf) (s : ℕ) (b : Buf) (rs rs' : List Reference)
    → ((t : ℕ) → (buf t).refcnt ≡ uses t rs)
    → b.refcnt ≡ uses s rs'
    → ((t : ℕ) → t ≢ s → uses t rs' ≡ uses t rs)
    → (t : ℕ) → (update buf s b t).refcnt ≡ uses t rs'
counted_update buf s b rs rs' counted e others t = elim (ℕ-cases s t) [
  | inl same ↦
      let e' : b.refcnt ≡ uses t rs' = e ∙ ap (λ i. uses i rs') same in ground (arith, same, e')
  | inr ne ↦ ground (arith, ne, counted t, others t (λ e. ne (sym e)))
]

pub All_both :
    (P Q : Reference → Type 0) (rs : List Reference) → All P rs → All Q rs → All (λ r. P r × Q r) rs
All_both P Q [] h k = tt
All_both P Q (r ∷ rs) h k = ((h.0, k.0), All_both P Q rs h.1 k.1)

pub recycled-IsOnce :
    (c : Bcache) (s dev blockno : ℕ)
    → ((t : ℕ) → has t c.order ≡ true → (c.buf t).dev ≡ dev → (c.buf t).blockno ≢ blockno)
    → IsOnce c
    → IsOnce (record c { buf = update c.buf s (recycled dev blockno) })
recycled-IsOnce c s dev blockno fresh once i j hi hj d b =
    let x : Buf = recycled dev blockno in
    elim (ℕ-cases i s) [
      | inl at_i ↦ elim (ℕ-cases j s) [
        | inl at_j ↦ inl (at_i ∙ sym at_j)
        | inr j_out ↦
            let here : update c.buf s x i ≡ x = rw at_i (update_here c.buf s x) in
            let there = update_other c.buf s x j j_out in
            absurd (
              fresh j hj (sym (ap (λ b. b.dev) there) ∙ sym d ∙ ap (λ b. b.dev) here)
                (sym (ap (λ b. b.blockno) there) ∙ sym b ∙ ap (λ b. b.blockno) here))
      ]
      | inr i_out ↦
          let there = update_other c.buf s x i i_out in
          elim (ℕ-cases j s) [
            | inl at_j ↦
                let here : update c.buf s x j ≡ x = rw at_j (update_here c.buf s x) in
                absurd (
                  fresh i hi (sym (ap (λ b. b.dev) there) ∙ d ∙ ap (λ b. b.dev) here)
                    (sym (ap (λ b. b.blockno) there) ∙ b ∙ ap (λ b. b.blockno) here))
            | inr j_out ↦
                let other = update_other c.buf s x j j_out in
                rw (there) (
                  once i j hi hj (sym (ap (λ b. b.dev) there) ∙ d ∙ ap (λ b. b.dev) other)
                    (sym (ap (λ b. b.blockno) there) ∙ b ∙ ap (λ b. b.blockno) other))
          ]
    ]
