-- ===== src/Xv6/Vm/Mapping.antt =====
-- mappages of vm.c maps the pages of a range.
use os_project.Base.{
  ℕ, zero, suc, ◌+◌, ◌-◌, ◌*◌, ◌/◌, ◌^◌, ◌≤◌, ◌<◌, ◌≡◌, ◌≢◌, ◌⊎◌, inl, inr, refl, sym, ap, ◌∙◌,
  true, false, some, ◌==◌, add32, sub32, length, arith, ℕ-cases,
}
use os_project.Xv6.Pages.{page_size}
use os_project.Xv6.Vm.{
  Space, ptx, round_down, walkpgdir, set_pte, is_present, pte_of, done, map_from, mappages,
}
use os_project.Xv6.Vm.Laws.{
  lookup, page, Walked, walk_true, set_pte_here, set_pte_other, Rest, Rest-trans,
}

-- The pages from `x` on, `count` of them, are mapped to the physical addresses from `pa` on, which
-- wrap around as a `uint` does, and no other entry has changed.
pub record Maps (x count pa perm : ℕ) (s s' : Space) : Type 0 where
  pub inside :
      (b : ℕ)
      → x ≤ page b
      → page b < x + count
      → lookup b s' ≡ pte_of (add32 pa ((page b - x) * page_size)) perm
  pub outside : (b : ℕ) → (page b < x) ⊎ (x + count ≤ page b) → lookup b s' ≡ lookup b s
  -- At most a page for each went to the tables.
  pub left : Rest s.pages s'.pages
  pub used : length s.pages ≤ length s'.pages + count

map_last :
    (perm rounds a pa : ℕ) (s : Space) (table : ℕ → ℕ) (s₁ : Space)
    → walkpgdir true a s ≡ some (table, s₁)
    → is_present (table (ptx a)) ≡ false
    → map_from a perm (suc rounds) a pa s ≡ done (set_pte a (pte_of pa perm) s₁)
unfolding map_from
map_last perm rounds a pa s table s₁ w e =
    let here : (a == a) ≡ true = ground arith in rw (w, e, here, map_from) refl

map_more :
    (last perm rounds a pa : ℕ) (s : Space) (table : ℕ → ℕ) (s₁ : Space)
    → walkpgdir true a s ≡ some (table, s₁)
    → is_present (table (ptx a)) ≡ false
    → a ≢ last
    → map_from last perm (suc rounds) a pa s
      ≡ map_from last perm rounds
          (add32 a page_size)
          (add32 pa page_size)
          (set_pte a (pte_of pa perm) s₁)
unfolding map_from
map_more last perm rounds a pa s table s₁ w e ne =
    let there : (a == last) ≡ false = ground (arith, ne) in rw (w, e, there, map_from) refl

-- One page.
stored-Maps :
    (x a pa perm : ℕ) (s : Space) (table : ℕ → ℕ) (s₁ : Space)
    → a ≡ x * page_size
    → pa < 2 ^ 32
    → Walked a s table s₁
    → Maps x 1 pa perm s (set_pte a (pte_of pa perm) s₁)
stored-Maps x a pa perm s table s₁ at p w = record {
  inside = λ b l u.
      let none_before : add32 pa ((page b - x) * page_size) ≡ pa = omega (arith, l, u, p) in
      set_pte_here a b (pte_of pa perm) s₁ w.there.0 w.there.1 (omega (arith, at, l, u))
      ∙ ap (λ q. pte_of q perm) (sym none_before);
  outside = λ b h. set_pte_other a b (pte_of pa perm) s₁ (λ e. ground (arith, e, at, h)) ∙ w.same b;
  left = w.left;
  used = w.enough;
}

-- A page and the ones behind it.
Maps-cons :
    (x count pa perm : ℕ) (s s₁ s₂ : Space)
    → Maps x 1 pa perm s s₁
    → Maps (x + 1) count (add32 pa page_size) perm s₁ s₂
    → Maps x (suc count) pa perm s s₂
Maps-cons x count pa perm s s₁ s₂ h k = record {
  inside = λ b l u. elim (ℕ-cases (page b) x) [
    | inl e ↦ k.outside b (inl (omega (arith, e))) ∙ h.inside b l (omega (arith, e))
    | inr ne ↦
        let shift : add32 (add32 pa page_size) ((page b - (x + 1)) * page_size)
            ≡ add32 pa ((page b - x) * page_size) =
          omega (arith, l, ne) in
        k.inside b (omega (arith, l, ne)) (omega (arith, u)) ∙ ap (λ q. pte_of q perm) shift
  ];
  outside = λ b o. k.outside b (ground (arith, o)) ∙ h.outside b (ground (arith, o));
  left = Rest-trans h.left k.left;
  used = omega (arith, h.used, k.used);
}

map_from-Maps :
    (last perm r x a pa : ℕ) (s : Space)
    → a ≡ x * page_size
    → last ≡ (x + r) * page_size
    → last < 2 ^ 32
    → pa < 2 ^ 32
    → r < length s.pages
    → ((b : ℕ) → x ≤ page b → page b < x + suc r → is_present (lookup b s) ≡ false)
    → (s' : Space) × (map_from last perm (suc r) a pa s ≡ done s') × Maps x (suc r) pa perm s s'
map_from-Maps last perm zero x a pa s at e l p h absent =
    let (table, s₁, w, walked) = walk_true a s (omega (arith, h)) in
    let empty : is_present (table (ptx a)) ≡ false =
      rw walked.entry (absent a (omega (arith, at)) (omega (arith, at))) in
    let same : a ≡ last = omega (arith, at, e) in
    (
      set_pte a (pte_of pa perm) s₁,
      rw (sym same) (map_last perm 0 a pa s table s₁ w empty),
      stored-Maps x a pa perm s table s₁ at p walked,
    )
map_from-Maps last perm (suc r) x a pa s at e l p h absent =
    let (table, s₁, w, walked) = walk_true a s (omega (arith, h)) in
    let empty : is_present (table (ptx a)) ≡ false =
      rw walked.entry (absent a (omega (arith, at)) (omega (arith, at))) in
    let s₂ = set_pte a (pte_of pa perm) s₁ in
    let first = stored-Maps x a pa perm s table s₁ at p walked in
    let next : add32 a page_size ≡ (x + 1) * page_size = omega (arith, at, e, l) in
    let (s', runs, rest) =
      map_from-Maps last perm r (x + 1) (add32 a page_size) (add32 pa page_size) s₂ next
        (omega (arith, e)) l (omega arith) (omega (arith, h, walked.enough))
        (λ b i j.
          rw (first.outside b (inr (omega (arith, i))))
            (absent b (omega (arith, i)) (omega (arith, j)))) in
    (
      s',
      map_more last perm (suc r) a pa s table s₁ w empty (λ same. omega (arith, same, at, e))
          ∙ runs,
      Maps-cons x (suc r) pa perm s s₂ s' first rest,
    )

-- When the range of `mappages` is not empty and ends at the end of the address space at the latest, no
-- page of it is present and there are as many free pages as it has pages, the call succeeds: the k-th
-- page gets the entry `(pa + k * PGSIZE) | perm | PTE_P`, where the sum wraps around as a `uint` does, no
-- other entry changes, and what is taken for page tables comes from the front of the free pages, at
-- most one for each page of the range.
pub mappages-Maps :
    (va size pa perm : ℕ) (s : Space)
    → 0 < size
    → va + size ≤ 2 ^ 32
    → pa < 2 ^ 32
    → page (va + size - 1) - page va < length s.pages
    → ((b : ℕ) → page va ≤ page b → page b ≤ page (va + size - 1) → is_present (lookup b s) ≡ false)
    → (s' : Space) × (mappages va size pa perm s ≡ done s')
      × Maps (page va) (page (va + size - 1) - page va + 1) pa perm s s'
unfolding mappages
mappages-Maps va size pa perm s z l p h absent =
    let a = round_down va in
    let last = round_down (sub32 (add32 va size) 1) in
    let r = page (va + size - 1) - page va in
    let ends : last ≡ (page va + r) * page_size = omega (arith, z, l) in
    let rounds : sub32 last a / page_size + 1 ≡ suc r = omega (arith, z, l) in
    let count : r + 1 ≡ suc r = omega arith in
    rw (rounds, count)
      (map_from-Maps last perm r (page va) a pa s refl ends (omega arith) p (omega (arith, h))
        (λ b i j. absent b i (omega (arith, j, z))))
