-- ===== src/Xv6/Vm/Unmapping.antt =====
-- deallocuvm of vm.c unmaps the pages of a range.
use os_project.Base.{
  ℕ, zero, suc, ◌+◌, ◌-◌, ◌*◌, ◌/◌, ◌%◌, ◌^◌, ◌≤◌, ◌<◌, ◌≡◌, ◌≢◌, ◌⊎◌, inl, inr, refl, sym, ap, ◌∙◌,
  true, false, none, some, List, [], ◌∷◌, ◌==◌, ltb, leb, add32, arith, Bool-cases, Option-cases,
}
use mathlib.Core.Path.{subst}
use os_project.Xv6.Pages.{page_size, kern_base, is_page}
use os_project.Xv6.Vm.{
  Space, pdx, ptx, walkpgdir, set_pte, is_present, pte_addr, round_up, give_back, unmap_page,
  unmap_from, deallocuvm,
}
use os_project.Xv6.Vm.Laws.{lookup, entry_of, page, walk_there, set_pte_here, set_pte_other}

-- No page from `x` on that begins below `oldsz` is present, and no other entry has changed.
pub record Clears (x oldsz : ℕ) (s s' : Space) : Type 0 where
  pub gone : (b : ℕ) → x ≤ page b → page b * page_size < oldsz → is_present (lookup b s') ≡ false
  pub kept : (b : ℕ) → (page b < x) ⊎ (oldsz ≤ page b * page_size) → lookup b s' ≡ lookup b s

-- From page `x` on an entry that is present points to a page that `kfree` takes, and not to the
-- physical address 0; `end` is the first address behind the kernel.
abbrev pub IsSound : ℕ → ℕ → Space → Type 0
IsSound end x s =
    (b : ℕ)
    → x ≤ page b
    → is_present (lookup b s) ≡ true
    → (pte_addr (lookup b s) ≢ 0) × (is_page end (add32 (pte_addr (lookup b s)) kern_base) ≡ true)

walk_none : (va : ℕ) (s : Space) → s.dir (pdx va) ≡ none → walkpgdir false va s ≡ none
unfolding walkpgdir
walk_none va s e = by_pages s.pages refl
  where
    by_pages : (ps : List ℕ) → s.pages ≡ ps → walkpgdir false va s ≡ none
    by_pages [] p = rw (e, p, walkpgdir) refl
    by_pages (x ∷ rest) p = rw (e, p, walkpgdir) refl

Clears-refl : (x oldsz : ℕ) (s : Space) → oldsz ≤ x * page_size → Clears x oldsz s s
Clears-refl x oldsz s h = record {
  gone = λ b i j. absurd (omega (arith, h, i, j));
  kept = λ b o. refl;
}

<-cases : (a b : ℕ) → (a < b) ⊎ (b ≤ a)
<-cases a b = ground arith

-- A step to page `y`, when the pages before it are not present.
Clears-step :
    (x y oldsz : ℕ) (s s₁ s' : Space)
    → x ≤ y
    → x * page_size < oldsz
    → ((b : ℕ) → x ≤ page b → page b < y → is_present (lookup b s₁) ≡ false)
    → ((b : ℕ) → page b ≢ x → lookup b s₁ ≡ lookup b s)
    → Clears y oldsz s₁ s'
    → Clears x oldsz s s'
Clears-step x y oldsz s s₁ s' l more empty others c = record {
  gone = λ b i j. elim (<-cases (page b) y) [
    | inl before ↦ rw (c.kept b (inl before)) (empty b i before)
    | inr behind ↦ c.gone b behind j
  ];
  kept = λ b o. elim o [
    | inl before ↦ c.kept b (inl (omega (arith, before, l))) ∙ others b (omega (arith, before))
    | inr behind ↦ c.kept b (inr behind) ∙ others b (λ e. omega (arith, e, behind, more))
  ];
}

unmap_stop :
    (end oldsz rounds a : ℕ) (s : Space) → oldsz ≤ a → unmap_from end oldsz rounds a s ≡ some s
unfolding unmap_from
unmap_stop end oldsz zero a s h = refl
unmap_stop end oldsz (suc rounds) a s h =
    let stops : ltb a oldsz ≡ false = ground (arith, h) in
    elim (Option-cases (walkpgdir false a s)) [
      | inl e ↦ rw (e, stops, unmap_from) refl
      | inr (r, e) ↦ rw (e, stops, unmap_from) refl
    ]

unmap_no_table :
    (end oldsz rounds a : ℕ) (s : Space)
    → a < oldsz
    → oldsz ≤ kern_base
    → s.dir (pdx a) ≡ none
    → unmap_from end oldsz (suc rounds) a s ≡ unmap_from end oldsz rounds ((pdx a + 1) * 2 ^ 22) s
unfolding unmap_from
unmap_no_table end oldsz rounds a s h k e =
    let goes : ltb a oldsz ≡ true = ground (arith, h) in
    let next : add32 ((pdx a + 1) * 2 ^ 22 % 2 ^ 32 + 2 ^ 32 - page_size) page_size
        ≡ (pdx a + 1) * 2 ^ 22 =
      omega (arith, h, k) in
    rw (walk_none a s e, goes, next, unmap_from) refl

-- The page of `a` is given back.
abbrev freed : ℕ → Space → Space
freed a s = set_pte a 0 (record s { pages = pte_addr (lookup a s) ∷ s.pages })

unmap_page_freed :
    (end a : ℕ) (s : Space)
    → pte_addr (lookup a s) ≢ 0
    → is_page end (add32 (pte_addr (lookup a s)) kern_base) ≡ true
    → unmap_page end a (lookup a s) s ≡ some (freed a s)
unfolding unmap_page give_back
unmap_page_freed end a s ne h =
    let low : (pte_addr (lookup a s) == 0) ≡ false = ground (arith, ne) in rw (low, h) refl

unmap_present :
    (end oldsz rounds a : ℕ) (s : Space) (t : ℕ × (ℕ → ℕ))
    → a < oldsz
    → s.dir (pdx a) ≡ some t
    → is_present (lookup a s) ≡ true
    → (pte_addr (lookup a s) ≢ 0) × (is_page end (add32 (pte_addr (lookup a s)) kern_base) ≡ true)
    → unmap_from end oldsz (suc rounds) a s
      ≡ unmap_from end oldsz rounds (add32 a page_size) (freed a s)
unfolding unmap_from
unmap_present end oldsz rounds a s t h e p sound =
    let goes : ltb a oldsz ≡ true = ground (arith, h) in
    let entry : lookup a s ≡ t.1 (ptx a) = ap (λ o. entry_of o (ptx a)) e in
    let present : is_present (t.1 (ptx a)) ≡ true = subst (λ w. is_present w ≡ true) entry p in
    let gone : unmap_page end a (t.1 (ptx a)) s ≡ some (freed a s) =
      subst (λ w. unmap_page end a w s ≡ some (freed a s)) entry
        (unmap_page_freed end a s sound.0 sound.1) in
    rw (walk_there false a s t e, goes, present, gone, unmap_from) refl

unmap_absent :
    (end oldsz rounds a : ℕ) (s : Space) (t : ℕ × (ℕ → ℕ))
    → a < oldsz
    → s.dir (pdx a) ≡ some t
    → is_present (lookup a s) ≡ false
    → unmap_from end oldsz (suc rounds) a s ≡ unmap_from end oldsz rounds (add32 a page_size) s
unfolding unmap_from
unmap_absent end oldsz rounds a s t h e p =
    let goes : ltb a oldsz ≡ true = ground (arith, h) in
    let entry : lookup a s ≡ t.1 (ptx a) = ap (λ o. entry_of o (ptx a)) e in
    let absent : is_present (t.1 (ptx a)) ≡ false = subst (λ w. is_present w ≡ false) entry p in
    rw (walk_there false a s t e, goes, absent, unmap_from) refl

-- All addresses of a page have the same entry.
pub lookup-page : (a b : ℕ) (s : Space) → page b ≡ page a → lookup b s ≡ lookup a s
lookup-page a b s h =
    let d : pdx b ≡ pdx a = omega (arith, h) in
    let i : ptx b ≡ ptx a = omega (arith, h) in
    ap (λ j. entry_of (s.dir j) (ptx b)) d ∙ ap (entry_of (s.dir (pdx a))) i

-- A directory entry that is absent has no pages.
no_table_absent :
    (a b : ℕ) (s : Space) → s.dir (pdx a) ≡ none → pdx b ≡ pdx a → is_present (lookup b s) ≡ false
no_table_absent a b s e d =
    ap (λ j. is_present (entry_of (s.dir j) (ptx b))) d
    ∙ ap (λ o. is_present (entry_of o (ptx b))) e

unmap_from-Clears :
    (end oldsz rounds x a : ℕ) (s : Space)
    → a ≡ x * page_size
    → oldsz ≤ kern_base
    → oldsz ≤ a + rounds * page_size
    → IsSound end x s
    → (s' : Space) × (unmap_from end oldsz rounds a s ≡ some s') × Clears x oldsz s s'
unmap_from-Clears end oldsz zero x a s at k fuel sound = (
  s,
  unmap_stop end oldsz 0 a s (omega (arith, fuel)),
  Clears-refl x oldsz s (omega (arith, fuel, at)),
)
unmap_from-Clears end oldsz (suc rounds) x a s at k fuel sound = elim (<-cases a oldsz) [
  | inr over ↦ (
    s,
    unmap_stop end oldsz (suc rounds) a s over,
    Clears-refl x oldsz s (omega (arith, over, at)),
  )
  | inl more ↦ elim (Option-cases (s.dir (pdx a))) [
    | inl e ↦
        let y = (pdx a + 1) * 2 ^ 10 in
        let (s', runs, c) =
          unmap_from-Clears end oldsz rounds y ((pdx a + 1) * 2 ^ 22) s (omega arith) k
            (omega (arith, fuel, at)) (λ b i. sound b (omega (arith, i, at))) in
        (
          s',
          unmap_no_table end oldsz rounds a s more k e ∙ runs,
          Clears-step x y oldsz s s s' (omega (arith, at)) (omega (arith, more, at))
              (λ b i j. no_table_absent a b s e (omega (arith, i, j, at))) (λ b ne. refl) c,
        )
    | inr (t, e) ↦
        let next : add32 a page_size ≡ (x + 1) * page_size = omega (arith, at, more, k) in
        let further : oldsz ≤ add32 a page_size + rounds * page_size =
          omega (arith, next, at, fuel) in
        elim (Bool-cases (is_present (lookup a s))) [
          | inl p ↦
              let s₁ = freed a s in
              let others : (b : ℕ) → page b ≢ x → lookup b s₁ ≡ lookup b s =
                λ b ne. set_pte_other a b 0 s (λ h. ne (omega (arith, h, at))) in
              let sound₁ : IsSound end (x + 1) s₁ = λ b i.
                subst
                  (λ w.
                    is_present w ≡ true
                    → (pte_addr w ≢ 0) × (is_page end (add32 (pte_addr w) kern_base) ≡ true))
                  (sym (others b (omega (arith, i)))) (sound b (omega (arith, i))) in
              let (s', runs, c) =
                unmap_from-Clears end oldsz rounds (x + 1) (add32 a page_size) s₁ next k further
                  sound₁ in
              (
                s',
                unmap_present end oldsz rounds a s t more e p (sound a (omega (arith, at)) p)
                    ∙ runs,
                Clears-step x (x + 1) oldsz s s₁ s' (omega arith) (omega (arith, more, at))
                    (λ b i j. ap is_present (set_pte_here a b 0 s t e (omega (arith, i, j, at))))
                    others c,
              )
          | inr p ↦
              let (s', runs, c) =
                unmap_from-Clears end oldsz rounds (x + 1) (add32 a page_size) s next k further
                  (λ b i. sound b (omega (arith, i))) in
              (
                s',
                unmap_absent end oldsz rounds a s t more e p ∙ runs,
                Clears-step x (x + 1) oldsz s s s' (omega arith) (omega (arith, more, at))
                    (λ b i j. ap is_present (lookup-page a b s (omega (arith, i, j, at))) ∙ p)
                    (λ b ne. refl) c,
              )
        ]
  ]
]

-- For sizes up to the kernel, when each entry at or behind the new size that is present points to a
-- page that `kfree` takes, shrinking a process ends without a panic: no page that begins between the new
-- size and the old one is present, and no other entry changes.
pub deallocuvm-Clears :
    (end oldsz newsz : ℕ) (s : Space)
    → newsz < oldsz
    → oldsz ≤ kern_base
    → IsSound end (page (round_up newsz)) s
    → (s' : Space) × (deallocuvm end oldsz newsz s ≡ some (newsz, s'))
      × Clears (page (round_up newsz)) oldsz s s'
unfolding deallocuvm
deallocuvm-Clears end oldsz newsz s l k sound =
    let shrinks : leb oldsz newsz ≡ false = ground (arith, l) in
    let (s', runs, c) =
      unmap_from-Clears end oldsz (oldsz / page_size + 1) (page (round_up newsz)) (round_up newsz) s
        (omega arith) k (omega arith) sound in
    (s', rw (shrinks, runs, deallocuvm) refl, c)
