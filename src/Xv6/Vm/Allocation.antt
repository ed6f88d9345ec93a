-- ===== src/Xv6/Vm/Allocation.antt =====
-- allocuvm of vm.c gives a process pages of its own.
use os_project.Base.{
  ℕ, zero, suc, ◌+◌, ◌-◌, ◌*◌, ◌/◌, ◌%◌, bit_or, bit_or_half, bit_or-zero, ◌^◌, ◌≤◌, ◌<◌, ◌≡◌, ◌≢◌,
  ◌⊎◌, inl, inr, refl, sym, ap, ◌∙◌, true, false, some, List, [], ◌∷◌, ltb, leb, add32, length, All,
  IsDistinct, arith, ℕ-cases,
}
use mathlib.Core.Path.{subst}
use os_project.Xv6.Pages.{page_size, kern_base}
use os_project.Xv6.Vm.{
  round_up, Space, is_present, pte_of, user, done, mappages, allocuvm, alloc_from, allocuvm,
}
use os_project.Xv6.Vm.Laws.{
  lookup, page, pages_cons, Rest, whole, behind, Rest-All, Rest-IsDistinct,
}
use os_project.Xv6.Vm.Unmapping.{lookup-page}
use os_project.Xv6.Vm.Mapping.{Maps, mappages-Maps}

pub data In : ℕ → List ℕ → Type 0 where
  here : {x : ℕ} {xs : List ℕ} → In x (x ∷ xs)
  there : {x y : ℕ} {xs : List ℕ} → In x xs → In x (y ∷ xs)

In-All : (P : ℕ → Type 0) {x : ℕ} {xs : List ℕ} → In x xs → All P xs → P x
In-All P here h = h.0
In-All P (there i) h = In-All P i h.1

In-Rest : {x : ℕ} {xs ys : List ℕ} → Rest xs ys → In x ys → In x xs
In-Rest whole i = i
In-Rest (behind h) i = there (In-Rest h i)

-- The physical address of a page.
abbrev pub IsLow : ℕ → Type 0
IsLow m = (m % page_size ≡ 0) × (m < 2 ^ 32)

-- The bits of an entry from the third on are those of the address.
pte_of-address : (m : ℕ) → pte_of m user / 2 / 2 / 2 ≡ m / 2 / 2 / 2
unfolding pte_of
pte_of-address m =
    let inner : bit_or m 6 / 2 / 2 / 2 ≡ m / 2 / 2 / 2 =
      ap (λ x. x / 2 / 2) (bit_or_half m 6)
      ∙ ap (λ x. x / 2) (bit_or_half (m / 2) 3)
      ∙ bit_or_half (m / 2 / 2) 1
      ∙ bit_or-zero (m / 2 / 2 / 2) in
    ap (λ x. x / 2 / 2) (bit_or_half (bit_or m 6) 1 ∙ bit_or-zero (bit_or m 6 / 2)) ∙ inner

-- Two pages with the same entry are the same.
pte_of-same : (m n : ℕ) → IsLow m → IsLow n → pte_of m user ≡ pte_of n user → m ≡ n
pte_of-same m n h k e =
    let same : m / 2 / 2 / 2 ≡ n / 2 / 2 / 2 =
      sym (pte_of-address m) ∙ ap (λ x. x / 2 / 2 / 2) e ∙ pte_of-address n in
    omega (arith, h.0, k.0, same)

-- The pages from `x` on that begin below `newsz` are user pages, each one of the pages `free` and no two
-- the same; no other entry has changed.
pub record Grown (x newsz : ℕ) (free : List ℕ) (s s' : Space) : Type 0 where
  pub inside :
      (b : ℕ)
      → x ≤ page b
      → page b * page_size < newsz
      → (m : ℕ) × In m free × (lookup b s' ≡ pte_of m user)
  pub apart :
      (b c : ℕ)
      → x ≤ page b
      → page b * page_size < newsz
      → x ≤ page c
      → page c * page_size < newsz
      → page b ≢ page c
      → lookup b s' ≢ lookup c s'
  pub outside : (b : ℕ) → (page b < x) ⊎ (newsz ≤ page b * page_size) → lookup b s' ≡ lookup b s

Grown-refl : (x newsz : ℕ) (s : Space) → newsz ≤ x * page_size → Grown x newsz s.pages s s
Grown-refl x newsz s h = record {
  inside = λ b i j. absurd (omega (arith, h, i, j));
  apart = λ b c i j i' j' ne. absurd (omega (arith, h, i, j));
  outside = λ b o. refl;
}

alloc_stop :
    (end oldsz newsz rounds a : ℕ) (s : Space)
    → newsz ≤ a
    → alloc_from end oldsz newsz rounds a s ≡ some (newsz, s)
unfolding alloc_from
alloc_stop end oldsz newsz zero a s h = refl
alloc_stop end oldsz newsz (suc rounds) a s h = by_pages s.pages refl
  where
    stops : ltb a newsz ≡ false
    stops = ground (arith, h)

    by_pages :
        (ps : List ℕ) → s.pages ≡ ps → alloc_from end oldsz newsz (suc rounds) a s ≡ some (newsz, s)
    by_pages [] p = ground (arith, p, stops)
    by_pages (x ∷ rest) p = ground (arith, p, stops)

alloc_more :
    (end oldsz newsz rounds a mem : ℕ) (rest : List ℕ) (s s₁ : Space)
    → a < newsz
    → s.pages ≡ mem ∷ rest
    → mappages a page_size mem user (record s { pages = rest }) ≡ done s₁
    → alloc_from end oldsz newsz (suc rounds) a s
      ≡ alloc_from end oldsz newsz rounds (add32 a page_size) s₁
unfolding alloc_from
alloc_more end oldsz newsz rounds a mem rest s s₁ h p e =
    let goes : ltb a newsz ≡ true = ground (arith, h) in rw (p, goes, e, alloc_from) refl

-- A page is mapped to the free page `mem`, and the ones behind it grow by what is left.
Grown-cons :
    (x newsz mem : ℕ) (rest : List ℕ) (s s₁ s' : Space)
    → x * page_size < newsz
    → IsDistinct (mem ∷ rest)
    → All IsLow (mem ∷ rest)
    → Maps x 1 mem user (record s { pages = rest }) s₁
    → Grown (x + 1) newsz s₁.pages s₁ s'
    → Grown x newsz (mem ∷ rest) s s'
Grown-cons x newsz mem rest s s₁ s' more distinct low maps grown = record {
  inside = λ b i j. elim (ℕ-cases (page b) x) [
    | inl e ↦ (mem, here, first b e)
    | inr ne ↦
        let (m, held, is) = grown.inside b (omega (arith, i, ne)) j in
        (m, there (In-Rest maps.left held), is)
  ];
  apart = λ b c i j i' j' ne. elim (ℕ-cases (page b) x) [
    | inl e ↦ λ same. others c (omega (arith, i', e, ne)) j' (sym same ∙ first b e)
    | inr out ↦ elim (ℕ-cases (page c) x) [
      | inl e ↦ λ same. others b (omega (arith, i, out)) j (same ∙ first c e)
      | inr out' ↦ grown.apart b c (omega (arith, i, out)) j (omega (arith, i', out')) j' ne
    ]
  ];
  outside = λ b o. grown.outside b (ground (arith, o)) ∙ maps.outside b (ground (arith, o, more));
}
  where
    first : (b : ℕ) → page b ≡ x → lookup b s' ≡ pte_of mem user
    first b e =
        let at : add32 mem ((page b - x) * page_size) ≡ mem = omega (arith, e, low.0.1) in
        grown.outside b (inl (omega (arith, e)))
        ∙ maps.inside b (omega (arith, e)) (omega (arith, e))
        ∙ ap (λ k. pte_of k user) at

    others : (c : ℕ) → x + 1 ≤ page c → page c * page_size < newsz → lookup c s' ≢ pte_of mem user
    others c i j same =
        let (m, held, is) = grown.inside c i j in
        In-All (λ y. y ≢ mem) (In-Rest maps.left held) distinct.0
          (pte_of-same m mem (In-All IsLow (In-Rest maps.left held) low.1) low.0 (sym is ∙ same))

<-cases : (a b : ℕ) → (a < b) ⊎ (b ≤ a)
<-cases a b = ground arith

-- One page of `allocuvm`.
map_page :
    (x a mem : ℕ) (s : Space)
    → a ≡ x * page_size
    → a < kern_base
    → mem < 2 ^ 32
    → 0 < length s.pages
    → is_present (lookup a s) ≡ false
    → (s₁ : Space) × (mappages a page_size mem user s ≡ done s₁) × Maps x 1 mem user s s₁
map_page x a mem s at l m h absent =
    let (s₁, runs, maps) =
      mappages-Maps a page_size mem user s (omega arith) (omega (arith, l)) (omega (arith, m))
        (omega (arith, at, h))
        (λ b i j. ap is_present (lookup-page a b s (omega (arith, i, j, at))) ∙ absent) in
    let one : page (a + page_size - 1) - page a + 1 ≡ 1 = omega (arith, at) in
    let from : page a ≡ x = omega (arith, at) in
    (
      s₁,
      runs,
      subst (λ n. Maps x n mem user s s₁) one
          (subst (λ y. Maps y (page (a + page_size - 1) - page a + 1) mem user s s₁) from maps),
    )

alloc_from-Grown :
    (end oldsz newsz n rounds x a : ℕ) (s : Space)
    → a ≡ x * page_size
    → newsz < kern_base
    → newsz ≤ (x + n) * page_size
    → n ≤ rounds
    → 2 * n ≤ length s.pages
    → All IsLow s.pages
    → IsDistinct s.pages
    → ((b : ℕ) → x ≤ page b → page b * page_size < newsz → is_present (lookup b s) ≡ false)
    → (s' : Space) × (alloc_from end oldsz newsz rounds a s ≡ some (newsz, s'))
      × Grown x newsz s.pages s s'
alloc_from-Grown end oldsz newsz zero rounds x a s at k fits fuel enough low distinct absent = (
  s,
  alloc_stop end oldsz newsz rounds a s (omega (arith, fits, at)),
  Grown-refl x newsz s (omega (arith, fits)),
)
alloc_from-Grown end oldsz newsz (suc n) zero x a s at k fits fuel enough low distinct absent =
    absurd (omega (arith, fuel))
alloc_from-Grown end oldsz newsz (suc n) (suc rounds) x a s at k fits fuel enough low distinct
      absent =
    elim (<-cases a newsz) [
      | inr over ↦ (
        s,
        alloc_stop end oldsz newsz (suc rounds) a s over,
        Grown-refl x newsz s (omega (arith, over, at)),
      )
      | inl more ↦
          let (mem, rest, p) = pages_cons s.pages (omega (arith, enough)) in
          let without : Space = record s { pages = rest } in
          let enough' : 2 * suc n ≤ suc (length rest) =
            subst (λ l. 2 * suc n ≤ length l) p enough in
          let low' : All IsLow (mem ∷ rest) = subst (All IsLow) p low in
          let distinct' : IsDistinct (mem ∷ rest) = subst IsDistinct p distinct in
          let (s₁, mapped, maps) =
            map_page x a mem without at (omega (arith, more, k)) low'.0.1 (omega (arith, enough'))
              (absent a (omega (arith, at)) (omega (arith, at, more))) in
          let next : add32 a page_size ≡ (x + 1) * page_size = omega (arith, at, more, k) in
          let (s', runs, grown) =
            alloc_from-Grown end oldsz newsz n rounds (x + 1) (add32 a page_size) s₁ next k
              (omega (arith, fits)) (omega (arith, fuel)) (omega (arith, enough', maps.used))
              (Rest-All IsLow maps.left low'.1) (Rest-IsDistinct maps.left distinct'.1)
              (λ b i j.
                ap is_present (maps.outside b (inr (omega (arith, i))))
                ∙ absent b (omega (arith, i)) j) in
          let all : Grown x newsz (mem ∷ rest) s s' =
            Grown-cons x newsz mem rest s s₁ s' (omega (arith, at, more)) distinct' low' maps
              grown in
          (
            s',
            alloc_more end oldsz newsz rounds a mem rest s s₁ more p mapped ∙ runs,
            subst (λ l. Grown x newsz l s s') (sym p) all,
          )
    ]

-- Growing a process that stays below the kernel, when no page is in the way and the free pages are distinct
-- addresses of pages, two of them for each page to be added: allocuvm returns the new size, each page
-- behind the old ones becomes a user page that was free, no two of them the same one, and no other
-- entry changes.
pub allocuvm-Grown :
    (end oldsz newsz : ℕ) (s : Space)
    → oldsz ≤ newsz
    → newsz < kern_base
    → 2 * (page (round_up newsz) - page (round_up oldsz)) ≤ length s.pages
    → All IsLow s.pages
    → IsDistinct s.pages
    → ((b : ℕ)
        → page (round_up oldsz) ≤ page b
        → page b * page_size < newsz
        → is_present (lookup b s) ≡ false)
    → (s' : Space) × (allocuvm end oldsz newsz s ≡ some (newsz, s'))
      × Grown (page (round_up oldsz)) newsz s.pages s s'
unfolding allocuvm
allocuvm-Grown end oldsz newsz s l k enough low distinct absent =
    let below : leb kern_base newsz ≡ false = ground (arith, k) in
    let grows : ltb newsz oldsz ≡ false = ground (arith, l) in
    let n = page (round_up newsz) - page (round_up oldsz) in
    rw (below, grows)
      (alloc_from-Grown end oldsz newsz n (newsz / page_size + 1) (page (round_up oldsz))
        (round_up oldsz) s (omega arith) k (omega (arith, l)) (omega (arith, l)) enough low distinct
        absent)
