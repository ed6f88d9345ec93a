-- ===== src/Xv6/Vm/Laws.antt =====
-- Page tables of vm.c as maps from pages to entries.
use os_project.Base.{
  ℕ, ◌+◌, ◌/◌, ◌≤◌, ◌≡◌, ◌≢◌, inl, inr, refl, sym, ap, ◌∙◌, Bool, true, Option, none, some, List,
  [], ◌∷◌, update, update_here, update_other, length, All, IsDistinct, arith, Option-cases, ℕ-cases,
}
use mathlib.Core.Path.{subst}
use os_project.Xv6.Pages.{page_size}
use os_project.Xv6.Vm.{Space, pdx, ptx, walkpgdir, set_entry, set_pte}

abbrev pub entry_of : Option (ℕ × (ℕ → ℕ)) → ℕ → ℕ
entry_of none i = 0
entry_of (some t) i = t.1 i

-- The entry of an address: zero where there is no table.
abbrev pub lookup : ℕ → Space → ℕ
lookup va s = entry_of (s.dir (pdx va)) (ptx va)

abbrev pub page : ℕ → ℕ
page va = va / page_size

-- What is left of a list when some of its first elements are taken.
pub data Rest : List ℕ → List ℕ → Type 0 where
  whole : {xs : List ℕ} → Rest xs xs
  behind : {x : ℕ} {xs ys : List ℕ} → Rest xs ys → Rest (x ∷ xs) ys

pub Rest-trans : {xs ys zs : List ℕ} → Rest xs ys → Rest ys zs → Rest xs zs
Rest-trans whole k = k
Rest-trans (behind h) k = behind (Rest-trans h k)

pub Rest-All : (P : ℕ → Type 0) {xs ys : List ℕ} → Rest xs ys → All P xs → All P ys
Rest-All P whole k = k
Rest-All P (behind h) k = Rest-All P h k.1

pub Rest-IsDistinct : {xs ys : List ℕ} → Rest xs ys → IsDistinct xs → IsDistinct ys
Rest-IsDistinct whole k = k
Rest-IsDistinct (behind h) k = Rest-IsDistinct h k.1

pub pages_cons : (xs : List ℕ) → 1 ≤ length xs → (x : ℕ) × (rest : List ℕ) × (xs ≡ x ∷ rest)
pages_cons [] h = absurd (omega (arith, h))
pages_cons (x ∷ rest) h = (x, rest, refl)

-- What a call of `walkpgdir` leaves: the entries as they were, and the table of the address.
pub record Walked (va : ℕ) (s : Space) (table : ℕ → ℕ) (s₁ : Space) : Type 0 where
  pub entry : table (ptx va) ≡ lookup va s
  pub same : (b : ℕ) → lookup b s₁ ≡ lookup b s
  pub there : (t : ℕ × (ℕ → ℕ)) × (s₁.dir (pdx va) ≡ some t)
  pub enough : length s.pages ≤ length s₁.pages + 1
  pub left : Rest s.pages s₁.pages

pub walk_there :
    (alloc : Bool) (va : ℕ) (s : Space) (t : ℕ × (ℕ → ℕ))
    → s.dir (pdx va) ≡ some t
    → walkpgdir alloc va s ≡ some (t.1, s)
unfolding walkpgdir
walk_there alloc va s t e = rw (e, walkpgdir) refl

walk_new :
    (va : ℕ) (s : Space) (x : ℕ) (rest : List ℕ)
    → s.dir (pdx va) ≡ none
    → s.pages ≡ x ∷ rest
    → walkpgdir true va s
      ≡ some (λ i. 0, record { dir = update s.dir (pdx va) (some (x, λ i. 0)); pages = rest })
unfolding walkpgdir
walk_new va s x rest e p = rw (e, p, walkpgdir) refl

-- The entry of an address in a directory where one table has changed.
entry_update :
    (s : Space) (d b : ℕ) (t : Option (ℕ × (ℕ → ℕ)))
    → (pdx b ≡ d → entry_of t (ptx b) ≡ lookup b s)
    → entry_of (update s.dir d t (pdx b)) (ptx b) ≡ lookup b s
entry_update s d b t h = elim (ℕ-cases (pdx b) d) [
  | inl e ↦
      ap (λ x. entry_of (update s.dir d t x) (ptx b)) e
      ∙ ap (λ x. entry_of x (ptx b)) (update_here s.dir d t)
      ∙ h e
  | inr ne ↦ ap (λ x. entry_of x (ptx b)) (update_other s.dir d t (pdx b) ne)
]

pub walk_true :
    (va : ℕ) (s : Space)
    → 1 ≤ length s.pages
    → (table : ℕ → ℕ) × (s₁ : Space) × (walkpgdir true va s ≡ some (table, s₁))
      × Walked va s table s₁
walk_true va s h = elim (Option-cases (s.dir (pdx va))) [
  | inr (t, e) ↦ (
    t.1,
    s,
    walk_there true va s t e,
    record {
      entry = rw e refl;
      same = λ b. refl;
      there = (t, e);
      enough = omega arith;
      left = whole;
    },
  )
  | inl e ↦
      let (x, rest, p) = pages_cons s.pages h in
      let s₁ : Space = record { dir = update s.dir (pdx va) (some (x, λ i. 0)); pages = rest } in
      let fits : length s.pages ≤ length rest + 1 =
        subst (λ l. length l ≤ length rest + 1) (sym p) (omega arith) in
      (
        λ i. 0,
        s₁,
        walk_new va s x rest e p,
        record {
          entry = rw e refl;
          same = λ b. entry_update s (pdx va) b (some (x, λ i. 0)) (λ at. rw (at, e) refl);
          there = ((x, λ i. 0), update_here s.dir (pdx va) (some (x, λ i. 0)));
          enough = fits;
          left = subst (λ l. Rest l rest) (sym p) (behind whole);
        },
      )
]

pub set_pte_here :
    (a b w : ℕ) (s : Space) (t : ℕ × (ℕ → ℕ))
    → s.dir (pdx a) ≡ some t
    → page b ≡ page a
    → lookup b (set_pte a w s) ≡ w
set_pte_here a b w s t e h =
    let d : pdx b ≡ pdx a = omega (arith, h) in
    let i : ptx b ≡ ptx a = omega (arith, h) in
    rw (d, i, update_here s.dir (pdx a) (set_entry (s.dir (pdx a)) (ptx a) w), e)
      (update_here t.1 (ptx a) w)

pub set_pte_other :
    (a b w : ℕ) (s : Space) → page b ≢ page a → lookup b (set_pte a w s) ≡ lookup b s
set_pte_other a b w s h =
    entry_update s (pdx a) b (set_entry (s.dir (pdx a)) (ptx a) w)
      (λ d. kept d (s.dir (pdx a)) refl)
  where
    kept :
        (d : pdx b ≡ pdx a) (o : Option (ℕ × (ℕ → ℕ)))
        → s.dir (pdx a) ≡ o
        → entry_of (set_entry o (ptx a) w) (ptx b) ≡ lookup b s
    kept d none e = rw (d, e) refl
    kept d (some t) e =
        rw (d, e) (update_other t.1 (ptx a) w (ptx b) (λ i. h (omega (arith, d, i))))
