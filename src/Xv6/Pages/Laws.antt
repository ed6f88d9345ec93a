-- ===== src/Xv6/Pages/Laws.antt =====
-- The free list of kalloc.c as a list of pages.
use os_project.Base.{
  ℕ, ◌+◌, ◌%◌, ◌≤◌, ◌<◌, ◌≡◌, ◌≢◌, ◌⊎◌, inl, inr, refl, some, List, [], ◌∷◌, arith, update, All,
  IsDistinct,
}
use mathlib.Core.Path.{subst}
use os_project.Xv6.Pages.{page_size, phys_stop, kern_base, Kmem, fill_junk, kfree, kalloc}

-- The pointers lead through the pages in order, to the null pointer.
abbrev pub Chain : (ℕ → ℕ) → ℕ → List ℕ → Type 0
Chain word p [] = p ≡ 0
Chain word p (q ∷ qs) = (p ≡ q) × Chain word (word q) qs

-- An address of a page that the kernel may give out.
abbrev pub IsPage : ℕ → ℕ → Type 0
IsPage end v = (v % page_size ≡ 0) × (end ≤ v) × (kern_base ≤ v) × (v < kern_base + phys_stop)

-- The list holds the pages `free`, each once.
pub record Holds (end : ℕ) (k : Kmem) (free : List ℕ) : Type 0 where
  pub chain : Chain k.word k.freelist free
  pub pages : All (IsPage end) free
  pub distinct : IsDistinct free

-- Words outside the first of each page do not matter.
pub Chain-cong :
    (word word' : ℕ → ℕ) (p : ℕ) (qs : List ℕ)
    → All (λ q. word q ≡ word' q) qs
    → Chain word p qs
    → Chain word' p qs
Chain-cong word word' p [] h c = c
Chain-cong word word' p (q ∷ qs) h c =
    (c.0, subst (λ a. Chain word' a qs) h.0 (Chain-cong word word' (word q) qs h.1 c.1))

pub All-map : {P Q : ℕ → Type 0} (xs : List ℕ) → ((x : ℕ) → P x → Q x) → All P xs → All Q xs
All-map [] f h = tt
All-map (x ∷ xs) f h = (f x h.0, All-map xs f h.1)

pub All-zip :
    {P Q R : ℕ → Type 0} (xs : List ℕ)
    → ((x : ℕ) → P x → Q x → R x)
    → All P xs
    → All Q xs
    → All R xs
All-zip [] f h k = tt
All-zip (x ∷ xs) f h k = (f x h.0 k.0, All-zip xs f h.1 k.1)

-- A page that is freed comes to the front of the list.
pub kfree_lem :
    (end v : ℕ) (k : Kmem) (free : List ℕ)
    → IsPage end v
    → Holds end k free
    → All (λ q. q ≢ v) free
    → (k' : Kmem) × (kfree end v k ≡ some k') × Holds end k' (v ∷ free)
unfolding kfree
kfree_lem end v k free page h apart = (
  record { word = update (fill_junk v k.word) v k.freelist; freelist = v },
  ground (arith, page),
  record {
    chain = (
      refl,
      subst (λ a. Chain (update (fill_junk v k.word) v k.freelist) a free) first
          (Chain-cong k.word (update (fill_junk v k.word) v k.freelist) k.freelist free
            (All-zip free (λ q p ne. ground (arith, p, ne, page)) h.pages apart) h.chain),
    );
    pages = (page, h.pages);
    distinct = (apart, h.distinct);
  },
)
  where
    first : k.freelist ≡ update (fill_junk v k.word) v k.freelist v
    first = ground arith

-- A page that is given comes from the front of the list; none is given if the list is empty.
pub kalloc_lem :
    (end : ℕ) (k : Kmem) (free : List ℕ)
    → Holds end k free
    → ((free ≡ []) × (kalloc k ≡ (0, k)))
      ⊎ ((q : ℕ) × (rest : List ℕ) × (free ≡ q ∷ rest)
          × (q ≢ 0)
          × (kalloc k ≡ (q, record k { freelist = k.word q }))
          × Holds end (record k { freelist = k.word q }) rest)
unfolding kalloc
kalloc_lem end k [] h = inl (refl, ground (arith, h.chain))
kalloc_lem end k (q ∷ rest) h =
    let some_page : q ≢ 0 = omega (arith, h.pages.0) in
    inr (
      q,
      rest,
      refl,
      some_page,
      ground (arith, h.chain.0, some_page),
      record { chain = h.chain.1; pages = h.pages.1; distinct = h.distinct.1 },
    )

-- A word that is written outside the free pages leaves the list as it is.
pub write_outside :
    (end a w : ℕ) (k : Kmem) (free : List ℕ)
    → Holds end k free
    → All (λ q. (a < q) ⊎ (q + page_size ≤ a)) free
    → Holds end (record k { word = update k.word a w }) free
write_outside end a w k free h apart = record {
  chain =
      Chain-cong k.word (update k.word a w) k.freelist free
        (All-map free (λ q o. ground (arith, o)) apart) h.chain;
  pages = h.pages;
  distinct = h.distinct;
}
