-- ===== src/Xv6/Pages/Runs.antt =====
-- Runs of kalloc.c: pages are given, written by their owners and freed.
use os_project.Base.{
  ℕ, ◌+◌, ◌≤◌, ◌<◌, ◌≡◌, ◌≢◌, ◌⊎◌, inl, inr, sym, ap, ◌∙◌, some, List, [], ◌∷◌, ◌++◌, arith, update,
  All, All-split, All-append, IsDistinct, IsDistinct-front,
}
use mathlib.Core.Path.{subst}
use os_project.Xv6.Pages.{page_size, Kmem, kfree, kalloc}
use os_project.Xv6.Pages.Laws.{
  IsPage, Holds, All-map, All-zip, kfree_lem, kalloc_lem, write_outside,
}

-- The allocator, and the pages that have been given and not freed.
pub record System : Type 0 where
  pub kmem : Kmem
  pub owned : List ℕ

pub data Step (end : ℕ) : System → System → Type 0 where
  give :
      (s : System) (q : ℕ) (k : Kmem)
      → kalloc s.kmem ≡ (q, k)
      → q ≢ 0
      → Step end s (record { kmem = k; owned = q ∷ s.owned })
  take_back :
      (s : System) (before after : List ℕ) (v : ℕ) (k : Kmem)
      → s.owned ≡ before ++ (v ∷ after)
      → kfree end v s.kmem ≡ some k
      → Step end s (record { kmem = k; owned = before ++ after })
  write :
      (s : System) (before after : List ℕ) (v a w : ℕ)
      → s.owned ≡ before ++ (v ∷ after)
      → (v ≤ a) × (a < v + page_size)
      → Step end s (record s { kmem = record (s.kmem) { word = update s.kmem.word a w } })

-- From a free list with some pages, of which none is owned.
pub data Reach (end : ℕ) : System → Type 0 where
  start : (s : System) (free : List ℕ) → Holds end s.kmem free → s.owned ≡ [] → Reach end s
  next : {s t : System} → Reach end s → Step end s t → Reach end t

-- The free pages and the owned ones are all different.
record Inv (end : ℕ) (s : System) : Type 0 where
  free : List ℕ
  holds : Holds end s.kmem free
  owned_pages : All (IsPage end) s.owned
  owned_distinct : IsDistinct s.owned
  apart : All (λ q. All (λ v. v ≢ q) s.owned) free

-- Two pages that differ do not overlap.
pages_apart :
    (end a v q : ℕ)
    → IsPage end v
    → (v ≤ a) × (a < v + page_size)
    → IsPage end q
    → v ≢ q
    → (a < q) ⊎ (q + page_size ≤ a)
pages_apart end a v q hv ha hq ne = ground (arith, hv, ha, hq, ne)

give-Inv :
    (end q : ℕ) (rest owned : List ℕ) (k k' : Kmem)
    → Holds end k (q ∷ rest)
    → Holds end k' rest
    → All (IsPage end) owned
    → IsDistinct owned
    → All (λ r. All (λ v. v ≢ r) owned) (q ∷ rest)
    → Inv end (record { kmem = k'; owned = q ∷ owned })
give-Inv end q rest owned k k' h h' pages distinct apart = record {
  free = rest;
  holds = h';
  owned_pages = (h.pages.0, pages);
  owned_distinct = (apart.0, distinct);
  apart = All-zip rest (λ r ne vs. (λ e. ne (sym e), vs)) h.distinct.0 apart.1;
}

All-middle :
    (P : ℕ → Type 0) (before after : List ℕ) (u : ℕ) {xs : List ℕ}
    → xs ≡ before ++ (u ∷ after)
    → All P xs
    → P u × All P (before ++ after)
All-middle P before after u at h =
    let (hb, ha) = All-split P before (u ∷ after) (subst (All P) at h) in
    (ha.0, All-append P before after hb ha.1)

take_back-Inv :
    (end u : ℕ) (before after : List ℕ) (s : System) (k : Kmem)
    → s.owned ≡ before ++ (u ∷ after)
    → kfree end u s.kmem ≡ some k
    → Inv end s
    → Inv end (record { kmem = k; owned = before ++ after })
take_back-Inv end u before after s k at e v =
    let page = All-middle (IsPage end) before after u at v.owned_pages in
    let front = IsDistinct-front before after u (subst IsDistinct at v.owned_distinct) in
    let fresh : All (λ q. q ≢ u) v.free =
      All-map v.free (λ q vs e'. (All-middle (λ w. w ≢ q) before after u at vs).0 (sym e'))
        v.apart in
    let (k', e', h) = kfree_lem end u s.kmem v.free page.0 v.holds fresh in
    let same : k' ≡ k = ground (arith, e, e') in
    record {
      free = u ∷ v.free;
      holds = subst (λ j. Holds end j (u ∷ v.free)) same h;
      owned_pages = page.1;
      owned_distinct = front.1;
      apart = (
        front.0,
        All-map v.free (λ q vs. (All-middle (λ w. w ≢ q) before after u at vs).1) v.apart,
      );
    }

Step-Inv : {end : ℕ} {s t : System} → Step end s t → Inv end s → Inv end t
Step-Inv {end} (give s q k e ne) v = elim (kalloc_lem end s.kmem v.free v.holds) [
  | inl (_, none_left) ↦ absurd (ne (ap (λ (r : ℕ × Kmem). r.0) (sym e ∙ none_left)))
  | inr (q', rest, split, _, given, h) ↦
      let both : (q', record (s.kmem) { freelist = s.kmem.word q' }) ≡ (q, k) = sym given ∙ e in
      subst (λ (r : ℕ × Kmem). Inv end (record { kmem = r.1; owned = r.0 ∷ s.owned })) both
        (give-Inv end q' rest s.owned s.kmem (record (s.kmem) { freelist = s.kmem.word q' })
          (subst (Holds end s.kmem) split v.holds) h v.owned_pages v.owned_distinct
          (subst (All (λ r. All (λ w. w ≢ r) s.owned)) split v.apart))
]
Step-Inv {end} (take_back s before after u k at e) v = take_back-Inv end u before after s k at e v
Step-Inv {end} (write s before after u a w at h) v =
    let page = (All-middle (IsPage end) before after u at v.owned_pages).0 in
    record {
      free = v.free;
      owned_pages = v.owned_pages;
      owned_distinct = v.owned_distinct;
      apart = v.apart;
      holds = write_outside end a w s.kmem v.free v.holds (
          All-zip v.free
            (λ q p vs.
              pages_apart end a u q page h p (All-middle (λ x. x ≢ q) before after u at vs).0)
            v.holds.pages v.apart);
    }

Reach-Inv : {end : ℕ} {s : System} → Reach end s → Inv end s
Reach-Inv (start s free h none_owned) = record {
  free = free;
  holds = h;
  owned_pages = rw none_owned tt;
  owned_distinct = rw none_owned tt;
  apart = rw none_owned (All-map free (λ q p. tt) h.pages);
}
Reach-Inv (next r st) = Step-Inv st (Reach-Inv r)

-- In every run, whatever the owners write into their pages, a page that is given is a page of the
-- kernel's memory and differs from all that are owned, which are such pages too and differ from each
-- other.
pub kalloc_fresh :
    {end : ℕ} {s : System} (q : ℕ) (k : Kmem)
    → Reach end s
    → kalloc s.kmem ≡ (q, k)
    → q ≢ 0
    → All (IsPage end) (q ∷ s.owned) × IsDistinct (q ∷ s.owned)
kalloc_fresh {end} {s} q k r e ne =
    let after = Step-Inv (give s q k e ne) (Reach-Inv r) in
    (after.owned_pages, after.owned_distinct)
