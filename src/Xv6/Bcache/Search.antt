-- ===== src/Xv6/Bcache/Search.antt =====
-- The searches of `bget` and the list of bio.c.
use os_project.Base.{
  ℕ, ◌≡◌, ◌≢◌, inl, inr, sym, ap, ◌∙◌, Bool, true, false, not, ◌&&◌, ◌||◌, none, some, List, [],
  ◌∷◌, ◌==◌, if◌then◌else◌, arith, ℕ-cases, Option-cases,
}
use os_project.Xv6.Bcache.{Buf, is_block, find_cached, is_unused, find_unused, unlink}

abbrev pub has : ℕ → List ℕ → Bool
has s [] = false
has s (t ∷ ts) = t == s || has s ts

pub find_cached_lem :
    (dev blockno : ℕ) (buf : ℕ → Buf) (ss : List ℕ) (s : ℕ)
    → find_cached dev blockno buf ss ≡ some s
    → (has s ss ≡ true) × ((buf s).dev ≡ dev) × ((buf s).blockno ≡ blockno)
unfolding find_cached is_block
find_cached_lem dev blockno buf [] s e = absurd (ground (arith, e))
find_cached_lem dev blockno buf (t ∷ ts) s e =
    ground (arith, e, find_cached_lem dev blockno buf ts s)

pub find_cached-none :
    (dev blockno : ℕ) (buf : ℕ → Buf) (ss : List ℕ) (s : ℕ)
    → find_cached dev blockno buf ss ≡ none
    → has s ss ≡ true
    → (buf s).dev ≡ dev
    → (buf s).blockno ≢ blockno
unfolding find_cached is_block
find_cached-none dev blockno buf [] s e h d b = absurd (ground (arith, h))
find_cached-none dev blockno buf (t ∷ ts) s e h d b =
    let later : find_cached dev blockno buf ts ≡ none = ground (arith, e) in
    elim (ℕ-cases t s) [
      | inl same ↦
          let d' : (buf t).dev ≡ dev = ap (λ i. (buf i).dev) same ∙ d in
          let b' : (buf t).blockno ≡ blockno = ap (λ i. (buf i).blockno) same ∙ b in
          ground (arith, e, d', b')
      | inr ne ↦ find_cached-none dev blockno buf ts s later (ground (arith, h, ne)) d b
    ]

pub find_unused_lem :
    (buf : ℕ → Buf) (ss : List ℕ) (s : ℕ)
    → find_unused buf ss ≡ some s
    → (has s ss ≡ true) × ((buf s).refcnt ≡ 0)
unfolding find_unused is_unused
find_unused_lem buf [] s e = absurd (ground (arith, e))
find_unused_lem buf (t ∷ ts) s e = elim (Option-cases (find_unused buf ts)) [
  | inl none_later ↦
      let found : (if (buf t).refcnt == 0 && not (buf t).dirty then some t else none) ≡ some s =
        rw none_later at e in
      let same : t ≡ s = ground (arith, found) in
      let free : (buf t).refcnt ≡ 0 = ground (arith, found) in
      (ground (arith, same), sym (ap (λ i. (buf i).refcnt) same) ∙ free)
  | inr (u, later) ↦
      let found : some u ≡ some s = rw later at e in
      let (h, free) = find_unused_lem buf ts s (later ∙ found) in (ground (arith, h), free)
]

pub unlink-has : (s t : ℕ) (ss : List ℕ) → has t ss ≡ true → has t (s ∷ unlink s ss) ≡ true
unfolding unlink
unlink-has s t [] h = absurd (ground (arith, h))
unlink-has s t (r ∷ rs) h = ground (arith, h, unlink-has s t rs)

pub unlink-kept : (s t : ℕ) (ss : List ℕ) → has t (unlink s ss) ≡ true → has t ss ≡ true
unfolding unlink
unlink-kept s t [] h = h
unlink-kept s t (r ∷ rs) h = ground (arith, h, unlink-kept s t rs)

pub has-unlink :
    (s t : ℕ) (ss : List ℕ) → has t (s ∷ unlink s ss) ≡ true → has s ss ≡ true → has t ss ≡ true
has-unlink s t ss h l = elim (ℕ-cases s t) [
  | inl same ↦ rw (sym same) l
  | inr ne ↦ unlink-kept s t ss (ground (arith, h, ne))
]
