-- ===== src/Xv6/Pages/Range.antt =====
-- `freerange` of kalloc.c.
use os_project.Base.{
  ℕ, zero, suc, ◌+◌, ◌-◌, ◌*◌, ◌/◌, ◌%◌, ◌≤◌, ◌<◌, ◌≡◌, refl, true, some, List, ◌∷◌, leb, arith,
  All,
}
use os_project.Console.Enigma.{◌>>=◌}
use os_project.Xv6.Pages.{
  page_size, phys_stop, kern_base, Kmem, kfree, free_from, round_up, freerange,
}
use os_project.Xv6.Pages.Laws.{IsPage, Holds, All-map, kfree_lem}

-- The list behind the free pages once `count` pages from `p` on have been freed.
abbrev freed : ℕ → ℕ → List ℕ → List ℕ
freed zero p free = free
freed (suc count) p free = freed count (p + page_size) (p ∷ free)

free_from_step :
    (end vend rounds p : ℕ) (k k₁ k₂ : Kmem)
    → leb (p + page_size) vend ≡ true
    → kfree end p k ≡ some k₁
    → free_from end vend rounds (p + page_size) k₁ ≡ some k₂
    → free_from end vend (suc rounds) p k ≡ some k₂
unfolding free_from
free_from_step end vend rounds p k k₁ k₂ more e₁ e₂ = rw (more, free_from, e₁, ◌>>=◌) e₂

free_from_lem :
    (end vend rounds p : ℕ) (k : Kmem) (free : List ℕ)
    → Holds end k free
    → All (λ q. q < p) free
    → (p % page_size ≡ 0) × (end ≤ p) × (kern_base ≤ p)
    → p + rounds * page_size ≤ vend
    → vend ≤ kern_base + phys_stop
    → (k' : Kmem) × (free_from end vend rounds p k ≡ some k') × Holds end k' (freed rounds p free)
unfolding free_from
free_from_lem end vend zero p k free h below page fits top = (k, refl, h)
free_from_lem end vend (suc rounds) p k free h below page fits top =
    let is_page : IsPage end p = ground (arith, page, fits, top) in
    let (k₁, e₁, h₁) =
      kfree_lem end p k free is_page h (All-map free (λ q l e. omega (arith, l, e)) below) in
    let below' : All (λ q. q < p + page_size) (p ∷ free) =
      (omega arith, All-map free (λ q l. omega (arith, l)) below) in
    let (k₂, e₂, h₂) =
      free_from_lem end vend rounds (p + page_size) k₁ (p ∷ free) h₁ below' (ground (arith, page))
        (omega (arith, fits)) top in
    let more : leb (p + page_size) vend ≡ true = ground (arith, fits) in
    (k₂, free_from_step end vend rounds p k k₁ k₂ more e₁ e₂, h₂)

-- A range of the kernel's memory above all free pages is freed without a panic: the free list then
-- holds every whole page of the range, each once, the last one first, and behind them the pages that
-- it held before.
freerange_lem :
    (end vstart vend : ℕ) (k : Kmem) (free : List ℕ)
    → Holds end k free
    → All (λ q. q < round_up vstart) free
    → (end ≤ round_up vstart) × (kern_base ≤ round_up vstart)
    → (round_up vstart ≤ vend) × (vend ≤ kern_base + phys_stop)
    → (k' : Kmem) × (freerange end vstart vend k ≡ some k')
      × Holds end k' (freed ((vend - round_up vstart) / page_size) (round_up vstart) free)
unfolding freerange
freerange_lem end vstart vend k free h below low high =
    free_from_lem end vend ((vend - round_up vstart) / page_size) (round_up vstart) k free h below
      (omega arith, low.0, low.1) (omega (arith, high)) high.1
