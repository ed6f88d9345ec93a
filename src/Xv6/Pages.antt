-- ===== src/Xv6/Pages.antt =====
-- The allocator of pages: kalloc.c of B22CS052/Helpful, without its lock. Memory is its words by address.
pub mod Laws
pub mod Runs
pub mod Range
use os_project.Base.{
  ℕ, zero, suc, ◌+◌, ◌-◌, ◌*◌, ◌/◌, ◌%◌, ◌^◌, Bool, true, false, not, ◌&&◌, ◌||◌, Option, none,
  some, ◌==◌, ltb, leb, if◌then◌else◌, update, sub32,
}
use os_project.Console.Enigma.{◌>>=◌}

abbrev pub page_size : ℕ
page_size = 4096

-- `PHYSTOP` and `KERNBASE` of memlayout.h
abbrev pub phys_stop : ℕ
phys_stop = 0xe000000

abbrev pub kern_base : ℕ
kern_base = 0x80000000

pub record Kmem : Type 0 where
  pub word : ℕ → ℕ
  pub freelist : ℕ  -- 0 is the null pointer

-- `memset(v, 1, PGSIZE)`, by words.
unfoldable pub fill_junk : ℕ → (ℕ → ℕ) → ℕ → ℕ
fill_junk v word a = if leb v a && ltb a (v + page_size) then 0x01010101 else word a

-- The page may be freed: `end` is the first address behind the kernel.
abbrev pub is_page : ℕ → ℕ → Bool
is_page end v = v % page_size == 0 && (leb end v && ltb (sub32 v kern_base) phys_stop)

-- `none` is a panic.
unfoldable pub kfree : ℕ → ℕ → Kmem → Option Kmem
unfolding fill_junk
kfree end v k =
    if is_page end v
    then some (record { word = update (fill_junk v k.word) v k.freelist; freelist = v })
    else none

unfoldable pub kalloc : Kmem → ℕ × Kmem
kalloc k = (k.freelist, if k.freelist == 0 then k else record k { freelist = k.word k.freelist })

-- The loop of `freerange` from page `p` on, with `vend`. A round frees a page, so as many rounds as
-- there are pages are enough.
unfoldable pub free_from : ℕ → ℕ → ℕ → ℕ → Kmem → Option Kmem
free_from end vend zero p k = some k
free_from end vend (suc rounds) p k = elim (leb (p + page_size) vend) [
  | true ↦ kfree end p k >>= free_from end vend rounds (p + page_size)
  | false ↦ some k
]

abbrev pub round_up : ℕ → ℕ
round_up a = (a + page_size - 1) / page_size * page_size

unfoldable pub freerange : ℕ → ℕ → ℕ → Kmem → Option Kmem
unfolding free_from
freerange end vstart vend k =
    free_from end vend ((vend - round_up vstart) / page_size) (round_up vstart) k
