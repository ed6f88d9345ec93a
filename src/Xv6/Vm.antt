-- ===== src/Xv6/Vm.antt =====
-- Page tables: vm.c of B22CS052/Helpful, with growproc of proc.c. An entry of a page directory that is
-- present is the physical address of a page table and its words; `kalloc` takes the first of the
-- free pages, which are physical addresses, and `kfree` puts one back.
pub mod Laws
pub mod Mapping
pub mod Unmapping
pub mod Growing
pub mod Allocation
mod Tests
use os_project.Base.{
  ℕ, zero, suc, ◌+◌, ◌-◌, ◌*◌, ◌/◌, ◌%◌, ◌^◌, Bool, true, false, ◌&&◌, ◌||◌, Option, none, some,
  List, [], ◌∷◌, ◌++◌, ◌==◌, ltb, leb, if◌then◌else◌, add32, sub32, is_negative, update, minus_one,
  bit_or,
}
use os_project.Xv6.Pages.{page_size, kern_base, is_page}

pub record Space : Type 0 where
  pub dir : ℕ → Option (ℕ × (ℕ → ℕ))
  pub pages : List ℕ

-- `PDX` and `PTX`
abbrev pub pdx : ℕ → ℕ
pdx va = va / 2 ^ 22

abbrev pub ptx : ℕ → ℕ
ptx va = va / 2 ^ 12 % 2 ^ 10

abbrev pub round_down : ℕ → ℕ
round_down a = a / page_size * page_size

-- `PGROUNDUP` of a `uint`
abbrev pub round_up : ℕ → ℕ
round_up a = add32 a (page_size - 1) / page_size * page_size

-- The page table of an address; a new one is all zero. `none` is the null pointer.
unfoldable pub walkpgdir : Bool → ℕ → Space → Option ((ℕ → ℕ) × Space)
walkpgdir alloc va s = elim (s.dir (pdx va)) [
  | some t ↦ some (t.1, s)
  | none ↦ elim (s.pages) [
    | [] ↦ none
    | page ∷ rest ↦
        if alloc
        then some
            (λ i. 0, record { dir = update s.dir (pdx va) (some (page, λ i. 0)); pages = rest })
        else none
  ]
]

abbrev pub set_entry : Option (ℕ × (ℕ → ℕ)) → ℕ → ℕ → Option (ℕ × (ℕ → ℕ))
set_entry none i w = none
set_entry (some t) i w = some (t.0, update t.1 i w)

-- `*pte = w` for the entry of an address whose table is there.
abbrev pub set_pte : ℕ → ℕ → Space → Space
set_pte va w s = record s { dir = update s.dir (pdx va) (set_entry (s.dir (pdx va)) (ptx va) w) }

-- `PTE_P`, `PTE_ADDR` and `PTE_FLAGS`
abbrev pub is_present : ℕ → Bool
is_present w = w % 2 == 1

abbrev pub pte_addr : ℕ → ℕ
pte_addr w = w / page_size * page_size

-- `pa | perm | PTE_P`
unfoldable pub pte_of : ℕ → ℕ → ℕ
pte_of pa perm = bit_or (bit_or pa perm) 1

-- `PTE_W | PTE_U`
abbrev pub user : ℕ
user = 6

pub data Mapped : Type 0 where
  done : Space → Mapped
  failed : Space → Mapped
  remap : Mapped

-- The loop of `mappages` from address `a` on.
unfoldable pub map_from : ℕ → ℕ → ℕ → ℕ → ℕ → Space → Mapped
map_from last perm zero a pa s = failed s
map_from last perm (suc rounds) a pa s = elim (walkpgdir true a s) [
  | none ↦ failed s
  | some (table, s₁) ↦
      let s₂ = set_pte a (pte_of pa perm) s₁ in
      let more = map_from last perm rounds (add32 a page_size) (add32 pa page_size) s₂ in
      if is_present (table (ptx a)) then remap else if a == last then done s₂ else more
]

-- One round for each page.
unfoldable pub mappages : ℕ → ℕ → ℕ → ℕ → Space → Mapped
mappages va size pa perm s =
    let a = round_down va in
    let last = round_down (sub32 (add32 va size) 1) in
    map_from last perm (sub32 last a / page_size + 1) a pa s

-- `kfree(P2V(pa))`; `end` is the first address behind the kernel, and `none` is a panic.
unfoldable pub give_back : ℕ → ℕ → Space → Option Space
give_back end pa s =
    if is_page end (add32 pa kern_base) then some (record s { pages = pa ∷ s.pages }) else none

-- The entry of `a` is cleared and its page given back; `none` is a panic.
unfoldable pub unmap_page : ℕ → ℕ → ℕ → Space → Option Space
unmap_page end a w s =
    if pte_addr w == 0
    then none
    else elim (give_back end (pte_addr w) s) [ none ↦ none | some s' ↦ some (set_pte a 0 s') ]

-- The loop of `deallocuvm` from address `a` on.
unfoldable pub unmap_from : ℕ → ℕ → ℕ → ℕ → Space → Option Space
unmap_from end oldsz zero a s = some s
unmap_from end oldsz (suc rounds) a s = elim (walkpgdir false a s) [
  | none ↦
      if ltb a oldsz
      then unmap_from end oldsz rounds
          (add32 ((pdx a + 1) * 2 ^ 22 % 2 ^ 32 + 2 ^ 32 - page_size) page_size) s
      else some s
  | some (table, s₁) ↦
      let w = table (ptx a) in
      let more = unmap_from end oldsz rounds (add32 a page_size) in
      let without : Option Space = elim (unmap_page end a w s₁) [
        | none ↦ none
        | some s₂ ↦ more s₂
      ] in
      if ltb a oldsz then (if is_present w then without else more s₁) else some s
]

-- The size that is returned; a round for each page is enough for sizes up to the kernel.
unfoldable pub deallocuvm : ℕ → ℕ → ℕ → Space → Option (ℕ × Space)
deallocuvm end oldsz newsz s =
    if leb oldsz newsz
    then some (oldsz, s)
    else elim (unmap_from end oldsz (oldsz / page_size + 1) (round_up newsz) s) [
      | none ↦ none
      | some s' ↦ some (newsz, s')
    ]

-- The failures of `allocuvm`; the page `mem` that could not be mapped, if there is one, goes back last.
unfoldable pub undo : ℕ → ℕ → ℕ → Option ℕ → Space → Option (ℕ × Space)
undo end oldsz newsz mem s = elim (deallocuvm end newsz oldsz s) [
  | none ↦ none
  | some r ↦ elim mem [
    | none ↦ some (0, r.1)
    | some pa ↦ elim (give_back end pa r.1) [ none ↦ none | some s' ↦ some (0, s') ]
  ]
]

-- The loop of `allocuvm` from address `a` on; the bytes of the pages are left out.
unfoldable pub alloc_from : ℕ → ℕ → ℕ → ℕ → ℕ → Space → Option (ℕ × Space)
alloc_from end oldsz newsz zero a s = some (newsz, s)
alloc_from end oldsz newsz (suc rounds) a s = elim (s.pages) [
  | [] ↦ if ltb a newsz then undo end oldsz newsz none s else some (newsz, s)
  | mem ∷ rest ↦
      let mapped : Option (ℕ × Space) =
        elim (mappages a page_size mem user (record s { pages = rest })) [
          | done s₁ ↦ alloc_from end oldsz newsz rounds (add32 a page_size) s₁
          | failed s₁ ↦ undo end oldsz newsz (some mem) s₁
          | remap ↦ none
        ] in
      if ltb a newsz then mapped else some (newsz, s)
]

-- The size that is returned, 0 for an error; a round for each page is enough. `none` is a panic.
unfoldable pub allocuvm : ℕ → ℕ → ℕ → Space → Option (ℕ × Space)
allocuvm end oldsz newsz s =
    if leb kern_base newsz
    then some (0, s)
    else if ltb newsz oldsz
    then some (oldsz, s)
    else alloc_from end oldsz newsz (newsz / page_size + 1) (round_up oldsz) s

-- `growproc` of proc.c on the size and the memory of the process: what it returns, and what it leaves.
unfoldable pub growproc : ℕ → ℕ → ℕ → Space → Option (ℕ × ℕ × Space)
growproc end n sz s =
    let resized =
      if is_negative n then deallocuvm end sz (add32 sz n) s else allocuvm end sz (add32 sz n) s in
    if n == 0 then some (0, sz, s) else elim resized [
      | none ↦ none
      | some (sz', s') ↦ if sz' == 0 then some (minus_one, sz, s') else some (0, sz', s')
    ]
