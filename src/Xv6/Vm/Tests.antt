-- ===== src/Xv6/Vm/Tests.antt =====
-- Page tables of vm.c on concrete spaces: tests, and the theorems at inputs that meet their hypotheses.
use os_project.Base.{◌+◌, ◌-◌, ◌≡◌, refl, none, some, [], ◌∷◌, arith}
use os_project.Xv6.Vm.{
  round_up, pte_of, Space, walkpgdir, user, Mapped, done, map_from, mappages, allocuvm,
}
use os_project.Xv6.Vm.Laws.{lookup, page}
use os_project.Xv6.Vm.Mapping.{Maps, mappages-Maps}
use os_project.Xv6.Vm.Allocation.{Grown, allocuvm-Grown}

-- Nothing is mapped, and four pages are free.
abbrev empty : Space
empty = record { dir = λ i. none; pages = 0x1000 ∷ 0x2000 ∷ 0x3000 ∷ 0x4000 ∷ [] }

-- Every page is mapped to one page.
abbrev full : Space
full = record { dir = λ i. some (0x9000, λ j. 0x300007); pages = [] }

abbrev after : Mapped → Space
after (done s) = s
after _ = empty

second_page : lookup 0x1234 (after (mappages 0x0800 0x1000 0x7000 user empty)) ≡ 0x8007
unfolding mappages map_from walkpgdir pte_of
second_page = refl

mappages-Maps_example :
    (s' : Space) × (mappages 0x0800 0x1000 0x7000 user empty ≡ done s')
    × Maps (page 0x0800) (page (0x0800 + 0x1000 - 1) - page 0x0800 + 1) 0x7000 user empty s'
mappages-Maps_example =
    mappages-Maps 0x0800 0x1000 0x7000 user empty (omega arith) (omega arith) (omega arith)
      (omega arith) (λ b i j. refl)

allocuvm-Grown_example :
    (s' : Space) × (allocuvm 0x80300000 0x0010 0x1800 empty ≡ some (0x1800, s'))
    × Grown (page (round_up 0x0010)) 0x1800 empty.pages empty s'
allocuvm-Grown_example =
    allocuvm-Grown 0x80300000 0x0010 0x1800 empty (omega arith) (omega arith) (omega arith)
      (
        (omega arith, omega arith),
        (
          (omega arith, omega arith),
          ((omega arith, omega arith), ((omega arith, omega arith), tt)),
        ),
      )
      (
        (omega arith, (omega arith, (omega arith, tt))),
        ((omega arith, (omega arith, tt)), ((omega arith, tt), (tt, tt))),
      )
      (λ b i j. refl)
