-- ===== src/Xv6/Syscall.antt =====
-- The arguments of system calls: syscall.c of B22CS052/Helpful. A process is the size of its memory,
-- its stack pointer and its bytes by address; `none` is the return value -1.
pub mod Laws
mod Tests
use os_project.Base.{
  ℕ, zero, suc, ◌+◌, ◌-◌, ◌*◌, ◌%◌, ◌^◌, Bool, ◌&&◌, ◌||◌, Option, none, some, ◌==◌, ltb, leb,
  if◌then◌else◌, add32, is_negative,
}

pub record Process : Type 0 where
  pub sz : ℕ
  pub esp : ℕ
  pub mem : ℕ → ℕ

-- The `int` at an address, its lowest byte first.
abbrev pub int_at : (ℕ → ℕ) → ℕ → ℕ
int_at mem a = mem a + mem (a + 1) * 2 ^ 8 + mem (a + 2) * 2 ^ 16 + mem (a + 3) * 2 ^ 24

unfoldable pub fetchint : ℕ → Process → Option ℕ
fetchint addr p =
    if leb p.sz addr || ltb p.sz (add32 addr 4) then none else some (int_at p.mem addr)

-- The loop of `fetchstr`: the length of the string, with the bytes counted so far.
unfoldable pub find_nul : ℕ → ℕ → ℕ → (ℕ → ℕ) → Option ℕ
find_nul addr zero len mem = none
find_nul addr (suc rounds) len mem =
    let later = find_nul addr rounds (len + 1) mem in
    if mem (addr + len) == 0 then some len else later

-- The pointer and the length.
unfoldable pub fetchstr : ℕ → Process → Option (ℕ × ℕ)
fetchstr addr p =
    if leb p.sz addr
    then none
    else elim (find_nul addr (p.sz - addr) 0 p.mem) [ none ↦ none | some len ↦ some (addr, len) ]

unfoldable pub argint : ℕ → Process → Option ℕ
argint n p = fetchint (add32 (add32 p.esp 4) (4 * n % 2 ^ 32)) p

-- `size` is an `int` by its pattern.
unfoldable pub argptr : ℕ → ℕ → Process → Option ℕ
argptr n size p = elim (argint n p) [
  | none ↦ none
  | some i ↦ if is_negative size || (leb p.sz i || ltb p.sz (add32 i size)) then none else some i
]

unfoldable pub argstr : ℕ → Process → Option (ℕ × ℕ)
argstr n p = elim (argint n p) [ none ↦ none | some addr ↦ fetchstr addr p ]
