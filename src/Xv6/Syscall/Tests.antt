-- ===== src/Xv6/Syscall/Tests.antt =====
-- Arguments of system calls of a concrete process: tests, and the theorems at inputs that meet their hypotheses.
use os_project.Base.{ℕ, ◌+◌, ◌^◌, ◌≤◌, ◌<◌, ◌≡◌, ◌≢◌, refl, none, some, arith, get_or, [], ◌∷◌}
use mathlib.Core.Logic.{◌↔◌}
use os_project.Xv6.Syscall.{Process, int_at, fetchint, find_nul, fetchstr, argint, argptr, argstr}
use os_project.Xv6.Syscall.Laws.{slot, argptr_iff, argstr_iff}

-- The return address, the argument 20, and a string of two bytes at 20.
abbrev process : Process
process = record {
  sz = 24;
  esp = 8;
  mem = λ a.
      get_or
        (0 ∷ 0 ∷ 0 ∷ 0 ∷ 0 ∷ 0 ∷ 0 ∷ 0 ∷ 1 ∷ 0 ∷ 0 ∷ 0 ∷ 20 ∷ 0 ∷ 0 ∷ 0 ∷ 0 ∷ 0 ∷ 0 ∷ 0 ∷ b'h'
          ∷ b'i' ∷ [])
        a 0;
}

fits : argptr 0 4 process ≡ some 20
unfolding argptr argint fetchint
fits = refl

too_long : argptr 0 5 process ≡ none
unfolding argptr argint fetchint
too_long = refl

hi : argstr 0 process ≡ some (20, 2)
unfolding argstr argint fetchint fetchstr find_nul
hi = refl

argptr_iff_example : (argptr 0 4 process ≡ some 20) ↔ (
    (slot 0 process + 4 ≤ 24)
    × (int_at process.mem (slot 0 process) ≡ 20)
    × (20 < 24)
    × (20 + 4 ≤ 24)
    × (4 < 2 ^ 31))
argptr_iff_example = argptr_iff 0 4 20 process (omega arith) (omega arith)

argstr_iff_example : (argstr 0 process ≡ some (20, 2)) ↔ (
    (slot 0 process + 4 ≤ 24)
    × (int_at process.mem (slot 0 process) ≡ 20)
    × (20 + 2 < 24)
    × (process.mem (20 + 2) ≡ 0)
    × ((i : ℕ) → i < 2 → process.mem (20 + i) ≢ 0))
argstr_iff_example = argstr_iff 0 20 2 process (omega arith)
