-- ===== src/Xv6/Syscall/Laws.antt =====
-- What syscall.c accepts as an argument stands inside the memory of the process.
use os_project.Base.{
  ℕ, zero, suc, ◌+◌, ◌-◌, ◌*◌, ◌%◌, ◌^◌, ◌≤◌, ◌<◌, ◌≡◌, ◌≢◌, inl, inr, refl, sym, ap, ◌∙◌, true,
  false, ◌||◌, some, ◌==◌, ltb, leb, add32, is_negative, arith, Bool-cases, Option-cases, ℕ-cases,
}
use mathlib.Core.Logic.{◌↔◌}
use os_project.Xv6.Pages.{kern_base}
use os_project.Xv6.Syscall.{Process, int_at, fetchint, find_nul, fetchstr, argint, argptr, argstr}

-- The address of argument `n`.
abbrev pub slot : ℕ → Process → ℕ
slot n p = (p.esp + 4 + 4 * n) % 2 ^ 32

-- The address that `argint` computes.
slot_lem : (n : ℕ) (p : Process) → add32 (add32 p.esp 4) (4 * n % 2 ^ 32) ≡ slot n p
slot_lem n p = omega arith

fetchint_iff :
    (addr w : ℕ) (p : Process)
    → p.sz ≤ kern_base
    → (fetchint addr p ≡ some w) ↔ ((addr + 4 ≤ p.sz) × (int_at p.mem addr ≡ w))
unfolding fetchint
fetchint_iff addr w p k = elim (Bool-cases (leb p.sz addr || ltb p.sz (add32 addr 4))) [
  | inl out ↦ (λ e. absurd (ground (arith, e, out)), λ h. absurd (ground (arith, h.0, out, k)))
  | inr fits ↦ (
    λ e. (ground (arith, fits, k), ground (arith, e, fits)),
    λ h. rw (fits, fetchint) (ap some h.1),
  )
]

-- An argument is read exactly when its four bytes stand inside the memory of the process.
argint_iff :
    (n w : ℕ) (p : Process)
    → p.sz ≤ kern_base
    → (argint n p ≡ some w) ↔ ((slot n p + 4 ≤ p.sz) × (int_at p.mem (slot n p) ≡ w))
unfolding argint
argint_iff n w p k = rw (slot_lem n p) (fetchint_iff (slot n p) w p k)

-- A process cannot give the kernel a block that is not its own: for a process below the kernel, `argptr`
-- gives a pointer exactly when the argument stands in its memory and the whole block does, with no wrap-around.
pub argptr_iff :
    (n size a : ℕ) (p : Process)
    → p.sz ≤ kern_base
    → size < 2 ^ 32
    → (argptr n size p ≡ some a) ↔ (
        (slot n p + 4 ≤ p.sz)
        × (int_at p.mem (slot n p) ≡ a)
        × (a < p.sz)
        × (a + size ≤ p.sz)
        × (size < 2 ^ 31))
unfolding argptr
argptr_iff n size a p k l = elim (Option-cases (argint n p)) [
  | inl none_there ↦ (
    λ e. absurd (ground (arith, e, none_there)),
    λ h. absurd (ground (arith, none_there, (argint_iff n a p k).1 (h.0, h.1))),
  )
  | inr (i, e) ↦
      let at = (argint_iff n i p k).0 e in
      elim (Bool-cases (is_negative size || (leb p.sz i || ltb p.sz (add32 i size)))) [
        | inl out ↦
            (λ x. absurd (ground (arith, x, e, out)), λ h. absurd (ground (arith, out, at.1, h, k)))
        | inr fits ↦ (
          λ x.
              let same : i ≡ a = ground (arith, x, e, fits) in
              (
                at.0,
                at.1 ∙ same,
                ground (arith, same, fits),
                ground (arith, same, fits, k),
                ground (arith, fits),
              ),
          λ h. rw (e, fits, argptr) (ap some (sym at.1 ∙ h.1)),
        )
      ]
]

-- The first zero byte from `addr + len` on, within `rounds` bytes.
abbrev IsEnd : ℕ → ℕ → ℕ → (ℕ → ℕ) → ℕ → Type 0
IsEnd addr rounds len mem m =
    (len ≤ m)
    × (m < len + rounds)
    × (mem (addr + m) ≡ 0)
    × ((k : ℕ) → len ≤ k → k < m → mem (addr + k) ≢ 0)

IsEnd-later :
    (addr rounds len : ℕ) (mem : ℕ → ℕ) (m : ℕ)
    → mem (addr + len) ≢ 0
    → IsEnd addr rounds (len + 1) mem m ↔ IsEnd addr (suc rounds) len mem m
IsEnd-later addr rounds len mem m ne = (
  λ h. (
    omega (arith, h.0),
    omega (arith, h.1),
    h.2,
    λ k l u. elim (ℕ-cases k len) [ inl e ↦ rw e ne | inr out ↦ h.3 k (omega (arith, l, out)) u ],
  ),
  λ h. (
    elim (ℕ-cases m len) [
      | inl e ↦ absurd (ne (sym (ap (λ x. mem (addr + x)) e) ∙ h.2))
      | inr out ↦ omega (arith, h.0, out)
    ],
    omega (arith, h.1),
    h.2,
    λ k l u. h.3 k (omega (arith, l)) u,
  ),
)

find_nul_iff :
    (addr rounds len : ℕ) (mem : ℕ → ℕ) (m : ℕ)
    → (find_nul addr rounds len mem ≡ some m) ↔ IsEnd addr rounds len mem m
unfolding find_nul
find_nul_iff addr zero len mem m =
    (λ e. absurd (ground (arith, e)), λ h. absurd (omega (arith, h.0, h.1)))
find_nul_iff addr (suc rounds) len mem m = elim (ℕ-cases (mem (addr + len)) 0) [
  | inl z ↦
      let test : (mem (addr + len) == 0) ≡ true = ground (arith, z) in
      (
        λ e.
            let same : len ≡ m = ground (arith, e, test) in
            rw (sym same) (omega arith, omega arith, z, λ k l u. absurd (omega (arith, l, u))),
        λ h. elim (ℕ-cases len m) [
          | inl e ↦ rw (test, find_nul) (ap some e)
          | inr out ↦ absurd (h.3 len (omega arith) (omega (arith, h.0, out)) z)
        ],
      )
  | inr ne ↦
      let test : (mem (addr + len) == 0) ≡ false = ground (arith, ne) in
      let ih = find_nul_iff addr rounds (len + 1) mem m in
      let step = IsEnd-later addr rounds len mem m ne in
      (λ e. step.0 (ih.0 (ground (arith, e, test))), λ h. rw (test, find_nul) (ih.1 (step.1 h)))
]

-- The bytes of a string of length `len` at `a`, with its NUL, inside the memory of the process.
abbrev IsString : ℕ → ℕ → Process → Type 0
IsString a len p =
    (a + len < p.sz) × (p.mem (a + len) ≡ 0) × ((i : ℕ) → i < len → p.mem (a + i) ≢ 0)

fetchstr_iff : (a len : ℕ) (p : Process) → (fetchstr a p ≡ some (a, len)) ↔ IsString a len p
unfolding fetchstr
fetchstr_iff a len p =
    let ends = find_nul_iff a (p.sz - a) 0 p.mem len in
    elim (Bool-cases (leb p.sz a)) [
      | inl out ↦ (λ x. absurd (ground (arith, x, out)), λ h. absurd (ground (arith, out, h.0)))
      | inr fits ↦ (
        λ x. elim (Option-cases (find_nul a (p.sz - a) 0 p.mem)) [
          | inl no_end ↦ absurd (ground (arith, x, fits, no_end))
          | inr (m, found) ↦
              let same : m ≡ len = ground (arith, x, fits, found) in
              let h = ends.0 (found ∙ ap some same) in
              (ground (arith, h.1, fits), h.2, λ i l. h.3 i (omega arith) l)
        ],
        λ h.
            rw (fits, ends.1 (omega arith, omega (arith, h.0), h.1, λ i l u. h.2 i u), fetchstr)
              refl,
      )
    ]

fetchstr_same : (i a len : ℕ) (p : Process) → fetchstr i p ≡ some (a, len) → i ≡ a
unfolding fetchstr
fetchstr_same i a len p x = elim (Bool-cases (leb p.sz i)) [
  | inl out ↦ absurd (ground (arith, x, out))
  | inr fits ↦ elim (Option-cases (find_nul i (p.sz - i) 0 p.mem)) [
    | inl no_end ↦ absurd (ground (arith, x, fits, no_end))
    | inr (m, found) ↦ ground (arith, x, fits, found)
  ]
]

-- The string that `argstr` gives is inside the memory of the process with its NUL, and its length is the
-- distance to its first NUL; for a process below the kernel every such argument is accepted.
pub argstr_iff :
    (n a len : ℕ) (p : Process)
    → p.sz ≤ kern_base
    → (argstr n p ≡ some (a, len)) ↔ (
        (slot n p + 4 ≤ p.sz)
        × (int_at p.mem (slot n p) ≡ a)
        × (a + len < p.sz)
        × (p.mem (a + len) ≡ 0)
        × ((i : ℕ) → i < len → p.mem (a + i) ≢ 0))
unfolding argstr
argstr_iff n a len p k = elim (Option-cases (argint n p)) [
  | inl none_there ↦ (
    λ e. absurd (ground (arith, e, none_there)),
    λ h. absurd (ground (arith, none_there, (argint_iff n a p k).1 (h.0, h.1))),
  )
  | inr (i, e) ↦
      let at = (argint_iff n i p k).0 e in
      (
        λ x.
            let found : fetchstr i p ≡ some (a, len) = ground (arith, x, e) in
            let same = fetchstr_same i a len p found in
            let h = (fetchstr_iff a len p).0 (ap (λ j. fetchstr j p) (sym same) ∙ found) in
            (at.0, at.1 ∙ same, h.0, h.1, h.2),
        λ h. rw (e, argstr, sym at.1 ∙ h.1) ((fetchstr_iff a len p).1 (h.2, h.3, h.4)),
      )
]
