-- ===== src/Keyboard/Helpful/Codes.antt =====
-- The codes of `kbdgetc` in B22CS052/Helpful/kbd.c, which `consoleintr` tells apart by value.
use os_project.Base.{ℕ, ◌≤◌, ◌<◌, ◌≡◌, ◌⊎◌, refl, true, false, arith, minus_one}
use os_project.Keyboard.Helpful.{
  Driver, Outcome, done, go_on, commands, mode_keys, decode, note_blank, case_code, finish,
  devil_code, translate, complete, kbdgetc,
}
use os_project.Keyboard.Dvorak.{to_dvorak}
use os_project.Keyboard.Dvorak.Laws.{to_dvorak_range}
use os_project.Keyboard.Modifiers.{Port, press_key, charcode, swap_case, has_data}
use os_project.Keyboard.Modifiers.Bounds.{charcode-lt, normalmap-lt, swap_case-lt, raise_case-lt}

-- A plain character, an encrypted one, one of the devil mode, or one of the five commands.
abbrev pub IsCode : Driver → ℕ → Type 0
IsCode d c =
    (c < 256)
    ⊎ ((1000 ≤ c) × (c < 1256) × (d.encryption_mode ≡ true) × (d.devil_mode ≡ false))
    ⊎ ((2000 ≤ c) × (c < 2256) × ((d.devil_mode ≡ true) ⊎ (c ≡ 2000)))
    ⊎ ((2500 ≤ c) × (c ≤ 2504))

to_dvorak-lt : (c : ℕ) → c < 256 → to_dvorak c < 256
unfolding to_dvorak
to_dvorak-lt c h = ground (arith, to_dvorak_range c)

case_code-lt : (c : ℕ) (d : Driver) → c < 256 → case_code c d < 256
unfolding case_code
case_code-lt c d h = ground (arith, swap_case-lt c h)

note_blank-lt : (c : ℕ) (d : Driver) → c < 256 → (note_blank c d).0 < 256
unfolding note_blank
note_blank-lt c d h = ground arith

finish-lt : (c : ℕ) (d : Driver) → c < 256 → finish c d < 256
unfolding finish
finish-lt c d h = ground (
  arith,
  to_dvorak-lt c h,
  swap_case-lt c h,
  swap_case-lt (to_dvorak c),
  raise_case-lt c h,
  raise_case-lt (to_dvorak c),
  raise_case-lt (swap_case c),
  raise_case-lt (swap_case (to_dvorak c)),
)

devil_code_bounds :
    (key : ℕ) (d : Driver)
    → key < 256
    → (devil_code key d < 256) ⊎ ((2000 ≤ devil_code key d) × (devil_code key d < 2256))
unfolding devil_code swap_case
devil_code_bounds key d h = ground (arith, normalmap-lt key h)

plain-lt :
    (c : ℕ) (d : Driver)
    → c < 256
    → finish (note_blank (case_code c d) d).0 (note_blank (case_code c d) d).1 < 256
plain-lt c d h = finish-lt _ _ (note_blank-lt _ d (case_code-lt c d h))

note_blank-modes :
    (c : ℕ) (d : Driver)
    → ((note_blank c d).1.devil_mode ≡ d.devil_mode)
      × ((note_blank c d).1.encryption_mode ≡ d.encryption_mode)
unfolding note_blank
note_blank-modes c d = (refl, refl)

translate-IsCode :
    (key : ℕ) (d : Driver) → key < 256 → IsCode (translate key d).1 (translate key d).0
unfolding translate
translate-IsCode key d₀ h =
    let d : Driver = record d₀ { mods = press_key key d₀.mods } in
    let c : ℕ = charcode d.mods key in
    ground (
      arith,
      charcode-lt d.mods key h,
      devil_code_bounds key d h,
      plain-lt c d,
      note_blank-modes (case_code c d) d,
    )

-- What `complete` needs of an outcome.
abbrev IsGood : Outcome → Type 0
IsGood (done c d) = IsCode d c
IsGood (go_on key d) = key < 256

commands-IsGood : (now key : ℕ) (d : Driver) → key < 256 → IsGood (commands now key d)
unfolding commands
commands-IsGood now key d h = ground arith

mode_keys-IsGood : (now key : ℕ) (d : Driver) → key < 256 → IsGood (mode_keys now key d)
unfolding mode_keys
mode_keys-IsGood now key d h = ground (arith, commands-IsGood now key d h)

decode-IsGood : (now byte : ℕ) (d : Driver) → byte < 256 → IsGood (decode now byte d)
unfolding decode
decode-IsGood now byte d h = ground (arith, mode_keys-IsGood now byte d h)

complete-IsCode : (o : Outcome) → IsGood o → IsCode (complete o).1 (complete o).0
unfolding complete
complete-IsCode (done c d) h = h
complete-IsCode (go_on key d) h = translate-IsCode key d h

-- A read of the ports gives -1 and changes nothing if the controller holds no byte; if it holds
-- one, the code is in one of the four ranges, and a code of the encryption or of the devil mode
-- comes only in that mode (2000 also on leaving the devil mode).
pub kbdgetc_codes :
    (p : Port) (d : Driver)
    → p.byte < 256
    → ((has_data p ≡ false) × (kbdgetc p d ≡ (minus_one, d)))
      ⊎ ((has_data p ≡ true) × IsCode (kbdgetc p d).1 (kbdgetc p d).0)
unfolding kbdgetc
kbdgetc_codes p d h =
    ground (arith, complete-IsCode (decode p.ticks p.byte d) (decode-IsGood p.ticks p.byte d h))
