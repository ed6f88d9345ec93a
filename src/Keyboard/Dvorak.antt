-- ===== src/Keyboard/Dvorak.antt =====
-- The driver with a Dvorak layout, B22CS039/kbd.c (and, the same text,
-- B22CS039/Modified_Keyboard_Driver/QWERTY_Dvorak_kbd.c).
pub mod Laws
use os_project.Base.{
  ℕ, ◌+◌, ◌%◌, Bool, true, false, not, ◌&&◌, List, [], ◌∷◌, ◌++◌, ◌==◌, ltb, leb, if◌then◌else◌,
  minus_one, newline, codes,
}
use os_project.Keyboard.Keymap.{qwerty_to_dvorak_char}
use os_project.Keyboard.Modifiers.{
  Modifiers, Port, has_data, is_release, release_key, press_key, charcode, swap_case,
}

-- `if (c >= 0x20 && c < 0x7F)`, then the entry of the table unless it is 0.
unfoldable pub to_dvorak : ℕ → ℕ
to_dvorak c =
    if leb 0x20 c && ltb c 0x7f
    then (if qwerty_to_dvorak_char c == 0 then c else qwerty_to_dvorak_char c)
    else c

pub record Driver : Type 0 where
  pub mods : Modifiers
  pub is_dvorak : Bool

unfoldable pub press : ℕ → Driver → ℕ × Driver
press key d =
    let m = press_key key d.mods in
    let c = charcode m key in
    let c' = if d.is_dvorak then to_dvorak c else c in
    (if m.capslock then swap_case c' else c', record d { mods = m })

unfoldable pub scan : ℕ → Driver → ℕ × Driver
scan byte d =
    if byte == 0xe0
    then (0, record d { mods = record (d.mods) { e0esc = true } })
    else if is_release byte
    then (0, record d { mods = release_key byte d.mods })
    else if d.mods.e0esc
    then press (byte + 128) (record d { mods = record (d.mods) { e0esc = false } })
    else press byte d

unfoldable pub kbdgetc : Port → Driver → ℕ × Driver
kbdgetc p d = if has_data p then scan p.byte d else (minus_one, d)

-- The characters that the interrupt hands to `consputc`, in order.
unfoldable pub kbdintr : Port → Driver → List ℕ × Driver
kbdintr p d =
    let (c, d') = kbdgetc p d in
    if c == minus_one
    then ([], d')
    else if c % 256 == 4
    then (
      (newline ∷ codes "Keyboard layout switched to ")
          ++ (if d'.is_dvorak then codes "QWERTY" else codes "Dvorak")
          ++ (newline ∷ []),
      record d' { is_dvorak = not d'.is_dvorak },
    )
    else (c ∷ [], d')
