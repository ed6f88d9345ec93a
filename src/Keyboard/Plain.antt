-- ===== src/Keyboard/Plain.antt =====
-- The unmodified driver, B22ES019/autocomplete/kbd.c (and B22ES019/bgcolor_change/kbd.c).
pub mod Laws
use os_project.Base.{ℕ, ◌+◌, ◌%◌, ◌≡◌, refl, true, false, ◌==◌, if◌then◌else◌, minus_one, newline}
use os_project.Keyboard.Modifiers.{
  Modifiers, Port, has_data, is_release, release_key, press_key, charcode, swap_case, nothing,
}

-- A key that goes down: its modifiers, its character, the case under CAPSLOCK.
unfoldable pub press : ℕ → Modifiers → ℕ × Modifiers
press key m =
    let m' = press_key key m in
    let c = charcode m' key in (if m'.capslock then swap_case c else c, m')

-- One byte of the controller.
unfoldable pub scan : ℕ → Modifiers → ℕ × Modifiers
scan byte m =
    if byte == 0xe0
    then (0, record m { e0esc = true })
    else if is_release byte
    then (0, release_key byte m)
    else if m.e0esc
    then press (byte + 128) (record m { e0esc = false })
    else press byte m

unfoldable pub kbdgetc : Port → Modifiers → ℕ × Modifiers
kbdgetc p m = if has_data p then scan p.byte m else (minus_one, m)
