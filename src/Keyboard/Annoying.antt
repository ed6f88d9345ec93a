-- ===== src/Keyboard/Annoying.antt =====
-- The driver with a devil mode, B22CS052/Annoying/kbd.c.
pub mod Laws
use Prim.Native.Nat.{bit_and}
use os_project.Base.{ℕ, ◌+◌, Bool, not, true, false, ◌&&◌, ◌==◌, if◌then◌else◌, minus_one, sub32}
use os_project.Keyboard.Modifiers.{
  Modifiers, Port, has_data, is_release, release_key, press_key, charcode, swap_case,
}

pub record Driver : Type 0 where
  pub mods : Modifiers
  pub devil_mode : Bool

-- `shift & CAPSLOCK & !devil_mode`: the bit 8 of CAPSLOCK and the bit 1 of the truth value.
unfoldable pub caps_test : Modifiers → Bool → Bool
caps_test m devil = not (bit_and (if m.capslock then 8 else 0) (if devil then 0 else 1) == 0)

unfoldable pub translate : ℕ → Driver → ℕ × Driver
translate key d =
    let m = press_key key d.mods in
    let c = charcode m key in
    (
      if caps_test m d.devil_mode
          then swap_case c
          else if d.devil_mode
          then (if m.shift then sub32 c b'@' else if m.ctl then c + 128 else c)
          else c,
      record d { mods = m },
    )

unfoldable pub scan : ℕ → Driver → ℕ × Driver
scan byte d =
    if byte == 0xe0
    then (0, record d { mods = record (d.mods) { e0esc = true } })
    else if is_release byte
    then (0, record d { mods = release_key byte d.mods })
    else if d.mods.e0esc
    then translate (byte + 128) (record d { mods = record (d.mods) { e0esc = false } })
    else if d.mods.ctl && byte == 0x39
    then (2000, record d { devil_mode = true })
    else if d.mods.ctl && byte == 0x0f
    then (0, record d { devil_mode = false })
    else translate byte d

unfoldable pub kbdgetc : Port → Driver → ℕ × Driver
kbdgetc p d = if has_data p then scan p.byte d else (minus_one, d)
