-- ===== src/Keyboard/Anomaly.antt =====
-- The driver with an anomaly mode, B22CS039/Modified_Keyboard_Driver/Anomaly_Mode_kbd.c.
pub mod Laws
use os_project.Base.{
  ℕ, Bool, true, false, not, ◌&&◌, List, ◌++◌, ◌==◌, if◌then◌else◌, minus_one, codes,
}
use os_project.Keyboard.Modifiers.{
  Modifiers, Port, has_data, is_release, release_key, press_key, charcode, swap_case, take_escape,
}

pub record Driver : Type 0 where
  pub mods : Modifiers
  pub a_mode : Bool
  pub printed : List ℕ  -- what `print_str` has put out

-- Space and Tab change places, and so do Backspace and Enter.
unfoldable pub swap_keys : ℕ → ℕ
swap_keys key =
    let key' = if key == 0x39 then 0x0f else if key == 0x0f then 0x39 else key in
    if key' == 0x0e then 0x1c else if key' == 0x1c then 0x0e else key'

-- Ctrl+A.
unfoldable pub toggle_anomaly : Driver → Driver
toggle_anomaly d = record d {
  a_mode = not d.a_mode;
  printed =
      d.printed
      ++ (if d.a_mode then codes "ANOMALY MODE DISABLED!!\n" else codes "ANOMALY MODE ENABLED!!\n");
}

unfoldable pub translate : ℕ → Driver → ℕ × Driver
unfolding swap_keys
translate key d =
    let key' = if d.a_mode then swap_keys key else key in
    let m = press_key key' d.mods in
    let c = charcode m key' in
    let c' = if m.capslock then swap_case c else c in
    (if d.a_mode then swap_case c' else c', record d { mods = m })

unfoldable pub press : ℕ → Driver → ℕ × Driver
press key d = if key == 0x1e && d.mods.ctl then (0, toggle_anomaly d) else translate key d

unfoldable pub scan : ℕ → Driver → ℕ × Driver
scan byte d =
    if byte == 0xe0
    then (0, record d { mods = record (d.mods) { e0esc = true } })
    else if is_release byte
    then (0, record d { mods = release_key byte d.mods })
    else (let (key, m) = take_escape byte d.mods in press key (record d { mods = m }))

unfoldable pub kbdgetc : Port → Driver → ℕ × Driver
kbdgetc p d = if has_data p then scan p.byte d else (minus_one, d)
