-- ===== src/Keyboard/Sticky.antt =====
-- The driver with sticky keys, B22CS039/Modified_Keyboard_Driver/sticky_kbd.c.
pub mod Laws
use os_project.Base.{
  ℕ, Bool, true, false, not, ◌&&◌, ◌||◌, List, ◌++◌, ◌==◌, ltb, leb, if◌then◌else◌, minus_one,
  sub32, newline, codes, ◌∷◌, [],
}
use os_project.Keyboard.Modifiers.{
  Modifiers, Port, has_data, is_release, release_key, press_key, charcode, swap_case, raise_case,
  take_escape,
}

pub record Driver : Type 0 where
  pub mods : Modifiers
  pub last_shift_press : ℕ
  pub caps_active : Bool
  pub sk_enabled : Bool
  pub sk_time : ℕ
  pub printed : List ℕ  -- what `print_str` has put out

abbrev pub double_press : ℕ
double_press = 100

-- `SK_tq`
abbrev pub sticky_quantum : ℕ
sticky_quantum = 500

-- `print_str`
unfoldable pub print_str : List ℕ → Driver → Driver
print_str text d = record d { printed = d.printed ++ text }

-- Ctrl+S.
unfoldable pub toggle_sticky : ℕ → ℕ → Driver → Driver
unfolding print_str
toggle_sticky now key d =
    if key == 0x1f && d.mods.ctl
    then (if d.sk_enabled
        then print_str (codes "Disabled\n")
            (print_str (codes "\nSticky Keys ") (record d { sk_enabled = false }))
        else record (print_str (codes "Enabled\n")
            (print_str (codes "\nSticky Keys ") (record d { sk_enabled = true }))) {
              sk_time = now;
            })
    else d

-- Sticky keys that are on for `sticky_quantum` ticks go off.
unfoldable pub expire : ℕ → Driver → Driver
unfolding print_str
expire now d =
    if d.sk_enabled && leb sticky_quantum (sub32 now d.sk_time)
    then print_str (codes "\nSticky Keys Disabled (Timeout)\n") (record d { sk_enabled = false })
    else d

-- A shift key; two within `double_press` ticks set the caps.
unfoldable pub double_shift : ℕ → ℕ → Driver → Driver
unfolding print_str
double_shift now key d =
    if d.sk_enabled && (key == 0x2a || key == 0x36)
    then record (if not (d.last_shift_press == 0) && ltb (sub32 now d.last_shift_press) double_press
        then print_str (codes "Caps Lock Activated\n") (record d { caps_active = true })
        else d) { last_shift_press = now }
    else d

unfoldable pub translate : ℕ → Driver → ℕ × Driver
translate key d =
    let m = press_key key d.mods in
    let c = charcode m key in
    (
      if d.caps_active && d.sk_enabled then raise_case c else if m.capslock then swap_case c else c,
      record d { mods = m },
    )

unfoldable pub press : ℕ → ℕ → Driver → ℕ × Driver
press now key d = translate key (double_shift now key (expire now (toggle_sticky now key d)))

unfoldable pub scan : ℕ → ℕ → Driver → ℕ × Driver
scan now byte d =
    if byte == 0xe0
    then (0, record d { mods = record (d.mods) { e0esc = true } })
    else if is_release byte
    then (0, record d { mods = release_key byte d.mods })
    else (let (key, m) = take_escape byte d.mods in press now key (record d { mods = m }))

unfoldable pub kbdgetc : Port → Driver → ℕ × Driver
kbdgetc p d = if has_data p then scan p.ticks p.byte d else (minus_one, d)
