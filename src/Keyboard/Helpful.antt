-- ===== src/Keyboard/Helpful.antt =====
-- The driver that joins all modes, B22CS052/Helpful/kbd.c.
pub mod Modes
pub mod Words
pub mod Locks
pub mod Codes
use os_project.Base.{
  ℕ, ◌+◌, ◌-◌, Bool, true, false, not, ◌&&◌, ◌||◌, ◌==◌, ltb, leb, if◌then◌else◌, minus_one, sub32,
  newline, is_lower, is_upper,
}
use os_project.Keyboard.Keymap.{normalmap}
use os_project.Keyboard.Modifiers.{
  Modifiers, Port, has_data, is_release, release_key, press_key, charcode, swap_case, raise_case,
}
use os_project.Keyboard.Dvorak.{to_dvorak}

-- The flags of the file, which hold only 0 and 1, and its two times. (`language` is never read.)
pub record Driver : Type 0 where
  pub mods : Modifiers
  pub pascal_case : Bool
  pub camel_case : Bool
  pub snake_case : Bool
  pub space_pressed : Bool
  pub new_line_pressed : Bool
  pub encryption_mode : Bool
  pub up_key_used : Bool
  pub devil_mode : Bool
  pub is_dvorak : Bool
  pub a_mode : Bool
  pub caps_active : Bool
  pub sk_enabled : Bool
  pub last_shift_press : ℕ
  pub sk_time : ℕ

abbrev pub double_press : ℕ
double_press = 100

-- `SK_tq`
abbrev pub sticky_quantum : ℕ
sticky_quantum = 500

-- A branch of the chain of tests returns, or goes on to the translation of a key.
pub data Outcome : Type 0 where
  done : ℕ → Driver → Outcome
  go_on : ℕ → Driver → Outcome

-- The tests from Ctrl+E on, of a byte that is a key going down.
unfoldable pub commands : ℕ → ℕ → Driver → Outcome
commands now key d =
    if ctl && key == 0x12
    then go_on key (record d {
      camel_case = false;
      pascal_case = false;
      snake_case = false;
      encryption_mode = not d.encryption_mode;
    })
    else if ctl && shift && alt && key == 0x39
    then done newline (record d {
      pascal_case = false;
      camel_case = false;
      snake_case = false;
      devil_mode = false;
      a_mode = false;
      sk_enabled = false;
      is_dvorak = false;
      up_key_used = false;
      new_line_pressed = false;
      encryption_mode = false;
    })
    else if key == 0x1f && ctl
    then done (if d.sk_enabled then 2501 else 2500) (record d { sk_enabled = not d.sk_enabled })
    else if ctl && key == 0x20
    then done (if d.is_dvorak then 2503 else 2502) (record d { is_dvorak = not d.is_dvorak })
    else if d.sk_enabled && leb sticky_quantum (sub32 now d.sk_time)
    then go_on key (record d { sk_enabled = false })
    else if d.sk_enabled && (key == 0x2a || key == 0x36)
    then go_on key (record d {
      caps_active =
          (if not (d.last_shift_press == 0) && ltb (sub32 now d.last_shift_press) double_press
            then not d.caps_active
            else d.caps_active);
      last_shift_press = now;
    })
    else go_on key d
  where
    open d.mods use {shift, ctl, alt}

-- The four modes behind Ctrl+Shift, of a key going down with no escape in front.
unfoldable pub mode_keys : ℕ → ℕ → Driver → Outcome
mode_keys now key d =
    if ctl && shift && key == 0x19
    then done 0 (record d {
      pascal_case = not d.pascal_case;
      camel_case = false;
      snake_case = false;
      new_line_pressed = true;
    })
    else if ctl && shift && key == 0x2e
    then done 0
        (record d { camel_case = not d.camel_case; pascal_case = false; snake_case = false })
    else if ctl && shift && key == 0x1f
    then done 0
        (record d { snake_case = not d.snake_case; pascal_case = false; camel_case = false })
    else if ctl && shift && key == 0x20
    then done 2000 (record d {
      snake_case = false;
      pascal_case = false;
      camel_case = false;
      encryption_mode = false;
      up_key_used = false;
      devil_mode = not d.devil_mode;
      a_mode = not d.a_mode;
    })
    else commands now key d
  where
    open d.mods use {shift, ctl}

-- The chain of tests on a byte.
unfoldable pub decode : ℕ → ℕ → Driver → Outcome
decode now byte d =
    if d.mods.ctl && d.mods.shift && byte == 0x23
    then done 2504 d
    else if byte == 0xe0
    then done 0 (record d { mods = record (d.mods) { e0esc = true } })
    else if byte == 0xe2
    then (if d.up_key_used then done 0 d else done 226 (record d { up_key_used = true }))
    else if is_release byte
    then done 0 (record d { mods = release_key byte d.mods })
    else if d.mods.e0esc
    then go_on (byte + 128) (record d { mods = record (d.mods) { e0esc = false } })
    else mode_keys now byte d

-- The character of a key in devil mode.
unfoldable pub devil_code : ℕ → Driver → ℕ
devil_code key d =
    let c = normalmap key in
    let rest : ℕ =
      (if d.mods.ctl && is_lower c then c + 128 else if d.a_mode then swap_case c else c) + 2000 in
    if d.a_mode && key == 0x39
    then 0x09
    else if d.a_mode && key == 0x0f
    then b' '
    else if d.a_mode && key == 0x0e
    then newline
    else if d.a_mode && key == 0x1c
    then 0x08
    else rest

-- The character in the case that the mode asks for.
unfoldable pub case_code : ℕ → Driver → ℕ
case_code c d =
    if d.pascal_case
    then (if (d.space_pressed || d.new_line_pressed) && is_lower c
        then c - 32
        else if is_upper c
        then c + 32
        else c)
    else if d.camel_case
    then (if d.space_pressed && is_lower c then c - 32 else if is_upper c then c + 32 else c)
    else if d.mods.capslock
    then swap_case c
    else c

-- The tests on the blank and the newline.
unfoldable pub note_blank : ℕ → Driver → ℕ × Driver
note_blank c d = (
  if c == b' ' && d.snake_case then b'_' else c,
  record d {
    space_pressed = c == b' ';
    new_line_pressed = c == newline;
    up_key_used = d.up_key_used && not (c == newline);
  },
)

-- The layout, CAPSLOCK and the caps of the sticky keys.
unfoldable pub finish : ℕ → Driver → ℕ
finish c d =
    let c₁ = if d.is_dvorak then to_dvorak c else c in
    let c₂ = if not d.sk_enabled && d.mods.capslock then swap_case c₁ else c₁ in
    if d.caps_active && d.sk_enabled then raise_case c₂ else c₂

unfoldable pub translate : ℕ → Driver → ℕ × Driver
translate key d₀ =
    let d = record d₀ { mods = press_key key d₀.mods } in
    let c = charcode d.mods key in
    if d.devil_mode
    then (devil_code key d, d)
    else if d.encryption_mode
    then (c + 1000, d)
    else (let (c', d') = note_blank (case_code c d) d in (finish c' d', d'))

unfoldable pub complete : Outcome → ℕ × Driver
complete (done c d) = (c, d)
complete (go_on key d) = translate key d

unfoldable pub kbdgetc : Port → Driver → ℕ × Driver
unfolding complete
kbdgetc p d = if has_data p then complete (decode p.ticks p.byte d) else (minus_one, d)
