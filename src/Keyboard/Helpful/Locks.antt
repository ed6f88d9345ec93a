-- ===== src/Keyboard/Helpful/Locks.antt =====
-- CAPSLOCK, sticky keys and the devil mode of `kbdgetc` in B22CS052/Helpful/kbd.c.
use os_project.Base.{ℕ, ◌≤◌, ◌<◌, ◌^◌, ◌≡◌, ◌≢◌, refl, true, false, not, arith, Bool, ◌==◌, newline}
use os_project.Keyboard.Helpful.{
  Driver, done, commands, mode_keys, decode, note_blank, case_code, finish, translate, complete,
  kbdgetc, sticky_quantum,
}
use os_project.Keyboard.Helpful.Modes.{IsValid}
use os_project.Keyboard.Modifiers.{Port, press_key, charcode, togglecode, swap_case}
use os_project.Keyboard.Plain.Laws.{swap_case-swap_case}

abbrev pub with_caps : Bool → Driver → Driver
with_caps caps d = record d { mods = record (d.mods) { capslock = caps } }

swap_case-blank : (c : ℕ) → (swap_case c == b' ') ≡ (c == b' ')
unfolding swap_case
swap_case-blank c = ground arith

swap_case-newline : (c : ℕ) → (swap_case c == newline) ≡ (c == newline)
unfolding swap_case
swap_case-newline c = ground arith

swap_case_of_blank : (c : ℕ) → c ≡ b' ' → swap_case b'_' ≡ b'_'
unfolding swap_case
swap_case_of_blank c h = refl

-- With no mode on, the code of a key is the same whether CAPSLOCK is on or off: the case is
-- exchanged twice.
translate_caps_ignored :
    (key : ℕ) (d : Driver)
    → (togglecode key).capslock ≡ false
    → (d.devil_mode ≡ false) × (d.encryption_mode ≡ false)
    → (d.pascal_case ≡ false) × (d.camel_case ≡ false) × (d.snake_case ≡ false)
    → (d.is_dvorak ≡ false) × (d.sk_enabled ≡ false)
    → (translate key (with_caps true d)).0 ≡ (translate key (with_caps false d)).0
unfolding translate press_key charcode case_code note_blank finish
translate_caps_ignored key d t h₁ h₂ h₃ =
    ground (arith, swap_case-swap_case (charcode (press_key key d.mods) key))

-- Ctrl+Shift+Alt+Space switches every mode off, types a newline, and leaves the rest as it was.
pub decode_reset :
    (now : ℕ) (d : Driver)
    → (d.mods.ctl ≡ true) × (d.mods.shift ≡ true) × (d.mods.alt ≡ true) × (d.mods.e0esc ≡ false)
    → decode now 0x39 d
      ≡ done newline (record d {
        pascal_case = false;
        camel_case = false;
        snake_case = false;
        devil_mode = false;
        a_mode = false;
        sk_enabled = false;
        is_dvorak = false;
        up_key_used = false;
        new_line_pressed = false;
        encryption_mode = false;
      })
unfolding decode mode_keys commands
decode_reset now d h = ground arith

abbrev pub port : ℕ → ℕ → Port
port now byte = record { status = 1; byte = byte; ticks = now }

-- Ctrl+Shift+D enters the devil mode and, pressed again, leaves it with every case mode and the
-- encryption off.
devil_mode_toggles :
    (now later : ℕ) (d : Driver)
    → IsValid d
    → (d.mods.ctl ≡ true) × (d.mods.shift ≡ true) × (d.mods.e0esc ≡ false)
    → let entered = (kbdgetc (port now 0x20) d).1 in
      let left = (kbdgetc (port later 0x20) entered).1 in
      (entered.devil_mode ≡ not d.devil_mode)
      × (left.devil_mode ≡ d.devil_mode)
      × (left.a_mode ≡ d.devil_mode)
      × (left.pascal_case ≡ false)
      × (left.camel_case ≡ false)
      × (left.snake_case ≡ false)
      × (left.encryption_mode ≡ false)
unfolding kbdgetc decode mode_keys complete
devil_mode_toggles now later d v h = ground arith

-- The time at which sticky keys go on is never noted, so from `sticky_quantum` ticks after the start
-- of the machine on, the first key after Ctrl+S that is no command finds them run out.
pub sticky_runs_out :
    (now later key : ℕ) (d : Driver)
    → IsValid d
    → (d.mods.ctl ≡ true) × (d.mods.shift ≡ false) × (d.mods.e0esc ≡ false)
    → d.sk_enabled ≡ false
    → (sticky_quantum ≤ later) × (later < 2 ^ 32)
    → (key < 0x80) × (key ≢ 0x12) × (key ≢ 0x1f) × (key ≢ 0x20)
    → let on = kbdgetc (port now 0x1f) d in
      (on.0 ≡ 2500)
      × (on.1.sk_enabled ≡ true)
      × ((kbdgetc (port later key) on.1).1.sk_enabled ≡ false)
unfolding kbdgetc decode mode_keys commands complete translate note_blank
sticky_runs_out now later key d v h off times k = ground arith
