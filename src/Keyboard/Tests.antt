-- ===== src/Keyboard/Tests.antt =====
-- The drivers on concrete keys: tests, and the theorems at inputs that meet their hypotheses.
use os_project.Base.{
  ℕ, ◌≡◌, ◌⊎◌, refl, true, false, List, [], ◌∷◌, map, arith, codes, minus_one, ◌||◌,
}
use os_project.Keyboard.Keymap.{normalmap}
use os_project.Keyboard.Modifiers.{
  Modifiers, Port, nothing, has_data, swap_case, press_key, charcode,
}
use os_project.Keyboard.Plain
use os_project.Keyboard.Dvorak
use os_project.Keyboard.Dvorak.{to_dvorak}
use os_project.Keyboard.Sticky
use os_project.Keyboard.Helpful.{Driver, kbdgetc}
use os_project.Keyboard.Helpful.Modes.{IsValid, kbdgetc-IsValid}
use os_project.Keyboard.Helpful.Codes.{IsCode, kbdgetc_codes}
use os_project.Keyboard.Helpful.Words.{type_keys, type_pascal, capitalise}

abbrev key : ℕ → Port
key byte = record { status = 1; byte = byte; ticks = 600 }

-- The scan codes of "my os" and of its letters.
abbrev my_os : List ℕ
my_os = 0x32 ∷ 0x15 ∷ 0x39 ∷ 0x18 ∷ 0x1f ∷ []

abbrev start : Driver
start = record {
  mods = nothing;
  pascal_case = false;
  camel_case = false;
  snake_case = false;
  space_pressed = false;
  new_line_pressed = false;
  encryption_mode = false;
  up_key_used = false;
  devil_mode = false;
  is_dvorak = false;
  a_mode = false;
  caps_active = false;
  sk_enabled = false;
  last_shift_press = 0;
  sk_time = 0;
}

abbrev ctrl_shift : Modifiers
ctrl_shift = record nothing { ctl = true; shift = true }

abbrev ctrl_held : Modifiers
ctrl_held = record nothing { ctl = true }

plain_a : Plain.scan 0x1e nothing ≡ (b'a', nothing)
unfolding Plain.scan Plain.press press_key charcode normalmap swap_case
plain_a = refl

abbrev qwerty : Dvorak.Driver
qwerty = record { mods = nothing; is_dvorak = false }

abbrev sticky_off : Sticky.Driver
sticky_off = record {
  mods = nothing;
  last_shift_press = 0;
  caps_active = false;
  sk_enabled = false;
  sk_time = 0;
  printed = [];
}

abbrev sticky_on : Sticky.Driver
sticky_on = record sticky_off { sk_enabled = true; sk_time = 100 }

start-IsValid : IsValid start
start-IsValid = record { one_case = (refl, refl, refl); one_devil = refl; no_time = refl }

kbdgetc-IsValid_example : IsValid (kbdgetc (key 0x19) (record start { mods = ctrl_shift })).1
kbdgetc-IsValid_example =
    kbdgetc-IsValid (key 0x19) (record start { mods = ctrl_shift })
      (record { one_case = (refl, refl, refl); one_devil = refl; no_time = refl })

kbdgetc_codes_example :
    ((has_data (key 0x1e) ≡ false) × (kbdgetc (key 0x1e) start ≡ (minus_one, start)))
    ⊎ ((has_data (key 0x1e) ≡ true)
        × IsCode (kbdgetc (key 0x1e) start).1 (kbdgetc (key 0x1e) start).0)
kbdgetc_codes_example = kbdgetc_codes (key 0x1e) start (omega arith)

abbrev summoning : Driver
summoning = record start { mods = ctrl_shift; camel_case = true }

type_pascal_example :
    type_keys my_os (record start { pascal_case = true; new_line_pressed = true })
    ≡ capitalise (false || true) (map normalmap my_os)
unfolding normalmap
type_pascal_example =
    type_pascal my_os (record start { pascal_case = true; new_line_pressed = true })
      (
        (omega arith, refl),
        (
          (omega arith, refl),
          ((omega arith, refl), ((omega arith, refl), ((omega arith, refl), tt))),
        ),
      )
      (record { keys_up = (refl, refl, refl, refl, refl); modes_off = (refl, refl, refl, refl) })
      (refl, refl, refl)

my_os_pascal : capitalise true (map normalmap my_os) ≡ codes "My Os"
unfolding normalmap
my_os_pascal = refl
