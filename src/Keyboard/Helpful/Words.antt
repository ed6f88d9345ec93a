-- ===== src/Keyboard/Helpful/Words.antt =====
-- Whole lines typed in the case modes of `kbdgetc` in B22CS052/Helpful/kbd.c.
use os_project.Base.{
  ℕ, ◌+◌, ◌-◌, ◌<◌, ◌≡◌, ◌≢◌, refl, true, false, not, arith, Bool, if◌then◌else◌, ◌&&◌, ◌||◌, ◌==◌,
  ltb, newline, List, [], ◌∷◌, map, is_lower, all_below, all_below_sound, All,
}
use os_project.Keyboard.Helpful.{
  Driver, commands, mode_keys, decode, done, go_on, note_blank, case_code, finish, translate,
  complete, kbdgetc,
}
use os_project.Keyboard.Keymap.{normalmap}
use os_project.Keyboard.Modifiers.{Modifiers, Port, press_key, release_key, charcode}

-- A key that stands for a lower-case letter or the blank.
abbrev pub is_text : ℕ → Bool
is_text c = is_lower c || c == b' '

abbrev pub IsTextKey : ℕ → Type 0
IsTextKey key = (key < 128) × (is_text (normalmap key) ≡ true)

-- None of them is a modifier or a lock.
text_keys :
    all_below 128 (λ k.
      not (is_text (normalmap k))
      || (ltb k 0x3a
          && (not (k == 0x1d) && (not (k == 0x2a) && (not (k == 0x36) && not (k == 0x38))))))
    ≡ true
unfolding all_below normalmap
text_keys = refl

text_key :
    (key : ℕ)
    → IsTextKey key
    → (key < 0x3a) × (key ≢ 0x1d) × (key ≢ 0x2a) × (key ≢ 0x36) × (key ≢ 0x38)
text_key key h = ground (arith, h, all_below_sound 128 _ key text_keys h.0)

-- No modifier is held, and nothing but a case mode changes the codes.
pub record IsTyping (d : Driver) : Type 0 where
  pub keys_up :
      (d.mods.shift ≡ false)
      × (d.mods.ctl ≡ false)
      × (d.mods.alt ≡ false)
      × (d.mods.e0esc ≡ false)
      × (d.mods.capslock ≡ false)
  pub modes_off :
      (d.devil_mode ≡ false)
      × (d.encryption_mode ≡ false)
      × (d.is_dvorak ≡ false)
      × (d.sk_enabled ≡ false)

abbrev pub reading : ℕ → Port
reading byte = record { status = 1; byte = byte; ticks = 0 }

-- A key goes down and up again: the code of the first byte, and the state after the second.
pub stroke : ℕ → Driver → ℕ × Driver
stroke key d = let (c, d') = kbdgetc (reading key) d in (c, (kbdgetc (reading (key + 128)) d').1)

pub type_keys : List ℕ → Driver → List ℕ
type_keys [] d = []
type_keys (k ∷ ks) d = let (c, d') = stroke k d in c ∷ type_keys ks d'

-- The case that the mode gives a letter or a blank.
abbrev cased : ℕ → Driver → ℕ
cased c d =
    if (d.pascal_case && (d.space_pressed || d.new_line_pressed) || d.camel_case && d.space_pressed)
      && is_lower c
    then c - 32
    else if c == b' ' && d.snake_case
    then b'_'
    else c

decode_text : (key : ℕ) (d : Driver) → IsTextKey key → IsTyping d → decode 0 key d ≡ go_on key d
unfolding decode mode_keys commands
decode_text key d h t = ground (arith, text_key key h)

press_key_text : (key : ℕ) (m : Modifiers) → IsTextKey key → m.e0esc ≡ false → press_key key m ≡ m
unfolding press_key
press_key_text key m h e = ground (arith, text_key key h)

decode_up : (key : ℕ) (d : Driver) → IsTextKey key → IsTyping d → decode 0 (key + 128) d ≡ done 0 d
unfolding decode release_key
decode_up key d h t = ground (arith, text_key key h)

-- The state after the character `c` of a text.
abbrev after : ℕ → Driver → Driver
after c d = record d {
  space_pressed = c == b' ';
  new_line_pressed = false;
  up_key_used = d.up_key_used && not (c == newline);
}

plain_text :
    (c : ℕ) (d : Driver)
    → is_text c ≡ true
    → IsTyping d
    → (finish (note_blank (case_code c d) d).0 (note_blank (case_code c d) d).1 ≡ cased c d)
      × ((note_blank (case_code c d) d).1 ≡ after c d)
unfolding case_code note_blank finish
plain_text c d h t = ground arith

translate_text :
    (key : ℕ) (d : Driver)
    → IsTextKey key
    → IsTyping d
    → translate key d ≡ (cased (normalmap key) d, after (normalmap key) d)
unfolding translate charcode
translate_text key d h t =
    rw (press_key_text key d.mods h t.keys_up.3)
      (ground (arith, plain_text (normalmap key) d h.1 t))

stroke_text :
    (key : ℕ) (d : Driver)
    → IsTextKey key
    → IsTyping d
    → stroke key d ≡ (cased (normalmap key) d, after (normalmap key) d)
unfolding stroke kbdgetc complete
stroke_text key d h t = rw (
  decode_text key d h t,
  translate_text key d h t,
  decode_up key (after (normalmap key) d) h
      (record { keys_up = t.keys_up; modes_off = t.modes_off }),
)

-- The text with the first letter of every word made a capital; `start` says that a word may start.
abbrev pub capitalise : Bool → List ℕ → List ℕ
capitalise start [] = []
capitalise start (c ∷ cs) = (if start && is_lower c then c - 32 else c) ∷ capitalise (c == b' ') cs

-- The text with an underscore for each blank.
abbrev pub underscored : List ℕ → List ℕ
underscored = map (λ c. if c == b' ' then b'_' else c)

-- In Pascal case, with the keys of lower-case letters and of the blank alone, no modifier held, CAPSLOCK,
-- the Dvorak layout, the sticky keys, the encryption and the devil mode off, a line that is typed comes
-- out with every word's first letter a capital, the first word's too if a blank, a newline or the
-- switch of the mode stands before it.
pub type_pascal :
    (ks : List ℕ) (d : Driver)
    → All IsTextKey ks
    → IsTyping d
    → (d.pascal_case ≡ true) × (d.camel_case ≡ false) × (d.snake_case ≡ false)
    → type_keys ks d ≡ capitalise (d.space_pressed || d.new_line_pressed) (map normalmap ks)
unfolding type_keys
type_pascal [] d h t m = refl
type_pascal (k ∷ ks) d h t m = rw (stroke_text k d h.0 t) (
    ground (
      arith,
      m,
      type_pascal ks (after (normalmap k) d) h.1
          (record { keys_up = t.keys_up; modes_off = t.modes_off }) m,
    ))

-- In camel case a typed line comes out with every word's first letter a capital, but for a first
-- word with no blank before it.
pub type_camel :
    (ks : List ℕ) (d : Driver)
    → All IsTextKey ks
    → IsTyping d
    → (d.pascal_case ≡ false) × (d.camel_case ≡ true) × (d.snake_case ≡ false)
    → type_keys ks d ≡ capitalise d.space_pressed (map normalmap ks)
unfolding type_keys
type_camel [] d h t m = refl
type_camel (k ∷ ks) d h t m = rw (stroke_text k d h.0 t) (
    ground (
      arith,
      m,
      type_camel ks (after (normalmap k) d) h.1
          (record { keys_up = t.keys_up; modes_off = t.modes_off }) m,
    ))

-- In snake case a typed line comes out with an underscore for each blank.
pub type_snake :
    (ks : List ℕ) (d : Driver)
    → All IsTextKey ks
    → IsTyping d
    → (d.pascal_case ≡ false) × (d.camel_case ≡ false) × (d.snake_case ≡ true)
    → type_keys ks d ≡ underscored (map normalmap ks)
unfolding type_keys
type_snake [] d h t m = refl
type_snake (k ∷ ks) d h t m = rw (stroke_text k d h.0 t) (
    ground (
      arith,
      m,
      type_snake ks (after (normalmap k) d) h.1
          (record { keys_up = t.keys_up; modes_off = t.modes_off }) m,
    ))
