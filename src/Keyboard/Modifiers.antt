-- ===== src/Keyboard/Modifiers.antt =====
-- The word `shift` of the drivers: the modifier keys held, the locks that are on, the E0 escape.
-- The code sets, clears, flips and tests named bits of it, so it is a record of those bits.
pub mod Bounds
use os_project.Base.{
  ℕ, ◌+◌, ◌/◌, ◌%◌, Bool, true, false, not, ◌&&◌, ◌||◌, leb, ◌==◌, if◌then◌else◌, is_lower,
  is_upper, ◌-◌,
}
use os_project.Keyboard.Keymap.{normalmap, shiftmap, ctlmap}

pub record Modifiers : Type 0 where
  pub shift : Bool
  pub ctl : Bool
  pub alt : Bool
  pub capslock : Bool
  pub numlock : Bool
  pub scrolllock : Bool
  pub e0esc : Bool

abbrev pub nothing : Modifiers
nothing = record {
  shift = false;
  ctl = false;
  alt = false;
  capslock = false;
  numlock = false;
  scrolllock = false;
  e0esc = false;
}

-- `shiftcode[key]`
abbrev pub shiftcode : ℕ → Modifiers
shiftcode key = record nothing {
  shift = key == 0x2a || key == 0x36;
  ctl = key == 0x1d || key == 0x9d;
  alt = key == 0x38 || key == 0xb8;
}

-- `togglecode[key]`
abbrev pub togglecode : ℕ → Modifiers
togglecode key = record nothing {
  capslock = key == 0x3a;
  numlock = key == 0x45;
  scrolllock = key == 0x46;
}

abbrev zip_with : (Bool → Bool → Bool) → Modifiers → Modifiers → Modifiers
zip_with f a b = record {
  shift = f a.shift b.shift;
  ctl = f a.ctl b.ctl;
  alt = f a.alt b.alt;
  capslock = f a.capslock b.capslock;
  numlock = f a.numlock b.numlock;
  scrolllock = f a.scrolllock b.scrolllock;
  e0esc = f a.e0esc b.e0esc;
}

-- `a |= b`, `a &= ~b`, `a ^= b`
abbrev pub set_bits : Modifiers → Modifiers → Modifiers
set_bits = zip_with (λ x y. x || y)

abbrev pub clear_bits : Modifiers → Modifiers → Modifiers
clear_bits = zip_with (λ x y. x && not y)

abbrev pub flip_bits : Modifiers → Modifiers → Modifiers
flip_bits = zip_with (λ x y. if y then not x else x)

-- What a read of the controller's ports gives, and the clock at that time.
pub record Port : Type 0 where
  pub status : ℕ
  pub byte : ℕ
  pub ticks : ℕ

-- `st & KBS_DIB`
abbrev pub has_data : Port → Bool
has_data p = p.status % 2 == 1

-- `data & 0x80`
abbrev pub is_release : ℕ → Bool
is_release byte = byte / 128 % 2 == 1

-- `shift &= ~(shiftcode[data] | E0ESC)`, after the high bit of a plain code is dropped.
unfoldable pub release_key : ℕ → Modifiers → Modifiers
release_key byte m =
    let key = if m.e0esc then byte else byte % 128 in
    clear_bits m (record (shiftcode key) { e0esc = true })

-- `shift |= shiftcode[data]; shift ^= togglecode[data];`
unfoldable pub press_key : ℕ → Modifiers → Modifiers
press_key key m = flip_bits (set_bits m (shiftcode key)) (togglecode key)

-- `charcode[shift & (CTL | SHIFT)][data]`
unfoldable pub charcode : Modifiers → ℕ → ℕ
charcode m key = if m.ctl then ctlmap key else if m.shift then shiftmap key else normalmap key

-- The exchange of the cases under CAPSLOCK.
unfoldable pub swap_case : ℕ → ℕ
swap_case c = if is_lower c then c - 32 else if is_upper c then c + 32 else c

-- `'a' <= c && c <= 'z'` made upper case; the other characters stay.
unfoldable pub raise_case : ℕ → ℕ
raise_case c = if is_lower c then c - 32 else c

-- The scan code with the escape in front of it taken in: `data |= 0x80; shift &= ~E0ESC;`.
unfoldable pub take_escape : ℕ → Modifiers → ℕ × Modifiers
take_escape byte m = if m.e0esc then (byte + 128, record m { e0esc = false }) else (byte, m)
