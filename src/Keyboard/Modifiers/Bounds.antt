-- ===== src/Keyboard/Modifiers/Bounds.antt =====
-- Bounds of the tables of kbd.h and of the changes of case.
use os_project.Base.{ℕ, ◌<◌, ◌≡◌, refl, true, arith, ltb, ◌&&◌, all_below, all_below_sound}
use os_project.Keyboard.Keymap.{normalmap, shiftmap, ctlmap}
use os_project.Keyboard.Modifiers.{Modifiers, charcode, swap_case, raise_case}

-- An upper-case letter plus 32, or any character of the tables, is a byte.
tables :
    all_below 256 (λ k. ltb (normalmap k) 256 && (ltb (shiftmap k) 256 && ltb (ctlmap k) 256))
    ≡ true
unfolding all_below normalmap shiftmap ctlmap
tables = refl

pub charcode-lt : (m : Modifiers) (key : ℕ) → key < 256 → charcode m key < 256
unfolding charcode
charcode-lt m key h = ground (arith, all_below_sound 256 _ key tables h)

pub normalmap-lt : (key : ℕ) → key < 256 → normalmap key < 256
normalmap-lt key h = ground (arith, all_below_sound 256 _ key tables h)

pub swap_case-lt : (c : ℕ) → c < 256 → swap_case c < 256
unfolding swap_case
swap_case-lt c h = ground arith

pub raise_case-lt : (c : ℕ) → c < 256 → raise_case c < 256
unfolding raise_case
raise_case-lt c h = ground arith
