-- ===== src/Keyboard/Plain/Laws.antt =====
-- `kbdgetc` of B22ES019/autocomplete/kbd.c: its locks and its cases.
use os_project.Base.{ℕ, ◌+◌, ◌<◌, ◌≡◌, ◌≢◌, true, false, arith, ap, ◌∙◌}
use os_project.Keyboard.Modifiers.{
  Modifiers, release_key, press_key, charcode, swap_case, togglecode, flip_bits,
}
use os_project.Keyboard.Plain.{press, scan}

-- No modifier is held and no escape is open.
abbrev pub IsIdle : Modifiers → Type 0
IsIdle m = (m.shift ≡ false) × (m.ctl ≡ false) × (m.alt ≡ false) × (m.e0esc ≡ false)

release-press_key :
    (key : ℕ) (m : Modifiers)
    → key < 128
    → IsIdle m
    → release_key (key + 128) (press_key key m) ≡ flip_bits m (togglecode key)
unfolding press_key release_key
release-press_key key m lt h = ground arith

scan_down : (key : ℕ) (m : Modifiers) → key < 128 → m.e0esc ≡ false → scan key m ≡ press key m
unfolding scan
scan_down key m lt e = ground (arith, e)

scan_up :
    (key : ℕ) (m : Modifiers)
    → key < 128
    → key ≢ 0x60
    → scan (key + 128) m ≡ (0, release_key (key + 128) m)
unfolding scan
scan_up key m lt ne = ground arith

-- One key, down and up again.
abbrev pub stroke : ℕ → Modifiers → Modifiers
stroke key m = (scan (key + 128) (scan key m).1).1

-- A key pressed and released flips the lock that it stands for, and leaves every other modifier as
-- it was, when none was held. The release of key 0x60 would read as an escape.
pub stroke_lem :
    (key : ℕ) (m : Modifiers)
    → key < 128
    → key ≢ 0x60
    → IsIdle m
    → stroke key m ≡ flip_bits m (togglecode key)
unfolding press
stroke_lem key m lt ne h =
    ap (λ (t : ℕ × Modifiers). (scan (key + 128) t.1).1) (scan_down key m lt h.3)
    ∙ ap (λ (t : ℕ × Modifiers). t.1) (scan_up key (press_key key m) lt ne)
    ∙ release-press_key key m lt h

-- The code that CAPSLOCK gives is the other case of the code without it.
pub press-caps :
    (key : ℕ) (m : Modifiers)
    → (togglecode key).capslock ≡ false
    → (press key (record m { capslock = true })).0
      ≡ swap_case (press key (record m { capslock = false })).0
unfolding press press_key charcode
press-caps key m h = ground arith

pub swap_case-swap_case : (c : ℕ) → swap_case (swap_case c) ≡ c
unfolding swap_case
swap_case-swap_case c = ground arith
