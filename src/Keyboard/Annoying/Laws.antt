-- ===== src/Keyboard/Annoying/Laws.antt =====
-- The locks and the mode of `kbdgetc` in B22CS052/Annoying/kbd.c.
use os_project.Base.{ℕ, ◌≡◌, ◌≢◌, ◌⊎◌, true, false, arith, Bool}
use os_project.Keyboard.Annoying.{Driver, caps_test, translate, scan}
use os_project.Keyboard.Plain
use os_project.Keyboard.Modifiers.{Modifiers, togglecode, press_key, charcode}

caps_test-false : (m : Modifiers) (devil : Bool) → caps_test m devil ≡ false
unfolding caps_test
caps_test-false m devil = ground arith

-- CAPSLOCK has no effect on any code: the test joins the bit 8 and a truth value by `&`.
pub translate_ignores_caps :
    (key : ℕ) (d : Driver) (caps : Bool)
    → (translate key (record d { mods = record (d.mods) { capslock = caps } })).0
      ≡ (translate key d).0
unfolding translate press_key charcode
translate_ignores_caps key d caps = ground (
  arith,
  caps_test-false (press_key key d.mods) d.devil_mode,
  caps_test-false (press_key key (record (d.mods) { capslock = caps })) d.devil_mode,
)

-- With the devil mode off and CAPSLOCK off the driver is the unmodified one, but for the two keys
-- that Ctrl turns into the commands of the mode.
pub scan_plain :
    (byte : ℕ) (d : Driver)
    → d.devil_mode ≡ false
    → (d.mods.capslock ≡ false) × ((togglecode byte).capslock ≡ false) × (d.mods.e0esc ≡ false)
    → (d.mods.ctl ≡ false) ⊎ ((byte ≢ 0x39) × (byte ≢ 0x0f))
    → ((scan byte d).0 ≡ (Plain.scan byte d.mods).0)
      × ((scan byte d).1 ≡ record d { mods = (Plain.scan byte d.mods).1 })
unfolding scan translate press_key Plain.scan Plain.press
scan_plain byte d off caps h =
    ground (arith, h, caps_test-false (press_key byte d.mods) d.devil_mode)

-- Ctrl+Space enters the mode and Ctrl+Tab leaves it, whatever the mode was before.
pub scan_mode :
    (d : Driver)
    → d.mods.ctl ≡ true
    → d.mods.e0esc ≡ false
    → (scan 0x39 d ≡ (2000, record d { devil_mode = true }))
      × (scan 0x0f d ≡ (0, record d { devil_mode = false }))
unfolding scan
scan_mode d h e = ground arith
