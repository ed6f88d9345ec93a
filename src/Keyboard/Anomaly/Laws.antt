-- ===== src/Keyboard/Anomaly/Laws.antt =====
-- `kbdgetc` of Anomaly_Mode_kbd.c (B22CS039/Modified_Keyboard_Driver) beside the unmodified one.
use os_project.Base.{ℕ, ◌≡◌, ◌≢◌, ◌⊎◌, false, arith, if◌then◌else◌}
use os_project.Keyboard.Anomaly.{Driver, swap_keys, translate, press}
use os_project.Keyboard.Modifiers.{swap_case}
use os_project.Keyboard.Plain

-- The exchange of keys undoes itself.
pub swap_keys-swap_keys : (key : ℕ) → swap_keys (swap_keys key) ≡ key
unfolding swap_keys
swap_keys-swap_keys key = ground arith

-- A key in anomaly mode is the exchanged key of the unmodified driver, in the other case; out of
-- the mode it is the key itself. Ctrl+A is the one exception.
pub press_anomaly :
    (key : ℕ) (d : Driver)
    → (key ≢ 0x1e) ⊎ (d.mods.ctl ≡ false)
    → ((press key d).0 ≡ (
        if d.a_mode
        then swap_case (Plain.press (swap_keys key) d.mods).0
        else (Plain.press key d.mods).0))
      × ((press key d).1
          ≡ record d { mods = (Plain.press (if d.a_mode then swap_keys key else key) d.mods).1 })
unfolding press translate Plain.press
press_anomaly key d h = ground (arith, h)
