-- ===== src/Keyboard/Sticky/Laws.antt =====
-- `kbdgetc` of sticky_kbd.c (B22CS039/Modified_Keyboard_Driver): the clock and the caps.
use os_project.Base.{ℕ, ◌+◌, ◌≤◌, ◌<◌, ◌^◌, ◌≡◌, ◌≢◌, ◌⊎◌, true, false, arith, sub32}
use os_project.Keyboard.Sticky.{
  Driver, sticky_quantum, double_press, toggle_sticky, expire, double_shift, translate, press, scan,
  kbdgetc,
}
use os_project.Keyboard.Modifiers.{Port}
use os_project.Keyboard.Plain

-- With sticky keys off, a key other than Ctrl+S gives the code of the unmodified driver and changes
-- the modifiers alone.
pub press_off :
    (now key : ℕ) (d : Driver)
    → d.sk_enabled ≡ false
    → (key ≢ 0x1f) ⊎ (d.mods.ctl ≡ false)
    → ((press now key d).0 ≡ (Plain.press key d.mods).0)
      × ((press now key d).1 ≡ record d { mods = (Plain.press key d.mods).1 })
unfolding press translate double_shift expire toggle_sticky Plain.press
press_off now key d off h = ground (arith, off, h)

-- Sticky keys that have been on for `sticky_quantum` ticks go off at the next key, which already
-- gets the code of the unmodified driver.
pub press_expired :
    (now key : ℕ) (d : Driver)
    → d.sk_enabled ≡ true
    → sticky_quantum ≤ sub32 now d.sk_time
    → (key ≢ 0x1f) ⊎ (d.mods.ctl ≡ false)
    → ((press now key d).1.sk_enabled ≡ false) × ((press now key d).0 ≡ (Plain.press key d.mods).0)
unfolding press translate double_shift expire toggle_sticky Plain.press
press_expired now key d sk old h = ground (arith, sk, old, h)

abbrev pub IsShiftKey : ℕ → Type 0
IsShiftKey key = (key ≡ 0x2a) ⊎ (key ≡ 0x36)

-- One shift key while sticky keys are on and have not run out.
press_shift :
    (now key : ℕ) (d : Driver)
    → d.sk_enabled ≡ true
    → sub32 now d.sk_time < sticky_quantum
    → IsShiftKey key
    → ((press now key d).1.sk_enabled ≡ true)
      × ((press now key d).1.sk_time ≡ d.sk_time)
      × ((press now key d).1.last_shift_press ≡ now)
unfolding press translate double_shift expire toggle_sticky
press_shift now key d sk young s = ground (arith, sk, young, s)

press_second :
    (now key : ℕ) (d : Driver)
    → d.sk_enabled ≡ true
    → sub32 now d.sk_time < sticky_quantum
    → IsShiftKey key
    → d.last_shift_press ≢ 0
    → sub32 now d.last_shift_press < double_press
    → (press now key d).1.caps_active ≡ true
unfolding press translate double_shift expire toggle_sticky
press_second now key d sk young s ne recent = ground (arith, sk, young, s, ne, recent)

-- Two presses of a shift key less than `double_press` ticks apart, while sticky keys are on, make
-- the caps active and leave sticky keys on.
pub double_shift_activates :
    (t₁ t₂ k₁ k₂ : ℕ) (d : Driver)
    → d.sk_enabled ≡ true
    → (IsShiftKey k₁ × IsShiftKey k₂)
    → (t₁ ≢ 0) × (t₁ ≤ t₂) × (t₂ < t₁ + double_press) × (t₂ < 2 ^ 32)
    → (d.sk_time ≤ t₁) × (t₂ < d.sk_time + sticky_quantum)
    → let d' = (press t₂ k₂ (press t₁ k₁ d).1).1 in (d'.caps_active ≡ true) × (d'.sk_enabled ≡ true)
double_shift_activates t₁ t₂ k₁ k₂ d sk keys times young =
    let (on, since, last) = press_shift t₁ k₁ d sk (omega arith) keys.0 in
    let d₁ : Driver = (press t₁ k₁ d).1 in
    (
      press_second t₂ k₂ d₁ on (omega (arith, since)) keys.1 (omega (arith, last))
          (omega (arith, last)),
      (press_shift t₂ k₂ d₁ on (omega (arith, since)) keys.1).0,
    )

-- Nothing clears the caps: once active they stay, through the time-out and through Ctrl+S.
pub caps_active_stays :
    (p : Port) (d : Driver) → d.caps_active ≡ true → (kbdgetc p d).1.caps_active ≡ true
unfolding kbdgetc scan press translate double_shift expire toggle_sticky
caps_active_stays p d h = ground (arith, h)
