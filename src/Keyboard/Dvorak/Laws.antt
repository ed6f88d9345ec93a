-- ===== src/Keyboard/Dvorak/Laws.antt =====
-- The layout of B22CS039/kbd.c, and its driver beside the unmodified one.
use os_project.Base.{
  ℕ, zero, suc, ◌≤◌, ◌<◌, ◌≡◌, refl, ap, sym, ◌∙◌, true, false, arith, ltb, leb, ◌&&◌, ◌||◌, ◌==◌,
  all_below, all_below_sound, if◌then◌else◌,
}
use os_project.Keyboard.Keymap.{qwerty_to_dvorak_char}
use os_project.Keyboard.Dvorak.{to_dvorak, Driver, press, scan, kbdgetc}
use os_project.Keyboard.Modifiers.{Port}
use os_project.Keyboard.Plain

-- The least character below `n` that the layout sends to `v`; 0 if none.
key_of : ℕ → ℕ → ℕ
key_of zero v = 0
key_of (suc n) v = let rest = key_of n v in if to_dvorak n == v then n else rest

round_trips :
    all_below 0x7f (λ c.
      ltb c 0x20
      || (key_of 0x7f (to_dvorak c) == c && (leb 0x20 (to_dvorak c) && ltb (to_dvorak c) 0x7f)))
    ≡ true
unfolding all_below key_of to_dvorak qwerty_to_dvorak_char
round_trips = refl

-- The layout permutes the printable characters: each goes to a printable one.
pub to_dvorak_range : (c : ℕ) → 0x20 ≤ c → c < 0x7f → (0x20 ≤ to_dvorak c) × (to_dvorak c < 0x7f)
to_dvorak_range c lo hi = ground (arith, all_below_sound 0x7f _ c round_trips hi)

key_of-to_dvorak : (c : ℕ) → 0x20 ≤ c → c < 0x7f → key_of 0x7f (to_dvorak c) ≡ c
key_of-to_dvorak c lo hi = ground (arith, all_below_sound 0x7f _ c round_trips hi)

-- No two printable characters go to the same one.
to_dvorak-injective :
    (a b : ℕ)
    → (0x20 ≤ a) × (a < 0x7f)
    → (0x20 ≤ b) × (b < 0x7f)
    → to_dvorak a ≡ to_dvorak b
    → a ≡ b
to_dvorak-injective a b ha hb e =
    sym (key_of-to_dvorak a ha.0 ha.1) ∙ ap (key_of 0x7f) e ∙ key_of-to_dvorak b hb.0 hb.1

-- In the QWERTY layout the driver gives the codes of the unmodified one, and keeps its modifiers.
kbdgetc_qwerty :
    (p : Port) (d : Driver)
    → d.is_dvorak ≡ false
    → ((kbdgetc p d).0 ≡ (Plain.kbdgetc p d.mods).0)
      × ((kbdgetc p d).1 ≡ record d { mods = (Plain.kbdgetc p d.mods).1 })
unfolding kbdgetc scan press Plain.kbdgetc Plain.scan Plain.press
kbdgetc_qwerty p d h = ground (arith, h)
