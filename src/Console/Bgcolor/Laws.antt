-- ===== src/Console/Bgcolor/Laws.antt =====
-- The keys of B22ES019/bgcolor_change/console.c beside those of the console with no colours.
use os_project.Base.{
  ℕ, zero, suc, ◌<◌, ◌≡◌, ◌⊎◌, inl, inr, refl, ap, ◌∙◌, Bool, false, ◌||◌, List, [], ◌∷◌, ◌==◌,
  if◌then◌else◌, arith, sub32, ctrl, Bool-cases,
}
use mathlib.Core.Path.{subst}
use os_project.Console.Bgcolor.{
  Console, default_color, erase, kill_line, rub_out, end_line, insert, toggle, handle, drain,
  consoleintr, cgaputc,
}
use os_project.Console.Editor
use os_project.Console.Ring.{drop_last}
use os_project.Console.Screen
use os_project.Console.Screen.{Crt}

-- The two consoles have the same line and the same counts; what they show may differ.
abbrev pub SameLine : Console → Editor.Console → Type 0
SameLine t u = (t.ring ≡ u.ring) × (t.wakes ≡ u.wakes) × (t.dumps ≡ u.dumps)

-- The codes without those that change the colour.
abbrev pub without_toggles : List ℕ → List ℕ
without_toggles [] = []
without_toggles (c ∷ cs) =
    let rest = without_toggles cs in if c == ctrl b'B' then rest else c ∷ rest

kill_line-SameLine :
    (n : ℕ) (t : Console) (u : Editor.Console)
    → SameLine t u
    → SameLine (kill_line n t) (Editor.kill_line n u)
unfolding kill_line Editor.kill_line erase Editor.erase
kill_line-SameLine zero t u h = h
kill_line-SameLine (suc n) t u h =
    ground (arith, h, kill_line-SameLine n (erase t) (Editor.erase u) (ap drop_last h.0, h.1, h.2))

insert-SameLine :
    (c : ℕ) (t : Console) (u : Editor.Console)
    → SameLine t u
    → SameLine (insert c t) (Editor.insert c u)
unfolding insert Editor.insert end_line Editor.end_line
insert-SameLine c t u h = ground (arith, h)

handle-SameLine :
    (c : ℕ) (t : Console) (u : Editor.Console)
    → SameLine t u
    → SameLine (handle c t) (if c == ctrl b'B' then u else Editor.handle c u)
unfolding handle Editor.handle rub_out Editor.rub_out erase Editor.erase toggle
handle-SameLine c t u h =
    ground (arith, h, kill_line-SameLine (sub32 t.ring.e t.ring.w) t u h, insert-SameLine c t u h)

drain-SameLine :
    (cs : List ℕ) (dump : Bool) (t : Console) (u : Editor.Console)
    → SameLine t u
    → ((drain cs dump t).0 ≡ (Editor.drain (without_toggles cs) dump u).0)
      × SameLine (drain cs dump t).1 (Editor.drain (without_toggles cs) dump u).1
unfolding drain Editor.drain
drain-SameLine [] dump t u h = (refl, h)
drain-SameLine (c ∷ cs) dump t u h =
    let dump' : Bool = dump || c == ctrl b'P' in
    let step = handle-SameLine c t u h in
    let rest = λ (v : Editor.Console) (k : SameLine (handle c t) v).
      drain-SameLine cs dump' (handle c t) v k in
    elim (Bool-cases (c == ctrl b'B')) [
      | inl b ↦
          let same : dump' ≡ dump = ground (arith, b) in
          rw b (
            subst
              (λ d.
                ((drain cs dump' (handle c t)).0 ≡ (Editor.drain (without_toggles cs) d u).0)
                × SameLine (drain cs dump' (handle c t)).1
                    (Editor.drain (without_toggles cs) d u).1)
              same (rest u (rw b at step)))
      | inr o ↦ rw o (rest (Editor.handle c u) (rw o at step))
    ]

-- The colour after some more toggles.
abbrev pub flipped : List ℕ → ℕ → ℕ
flipped [] b = b
flipped (c ∷ cs) b =
    flipped cs
      (if c == ctrl b'B' then (if b == default_color then 0x1000 else default_color) else b)

kill_line_color : (n : ℕ) (t : Console) → (kill_line n t).bg_color ≡ t.bg_color
unfolding kill_line erase
kill_line_color zero t = refl
kill_line_color (suc n) t = ground (arith, kill_line_color n (erase t))

handle_color : (c : ℕ) (t : Console) → (handle c t).bg_color ≡ flipped (c ∷ []) t.bg_color
unfolding handle rub_out erase toggle insert end_line
handle_color c t = ground (arith, kill_line_color (sub32 t.ring.e t.ring.w) t)

drain_color :
    (cs : List ℕ) (dump : Bool) (t : Console) → (drain cs dump t).1.bg_color ≡ flipped cs t.bg_color
unfolding drain
drain_color [] dump t = refl
drain_color (c ∷ cs) dump t =
    drain_color cs (dump || c == ctrl b'P') (handle c t) ∙ ap (flipped cs) (handle_color c t)

consoleintr_color :
    (cs : List ℕ) (t : Console) → (consoleintr cs t).bg_color ≡ flipped cs t.bg_color
unfolding consoleintr
consoleintr_color cs t = ground (arith, drain_color cs false t)

-- Ctrl+B as the first key.
consoleintr_toggle :
    (cs : List ℕ) (t : Console)
    → consoleintr (ctrl b'B' ∷ cs) t
      ≡ consoleintr cs (record t { bg_color = flipped (ctrl b'B' ∷ []) t.bg_color })
unfolding consoleintr drain handle toggle
consoleintr_toggle cs t = refl

-- Each Ctrl+B exchanges the colour at the start for the other one, and any other colour for the one at the
-- start, and no other key changes the colour; a Ctrl+B in front of other keys does nothing but that. From
-- the same line and counts, the line, the wake-ups and the process listings become those of the console
-- with no colours for the same keys without Ctrl+B.
pub consoleintr-SameLine :
    (cs : List ℕ) (t : Console) (u : Editor.Console)
    → SameLine t u
    → SameLine (consoleintr cs t) (Editor.consoleintr (without_toggles cs) u)
      × ((consoleintr cs t).bg_color ≡ flipped cs t.bg_color)
      × (consoleintr (ctrl b'B' ∷ cs) t
          ≡ consoleintr cs (record t { bg_color = flipped (ctrl b'B' ∷ []) t.bg_color }))
unfolding consoleintr Editor.consoleintr
consoleintr-SameLine cs t u h =
    (ground (arith, drain-SameLine cs false t u h), consoleintr_color cs t, consoleintr_toggle cs t)

-- In the colour at the start a character that is no Devanagari code is drawn as the console with no
-- colours draws it.
pub cgaputc_default :
    (c : ℕ) (s : Crt) → (c < 0x0900) ⊎ (0x097f < c) → cgaputc default_color c s ≡ Screen.cgaputc c s
unfolding cgaputc Screen.cgaputc
cgaputc_default c s h = ground (arith, h)
