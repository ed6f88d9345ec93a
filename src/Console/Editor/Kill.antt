-- ===== src/Console/Editor/Kill.antt =====
-- The loop of Ctrl+U in `consoleintr` of B22CS039/console.c.
use os_project.Base.{
  ℕ, zero, suc, ◌≡◌, ◌≢◌, List, [], ◌∷◌, arith, All, All-split, replicate, sub32, newline,
}
use os_project.Console.Device.{put_all}
use os_project.Console.Editor.{Console, erase, kill_line}
use os_project.Console.Ring.{Ring, last, drop_last}
use os_project.Console.Ring.View.{IsValid, line, line-drop_last, drop_last-IsValid}
use os_project.Console.Screen.{backspace}

-- A line has no newline in it: one that is typed ends the line.
abbrev pub IsLine : List ℕ → Type 0
IsLine = All (λ c. c ≢ newline)

pub last_of_line :
    (s : Ring)
    → IsValid s
    → s.e ≢ s.w
    → IsLine (line s)
    → (last s ≢ newline) × IsLine (line (drop_last s))
last_of_line s v ne h =
    let (rest, l) =
      All-split (λ c. c ≢ newline) (line (drop_last s)) (last s ∷ [])
        (rw (line-drop_last s v ne) at h) in
    (l.0, rest)

pub kill_line_lem :
    (n : ℕ) (t : Console)
    → IsValid t.ring
    → IsLine (line t.ring)
    → sub32 t.ring.e t.ring.w ≡ n
    → kill_line n t ≡ record t {
      ring = record (t.ring) { e = t.ring.w };
      dev = put_all (replicate n backspace) t.dev;
    }
unfolding kill_line put_all erase drop_last
kill_line_lem zero t v h e =
    let same : t.ring.e ≡ t.ring.w = omega (arith, v.words, e) in ground arith
kill_line_lem (suc n) t v h e =
    let ne : t.ring.e ≢ t.ring.w = omega (arith, v.words, e) in
    let (last_ne, rest) = last_of_line t.ring v ne h in
    ground (
      arith,
      ne,
      last_ne,
      kill_line_lem n (erase t) (drop_last-IsValid t.ring v ne) rest (omega (arith, v.words, e)),
    )
