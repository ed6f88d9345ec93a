-- ===== src/Console/Session.antt =====
-- A line through the whole console: typed at the interrupt, read by a process.
use os_project.Base.{
  ℕ, zero, suc, ◌+◌, ◌≤◌, ◌<◌, ◌≡◌, refl, ap, ◌∙◌, false, List, [], ◌∷◌, ◌++◌, arith, All, length,
  newline, length-append,
}
use mathlib.Core.List.{append_assoc}
use os_project.Console.Editor.{Console, consoleintr}
use os_project.Console.Editor.Refine.{Inv, view, edit_all, edit, consoleintr_refines}
use os_project.Console.Reader.{finished, consoleread}
use os_project.Console.Reader.Laws.{share, consoleread_refines}
use os_project.Console.Ring.View.{ready, line}

abbrev pub IsPrintable : ℕ → Type 0
IsPrintable c = (32 ≤ c) × (c < 127)

edit_char :
    (c : ℕ) (sofar : List ℕ)
    → IsPrintable c
    → length sofar + 1 < 128
    → edit c (record { done = []; typed = sofar }) ≡ record { done = []; typed = sofar ++ (c ∷ []) }
edit_char c sofar h k = ground (arith, length-append sofar (c ∷ []))

-- Printable characters and a newline become a line that is ready.
edit_line :
    (text sofar : List ℕ)
    → All IsPrintable text
    → length sofar + length text < 128
    → edit_all (text ++ (newline ∷ [])) (record { done = []; typed = sofar })
      ≡ record { done = sofar ++ (text ++ (newline ∷ [])); typed = [] }
edit_line [] sofar h k = ground arith
edit_line (c ∷ cs) sofar h k =
    ap (edit_all (cs ++ (newline ∷ []))) (edit_char c sofar h.0 (omega (arith, k)))
    ∙ edit_line cs (sofar ++ (c ∷ [])) h.1 (omega (arith, k, length-append sofar (c ∷ [])))
    ∙ ap (λ l. record { done = l; typed = [] }) (append_assoc sofar (c ∷ []) (cs ++ (newline ∷ [])))

share_line :
    (n target : ℕ) (text : List ℕ)
    → All IsPrintable text
    → length text < n
    → share false target n (text ++ (newline ∷ []))
      ≡ record { taken = text ++ (newline ∷ []); left = []; end = finished }
share_line zero target text h k = absurd (omega (arith, k))
share_line (suc n) target [] h k = refl
share_line (suc n) target (c ∷ cs) h k =
    ground (arith, share_line n target cs h.1 (omega (arith, k)))

printable_bytes :
    (text : List ℕ) → All IsPrintable text → All (λ c. c < 256) (text ++ (newline ∷ []))
printable_bytes [] h = (omega arith, tt)
printable_bytes (c ∷ cs) h = (omega (arith, h.0), printable_bytes cs h.1)

-- A line of printable characters that fits the buffer, typed with its newline into an empty buffer,
-- is given to a process that asks for as many bytes, whole and in order, and the buffer is empty again.
pub typed_line_is_read :
    (text : List ℕ) (n : ℕ) (t : Console)
    → Inv t
    → view t ≡ record { done = []; typed = [] }
    → All IsPrintable text
    → (length text < 128) × (length text < n)
    → let p = consoleread false n (consoleintr (text ++ (newline ∷ [])) t).ring in
      (p.bytes ≡ text ++ (newline ∷ []))
      × (p.status ≡ finished)
      × (ready p.ring ≡ [])
      × (line p.ring ≡ [])
typed_line_is_read text n t v e h k =
    let (v', typed) = consoleintr_refines (text ++ (newline ∷ [])) t (printable_bytes text h) v in
    let after : view (consoleintr (text ++ (newline ∷ [])) t)
        ≡ record { done = text ++ (newline ∷ []); typed = [] } =
      typed ∙ ap (edit_all (text ++ (newline ∷ []))) e ∙ edit_line text [] h (omega (arith, k.0)) in
    let reads =
      consoleread_refines false n (consoleintr (text ++ (newline ∷ [])) t).ring v'.valid in
    let shared = ap (λ l. share false n n l.done) after ∙ share_line n n text h k.1 in
    (
      reads.bytes ∙ ap (λ q. q.taken) shared,
      reads.status ∙ ap (λ q. q.end) shared,
      reads.left ∙ ap (λ q. q.left) shared,
      reads.edited ∙ ap (λ l. l.typed) after,
    )
