-- ===== src/Console/Tests.antt =====
-- The consoles on concrete states: tests, and the theorems at inputs that meet their hypotheses.
use os_project.Base.{
  ℕ, ◌≤◌, ◌≡◌, ◌≢◌, ◌<◌, ◌%◌, inl, refl, true, false, ◌&&◌, none, some, List, [], ◌∷◌, ◌++◌, ◌==◌,
  if◌then◌else◌, arith, codes, newline, length, is_upper, is_negative,
}
use os_project.Console.Annoying.{Machine}
use os_project.Console.Annoying as Annoying
use os_project.Console.Annoying.Laws.{consoleintr_lock}
use os_project.Console.Autocomplete.{commands, autocomplete}
use os_project.Console.Autocomplete.Completion.{IsLetter, completion, autocomplete-line}
use os_project.Console.Bgcolor as Bgcolor
use os_project.Console.Bgcolor.Laws.{SameLine, flipped, consoleintr-SameLine}
use os_project.Console.Device.{Device, consputc}
use os_project.Console.Device.Laws.{put_all-IsValid}
use os_project.Console.Device.Laws as Device
use os_project.Console.Editor.{Console, consoleintr}
use os_project.Console.Editor.Refine.{Inv, view, edit_all, consoleintr_refines}
use os_project.Console.Enigma.{Offsets, enigma, advance}
use os_project.Console.Enigma.Laws.{standing, enigma_faults}
use os_project.Console.Helpful.Interrupt as Interrupt
use os_project.Console.Helpful.Laws.Ring.{consoleintr-IsValid}
use os_project.Console.Helpful.Laws.Total.{consoleintr_total}
use os_project.Console.Helpful.State.{Outside}
use os_project.Console.Helpful.State as State
use os_project.Console.Print.{Args, printint}
use os_project.Console.Print.Laws.{printint_reads_back, read_digits, magnitude}
use os_project.Console.Reader.{finished, consoleread}
use os_project.Console.Reader.Laws.{Reads, share, consoleread_refines}
use os_project.Console.Ring.{Ring, drop_last, input_buf}
use os_project.Console.Ring.View.{IsValid, ready, line}
use os_project.Console.Screen.{Crt, backspace, cgaputc}
use os_project.Console.Screen.Laws.{
  cgaputc_total, cgaputc_char, cgaputc_scrolls, cgaputc_hindi_lost,
}
use os_project.Console.Screen.Laws as Screen
use os_project.Console.Session.{typed_line_is_read}

abbrev crt_at : ℕ → Crt
crt_at n = record { cell = λ i. 0; pos = n }

abbrev dev : Device
dev = record { crt = crt_at 0; has_uart = true; serial = []; panicked = false }

abbrev fresh : Ring
fresh = record { buf = λ i. 0; r = 0; w = 0; e = 0 }

-- "ls" typed behind a line that is ready.
abbrev typed : Ring
typed = record {
  buf = λ i. if i == 0 then b'a' else if i == 1 then newline else if i == 2 then b'l' else b's';
  r = 0;
  w = 2;
  e = 4;
}

abbrev coloured : Ring → Bgcolor.Console
coloured s = record { ring = s; dev = dev; bg_color = Bgcolor.default_color; wakes = 0; dumps = 0 }

abbrev console : Ring → Console
console s = record { ring = s; dev = dev; wakes = 0; dumps = 0 }

abbrev offsets : ℕ → Offsets
offsets k = record { first = k; second = 0; third = 0 }

abbrev helpful : ℕ → State.Console
helpful k = record {
  ring = typed;
  dev = dev;
  wakes = 0;
  dumps = 0;
  reboots = 0;
  clipboard = λ i. 0;
  previous_line = λ i. 0;
  track_enigma = k;
  frustration_level = 4;
  offsets = offsets 0;
}

abbrev out : Outside
out = record { near_buf = λ s i. 0xff; before_line = λ i. 0 }

abbrev machine : Machine
machine = record { console = console fresh; locked = false; reboots = 0 }

ready_typed : ready typed ≡ codes "a\n"
ready_typed = refl

line_typed : line typed ≡ codes "ls"
line_typed = refl

fresh-IsValid : IsValid fresh
fresh-IsValid = omega arith

typed-IsValid : IsValid typed
typed-IsValid = omega arith

dev-IsValid : Device.IsValid dev
dev-IsValid = record { runs = refl; cursor = omega arith }

consoleintr_refines_example :
    Inv (consoleintr (codes "x\n") (console typed))
    × (view (consoleintr (codes "x\n") (console typed))
        ≡ edit_all (codes "x\n") (view (console typed)))
consoleintr_refines_example =
    consoleintr_refines (codes "x\n") (console typed) (omega arith, (omega arith, tt))
      (record { valid = typed-IsValid; no_newline = (omega arith, (omega arith, tt)) })

typed_line_is_read_example :
    let p = consoleread false 5 (consoleintr (codes "ls" ++ (newline ∷ [])) (console fresh)).ring in
    (p.bytes ≡ codes "ls" ++ (newline ∷ []))
    × (p.status ≡ finished)
    × (ready p.ring ≡ [])
    × (line p.ring ≡ [])
typed_line_is_read_example =
    typed_line_is_read (codes "ls") 5 (console fresh)
      (record { valid = fresh-IsValid; no_newline = tt }) refl
      ((omega arith, omega arith), ((omega arith, omega arith), tt)) (omega arith, omega arith)

consoleread_refines_example :
    Reads typed (consoleread false 5 typed) (share false 5 5 (ready typed))
consoleread_refines_example = consoleread_refines false 5 typed typed-IsValid

-- A backspace, and Ctrl+P.
abbrev shortened : Ring
shortened = record typed { e = 3 }

abbrev after_backspace : State.Console
after_backspace = record (helpful 0) { ring = shortened; dev = consputc backspace dev; dumps = 1 }

consoleintr-IsValid_example : IsValid shortened
unfolding Interrupt.consoleintr Interrupt.handle Interrupt.rub_out Interrupt.erase Interrupt.finish
    State.echo drop_last
consoleintr-IsValid_example =
    consoleintr-IsValid out (8 ∷ 16 ∷ []) (helpful 0) after_backspace typed-IsValid refl

cgaputc_total_example : (s' : Crt) × (cgaputc newline (crt_at 1900) ≡ some s') × Screen.IsValid s'
cgaputc_total_example = cgaputc_total newline (crt_at 1900) (omega arith)

printint_reads_back_example :
    (ds : List ℕ) × (printint 4294967289 10 true
      ≡ (if true && is_negative 4294967289 then b'-' ∷ ds else ds))
    × (read_digits 10 0 ds ≡ magnitude 4294967289 true)
    × (length (printint 4294967289 10 true) ≤ 16)
printint_reads_back_example =
    printint_reads_back 4294967289 10 true (omega arith) (omega arith, omega arith)

abbrev args : Args
args = record { word = λ i. 7; string_at = λ a. [] }

enigma_A : enigma b'A' (offsets 0) ≡ some (b'U', offsets 1)
unfolding enigma advance
enigma_A = refl

enigma_faults_example : (c : ℕ) × (is_upper c ≡ true) × (enigma c (standing 2 3 1) ≡ none)
enigma_faults_example = enigma_faults 2 3 1 (omega arith) (omega arith) (omega arith, omega arith)

consoleintr_lock_example :
    ((c : ℕ)
      → (m' : Machine) × (Annoying.consoleintr (c ∷ []) machine ≡ some m') × (m'.locked ≡ false))
    × (Annoying.consoleintr [] machine ≡ some (record machine { locked = true }))
    × ((cs : List ℕ) → Annoying.consoleintr cs (record machine { locked = true }) ≡ none)
    × ((c d : ℕ) (cs : List ℕ) → Annoying.consoleintr (c ∷ d ∷ cs) machine ≡ none)
consoleintr_lock_example = consoleintr_lock machine refl

-- "x ec" typed.
abbrev half_typed : Ring
half_typed = record {
  buf = λ i. if i == 0 then b'x' else if i == 1 then b' ' else if i == 2 then b'e' else b'c';
  r = 0;
  w = 0;
  e = 4;
}

half_typed-IsValid : IsValid half_typed
half_typed-IsValid = omega arith

half_typed_letters :
    (j : ℕ)
    → 1 < j
    → j < 4
    → IsLetter (half_typed.buf (j % input_buf)) × (half_typed.buf (j % input_buf) ≢ b' ')
half_typed_letters j a z = ground (arith, a, z)

-- "echo" is the first command that starts with "ec".
half_typed_completion : completion (codes "ec") commands ≡ codes "ho"
half_typed_completion = refl

autocomplete-line_example :
    (t' : Console) × (autocomplete (console half_typed) ≡ some t')
    × IsValid t'.ring
    × (ready t'.ring ≡ ready half_typed)
    × (line t'.ring ≡ line half_typed ++ completion (codes "ec") commands)
autocomplete-line_example =
    autocomplete-line 1 (console half_typed) half_typed-IsValid (omega arith) (omega arith)
      (omega arith) refl half_typed_letters (omega arith)

abbrev full : Ring
full = record typed { e = 127 }

full-IsValid : IsValid full
full-IsValid = omega arith

abbrev first_line : Ring
first_line = record { buf = λ i. b'c'; r = 0; w = 0; e = 2 }

consoleintr_total_example :
    (t' : State.Console) × (Interrupt.consoleintr out (b'o' ∷ 9 ∷ newline ∷ []) (helpful 0)
      ≡ some t')
    × IsValid t'.ring
consoleintr_total_example =
    consoleintr_total out (b'o' ∷ 9 ∷ newline ∷ []) (helpful 0)
      (
        inl (omega arith, omega arith, omega arith),
        (
          inl (omega arith, omega arith, omega arith),
          (inl (omega arith, omega arith, omega arith), tt),
        ),
      )
      typed-IsValid

consoleintr-SameLine_example :
    SameLine
      (Bgcolor.consoleintr (2 ∷ b'o' ∷ 2 ∷ newline ∷ []) (coloured typed))
      (consoleintr (b'o' ∷ newline ∷ []) (console typed))
    × ((Bgcolor.consoleintr (2 ∷ b'o' ∷ 2 ∷ newline ∷ []) (coloured typed)).bg_color
        ≡ flipped (2 ∷ b'o' ∷ 2 ∷ newline ∷ []) (coloured typed).bg_color)
    × (Bgcolor.consoleintr (2 ∷ 2 ∷ b'o' ∷ 2 ∷ newline ∷ []) (coloured typed)
        ≡ Bgcolor.consoleintr
            (2 ∷ b'o' ∷ 2 ∷ newline ∷ [])
            (record (coloured typed) { bg_color = flipped (2 ∷ []) (coloured typed).bg_color }))
consoleintr-SameLine_example =
    consoleintr-SameLine (2 ∷ b'o' ∷ 2 ∷ newline ∷ []) (coloured typed) (console typed)
      (refl, refl, refl)
