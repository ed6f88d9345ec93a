-- ===== src/Console/Device/Laws.antt =====
-- `consputc` of B22CS052/Helpful/console.c: the cursor, the panic flag and the serial line.
use os_project.Base.{
  ℕ, ◌*◌, ◌%◌, ◌<◌, ◌≡◌, ◌≢◌, refl, ◌∙◌, ap, sym, true, false, List, [], ◌∷◌, ◌++◌, arith, All, map,
}
use mathlib.Core.List.{append_assoc, append-nil}
use os_project.Console.Screen.{backspace}
use os_project.Console.Screen.Laws.{cgaputc_total}
use os_project.Console.Device.{Device, uartputc, show, consputc, put_all, consolewrite}

-- The device runs, and its cursor is in the first 24 rows.
pub record IsValid (d : Device) : Type 0 where
  pub runs : d.panicked ≡ false
  pub cursor : d.crt.pos < 24 * 80

show-IsValid : (c : ℕ) (d : Device) → IsValid d → IsValid (show c d)
unfolding show
show-IsValid c d v =
    let (s, e, h) = cgaputc_total c d.crt v.cursor in
    rw (e, show) (record { runs = v.runs; cursor = h })

uartputc-IsValid : (c : ℕ) (d : Device) → IsValid d → IsValid (uartputc c d)
unfolding uartputc
uartputc-IsValid c d v = ground arith

pub consputc-IsValid : (c : ℕ) (d : Device) → IsValid d → IsValid (consputc c d)
unfolding consputc
consputc-IsValid c d v = ground (
  arith,
  show-IsValid c (uartputc c d) (uartputc-IsValid c d v),
  show-IsValid c _ (uartputc-IsValid 0x08 _ (uartputc-IsValid 0x20 _ (uartputc-IsValid 0x08 d v))),
)

-- Whatever is written, the device keeps running with its cursor on the screen.
pub put_all-IsValid : (cs : List ℕ) (d : Device) → IsValid d → IsValid (put_all cs d)
unfolding put_all
put_all-IsValid [] d v = v
put_all-IsValid (c ∷ cs) d v = put_all-IsValid cs (consputc c d) (consputc-IsValid c d v)

serial-consputc :
    (c : ℕ) (d : Device)
    → IsValid d
    → d.has_uart ≡ true
    → c ≢ backspace
    → ((consputc c d).serial ≡ d.serial ++ (c % 256 ∷ [])) × ((consputc c d).has_uart ≡ true)
unfolding consputc uartputc show
serial-consputc c d v u ne = ground (arith, cgaputc_total c d.crt v.cursor)

-- The text that is put out reaches the serial port whole and in order, as bytes.
serial-put_all :
    (cs : List ℕ) (d : Device)
    → IsValid d
    → d.has_uart ≡ true
    → All (λ c. c ≢ backspace) cs
    → (put_all cs d).serial ≡ d.serial ++ map (λ c. c % 256) cs
unfolding put_all
serial-put_all [] d v u h = sym (append-nil d.serial)
serial-put_all (c ∷ cs) d v u h =
    let (s, u') = serial-consputc c d v u h.0 in
    serial-put_all cs (consputc c d) (consputc-IsValid c d v) u' h.1
    ∙ ap (λ l. l ++ map (λ c. c % 256) cs) s
    ∙ append_assoc d.serial (c % 256 ∷ []) (map (λ c. c % 256) cs)

-- `consolewrite` puts out the bytes of the buffer: on the device that is `put_all` of them.
pub consolewrite-put_all :
    (cs : List ℕ) (d : Device) → consolewrite cs d ≡ put_all (map (λ c. c % 256) cs) d
unfolding consolewrite put_all
consolewrite-put_all [] d = refl
consolewrite-put_all (c ∷ cs) d = consolewrite-put_all cs (consputc (c % 256) d)
