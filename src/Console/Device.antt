-- ===== src/Console/Device.antt =====
-- Where the console puts its characters: the serial port and the screen. `consputc` of
-- B22CS052/Helpful/console.c, `uartputc` of B22CS052/Helpful/uart.c.
pub mod Laws
use os_project.Base.{
  ℕ, ◌+◌, ◌%◌, Bool, true, false, Option, none, some, List, [], ◌∷◌, ◌++◌, ◌==◌, if◌then◌else◌,
}
use os_project.Console.Screen.{Crt, backspace, cgaputc}

pub record Device : Type 0 where
  pub crt : Crt
  pub has_uart : Bool
  pub serial : List ℕ  -- the bytes that went out
  pub panicked : Bool

-- The wait for the transmitter, at most 128 rounds, ends in the write in any case.
unfoldable pub uartputc : ℕ → Device → Device
uartputc c d = if d.has_uart then record d { serial = d.serial ++ (c % 256 ∷ []) } else d

unfoldable pub show : ℕ → Device → Device
show c d = elim (cgaputc c d.crt) [
  | none ↦ record d { panicked = true }
  | some s ↦ record d { crt = s }
]

-- A device that has panicked stays as it is: the code freezes there.
unfoldable pub consputc : ℕ → Device → Device
consputc c d =
    if d.panicked
    then d
    else if c == backspace
    then show c (uartputc 0x08 (uartputc 0x20 (uartputc 0x08 d)))
    else show c (uartputc c d)

unfoldable pub put_all : List ℕ → Device → Device
put_all [] d = d
put_all (c ∷ cs) d = put_all cs (consputc c d)

-- `consolewrite`, whose argument is the bytes of `buf`, gives back `n`.
unfoldable pub consolewrite : List ℕ → Device → Device
consolewrite [] d = d
consolewrite (c ∷ cs) d = consolewrite cs (consputc (c % 256) d)
