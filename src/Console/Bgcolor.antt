-- ===== src/Console/Bgcolor.antt =====
-- The console whose background changes with Ctrl+B, B22ES019/bgcolor_change/console.c.
pub mod Laws
use os_project.Base.{
  ℕ, zero, suc, ◌+◌, Bool, true, false, not, ◌&&◌, ◌||◌, Option, none, some, List, [], ◌∷◌, ◌==◌,
  if◌then◌else◌, sub32, newline, ctrl,
}
use os_project.Console.Device.{Device, uartputc}
use os_project.Console.Ring.{Ring, has_room, is_full, append, last, drop_last, commit}
use os_project.Console.Screen.{Crt, backspace, put_cell, settle, next_row, step_back}

-- The value of `bg_color` at the start, light grey on black.
abbrev pub default_color : ℕ
default_color = 0x0700

pub record Console : Type 0 where
  pub ring : Ring
  pub dev : Device
  pub bg_color : ℕ
  pub wakes : ℕ  -- the calls of `wakeup(&input.r)`
  pub dumps : ℕ  -- the calls of `procdump()`

unfoldable pub cgaputc : ℕ → ℕ → Crt → Option Crt
cgaputc bg_color c s = settle (
    if c == newline
    then next_row s
    else if c == backspace
    then step_back s
    else put_cell bg_color c s)

unfoldable pub show : ℕ → ℕ → Device → Device
show bg_color c d = elim (cgaputc bg_color c d.crt) [
  | none ↦ record d { panicked = true }
  | some s ↦ record d { crt = s }
]

unfoldable pub consputc : ℕ → ℕ → Device → Device
consputc bg_color c d =
    if d.panicked
    then d
    else if c == backspace
    then show bg_color c (uartputc 0x08 (uartputc 0x20 (uartputc 0x08 d)))
    else show bg_color c (uartputc c d)

unfoldable pub erase : Console → Console
erase t = record t { ring = drop_last t.ring; dev = consputc t.bg_color backspace t.dev }

-- The loop of Ctrl+U; a round takes a byte off the line, so `e - w` rounds are enough.
unfoldable pub kill_line : ℕ → Console → Console
kill_line zero t = t
kill_line (suc rounds) t =
    let more = kill_line rounds (erase t) in
    if t.ring.e == t.ring.w || last t.ring == newline then t else more

unfoldable pub rub_out : Console → Console
rub_out t = if t.ring.e == t.ring.w then t else erase t

unfoldable pub end_line : ℕ → Console → Console
end_line c t =
    if c == newline || (c == ctrl b'D' || is_full t.ring)
    then record t { ring = commit t.ring; wakes = t.wakes + 1 }
    else t

-- The default branch.
unfoldable pub insert : ℕ → Console → Console
insert code t =
    let c = if code == 0x0d then newline else code in
    if not (code == 0) && has_room t.ring
    then end_line c (record t { ring = append c t.ring; dev = consputc t.bg_color c t.dev })
    else t

-- Ctrl+B.
unfoldable pub toggle : Console → Console
toggle t = record t { bg_color = if t.bg_color == default_color then 0x1000 else default_color }

-- The `switch`, without the note that Ctrl+P takes.
unfoldable pub handle : ℕ → Console → Console
handle c t =
    if c == ctrl b'P'
    then t
    else if c == ctrl b'U'
    then kill_line (sub32 t.ring.e t.ring.w) t
    else if c == ctrl b'B'
    then toggle t
    else if c == ctrl b'H' || c == 0x7f
    then rub_out t
    else insert c t

unfoldable pub drain : List ℕ → Bool → Console → Bool × Console
drain [] dump t = (dump, t)
drain (c ∷ cs) dump t = drain cs (dump || c == ctrl b'P') (handle c t)

unfoldable pub consoleintr : List ℕ → Console → Console
unfolding drain
consoleintr cs t =
    let (dump, t') = drain cs false t in if dump then record t' { dumps = t'.dumps + 1 } else t'
