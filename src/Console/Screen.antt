-- ===== src/Console/Screen.antt =====
-- The CGA text screen: `cgaputc` of B22CS052/Helpful/console.c.
pub mod Laws
use os_project.Base.{
  ℕ, ◌+◌, ◌-◌, ◌*◌, ◌/◌, ◌%◌, Bool, true, false, ◌&&◌, Option, none, some, ◌==◌, ltb, leb,
  if◌then◌else◌, newline, update,
}

-- The cells of the video memory, and the cursor of the controller's two registers.
pub record Crt : Type 0 where
  pub cell : ℕ → ℕ
  pub pos : ℕ

abbrev pub backspace : ℕ
backspace = 0x100

-- `' ' | 0x0700`
abbrev pub blank : ℕ
blank = 0x0720

-- `crt[pos++] = (c&0xff) | attribute`; an attribute is a multiple of 256.
unfoldable pub put_cell : ℕ → ℕ → Crt → Crt
put_cell attribute c s = record {
  cell = update s.cell s.pos (c % 256 + attribute);
  pos = s.pos + 1;
}

-- `memmove(crt, crt+80, 23 rows); pos -= 80; memset(crt+pos, 0, up to the end of row 23);`
unfoldable pub scroll : Crt → Crt
scroll s = record {
  cell = λ i.
      if leb (s.pos - 80) i && ltb i (24 * 80)
      then 0
      else if ltb i (23 * 80)
      then s.cell (i + 80)
      else s.cell i;
  pos = s.pos - 80;
}

-- The scroll from row 24 on; the cell under the cursor is blanked.
unfoldable pub show_cursor : Crt → Crt
unfolding scroll
show_cursor s =
    let s' = if leb 24 (s.pos / 80) then scroll s else s in
    record s' { cell = update s'.cell s'.pos blank }

-- From the bounds check on; `none` is the panic.
unfoldable pub settle : Crt → Option Crt
settle s = if ltb (25 * 80) s.pos then none else some (show_cursor s)

-- Where the cursor is while the character is handled.
unfoldable pub next_row : Crt → Crt
next_row s = record s { pos = s.pos + (80 - s.pos % 80) }

unfoldable pub step_back : Crt → Crt
step_back s = if ltb 0 s.pos then record s { pos = s.pos - 1 } else s

-- `print_unicode_hindi`: the low byte of the code, the cursor left where it is.
unfoldable pub print_unicode_hindi : ℕ → Crt → Crt
print_unicode_hindi c s = record s { cell = update s.cell s.pos (c % 256 + 0x0700) }

unfoldable pub cgaputc : ℕ → Crt → Option Crt
unfolding next_row step_back print_unicode_hindi put_cell
cgaputc c s = settle (
    if c == newline
    then next_row s
    else if c == backspace
    then step_back s
    else if leb 0x0900 c && leb c 0x097f
    then print_unicode_hindi c s
    else put_cell 0x0700 c s)
