-- ===== src/Console/Screen/Laws.antt =====
-- `cgaputc` of B22CS052/Helpful/console.c: the cursor and the cells.
use os_project.Base.{
  ℕ, ◌+◌, ◌-◌, ◌*◌, ◌%◌, ◌≤◌, ◌<◌, ◌≡◌, ◌≢◌, ◌⊎◌, refl, some, arith, newline, update,
}
use os_project.Console.Screen.{
  Crt, backspace, blank, put_cell, settle, show_cursor, cgaputc, print_unicode_hindi,
}

-- The cursor is in the first 24 rows.
abbrev pub IsValid : Crt → Type 0
IsValid s = s.pos < 24 * 80

show_cursor-IsValid : (s : Crt) → s.pos ≤ 24 * 80 → IsValid (show_cursor s)
unfolding show_cursor
show_cursor-IsValid s h = ground arith

settle_lem : (s : Crt) → s.pos ≤ 24 * 80 → (s' : Crt) × (settle s ≡ some s') × IsValid s'
unfolding settle
settle_lem s h = (show_cursor s, ground arith, show_cursor-IsValid s h)

-- From a cursor in the first 24 rows no character, whatever its code, leads to the panic, and the
-- cursor stays in the first 24 rows.
pub cgaputc_total :
    (c : ℕ) (s : Crt) → IsValid s → (s' : Crt) × (cgaputc c s ≡ some s') × IsValid s'
unfolding cgaputc
cgaputc_total c s h = settle_lem _ (ground arith)

-- A printable character goes under the cursor, which moves one cell on to a blank; no other cell
-- changes. (On the last cell of row 23 the screen scrolls instead.)
pub cgaputc_char :
    (c : ℕ) (s : Crt)
    → s.pos + 1 < 24 * 80
    → (c ≢ newline) × (c ≢ backspace) × ((c < 0x0900) ⊎ (0x097f < c))
    → (s' : Crt) × (cgaputc c s ≡ some s')
      × (s'.pos ≡ s.pos + 1)
      × (s'.cell s.pos ≡ c % 256 + 0x0700)
      × (s'.cell (s.pos + 1) ≡ blank)
      × ((i : ℕ) → i ≢ s.pos → i ≢ s.pos + 1 → s'.cell i ≡ s.cell i)
unfolding cgaputc settle show_cursor
cgaputc_char c s h k = (
  record {
    cell = update (update s.cell s.pos (c % 256 + 0x0700)) (s.pos + 1) blank;
    pos = s.pos + 1;
  },
  ground arith,
  refl,
  ground arith,
  ground arith,
  λ i n m. ground arith,
)

-- A character on the last cell of row 23 scrolls the screen: every row moves one up, the character
-- with it, and the new last row is blank with the cursor at its start.
pub cgaputc_scrolls :
    (c : ℕ) (s : Crt)
    → s.pos ≡ 24 * 80 - 1
    → (c ≢ newline) × (c ≢ backspace) × ((c < 0x0900) ⊎ (0x097f < c))
    → (s' : Crt) × (cgaputc c s ≡ some s')
      × (s'.pos ≡ 23 * 80)
      × ((i : ℕ) → i < 23 * 80 - 1 → s'.cell i ≡ s.cell (i + 80))
      × (s'.cell (23 * 80 - 1) ≡ c % 256 + 0x0700)
      × (s'.cell (23 * 80) ≡ blank)
      × ((i : ℕ) → 23 * 80 < i → i < 24 * 80 → s'.cell i ≡ 0)
unfolding cgaputc settle show_cursor
cgaputc_scrolls c s h k = (
  show_cursor (put_cell 0x0700 c s),
  ground (arith, k),
  ground arith,
  λ i n. ground arith,
  ground arith,
  ground arith,
  λ i n m. ground arith,
)

-- A Devanagari code leaves no trace on the screen: the glyph is blanked with the cursor's cell.
pub cgaputc_hindi_lost :
    (c : ℕ) (s : Crt)
    → s.pos < 24 * 80
    → (0x0900 ≤ c) × (c ≤ 0x097f)
    → (s' : Crt) × (cgaputc c s ≡ some s')
      × (s'.pos ≡ s.pos)
      × (s'.cell s.pos ≡ blank)
      × ((i : ℕ) → i ≢ s.pos → s'.cell i ≡ s.cell i)
unfolding cgaputc settle show_cursor
cgaputc_hindi_lost c s h k = (
  show_cursor (print_unicode_hindi c s),
  ground (arith, k),
  ground arith,
  ground arith,
  λ i n. ground arith,
)
