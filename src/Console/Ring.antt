-- ===== src/Console/Ring.antt =====
-- The input buffer of the consoles, `struct { char buf[INPUT_BUF]; uint r, w, e; } input`: bytes from
-- `r` to `w` are ready to be read, those from `w` to `e` are still edited. The indices run on through
-- the `uint`s and are taken modulo INPUT_BUF where the array is accessed.
pub mod View
use os_project.Base.{ℕ, ◌+◌, ◌%◌, Bool, ◌==◌, ltb, if◌then◌else◌, update, add32, sub32}

abbrev pub input_buf : ℕ
input_buf = 128

pub record Ring : Type 0 where
  pub buf : ℕ → ℕ
  pub r : ℕ
  pub w : ℕ
  pub e : ℕ

-- `input.e - input.r < INPUT_BUF`
abbrev pub has_room : Ring → Bool
has_room s = ltb (sub32 s.e s.r) input_buf

-- `input.e == input.r + INPUT_BUF`
abbrev pub is_full : Ring → Bool
is_full s = s.e == add32 s.r input_buf

-- `input.buf[input.e++ % INPUT_BUF] = c`
unfoldable pub append : ℕ → Ring → Ring
append c s = record s { buf = update s.buf (s.e % input_buf) (c % 256); e = add32 s.e 1 }

-- `input.buf[(input.e-1) % INPUT_BUF]`
abbrev pub last : Ring → ℕ
last s = s.buf (sub32 s.e 1 % input_buf)

-- `input.e--`
unfoldable pub drop_last : Ring → Ring
drop_last s = record s { e = sub32 s.e 1 }

-- `input.w = input.e`
unfoldable pub commit : Ring → Ring
commit s = record s { w = s.e }
