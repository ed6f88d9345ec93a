-- ===== src/Console/Reader.antt =====
-- `consoleread` of B22CS052/Helpful/console.c (the same in every folder): what a process takes from
-- the input buffer.
pub mod Laws
use os_project.Base.{
  ℕ, zero, suc, ◌%◌, Bool, true, false, List, [], ◌∷◌, ◌==◌, ltb, if◌then◌else◌, add32, sub32,
  newline, ctrl,
}
use os_project.Console.Ring.{Ring, input_buf}

-- How a pass over the buffer ends: with the reader's return, with -1 for a killed process, or asleep
-- with so many bytes still wanted, to go on from there when it is woken.
pub data Status : Type 0 where
  finished : Status
  interrupted : Status
  asleep : ℕ → Status

pub record Pass : Type 0 where
  pub bytes : List ℕ  -- what was copied to `dst`
  pub ring : Ring
  pub status : Status

abbrev stop : List ℕ → Ring → Status → Pass
stop bytes s st = record { bytes = bytes; ring = s; status = st }

-- The outer loop, with `n` bytes wanted out of `target`.
unfoldable pub read_bytes : Bool → ℕ → ℕ → Ring → Pass
read_bytes killed target zero s = stop [] s finished
read_bytes killed target (suc n) s =
    let c = s.buf (s.r % input_buf) in
    let s' : Ring = record s { r = add32 s.r 1 } in
    let more = read_bytes killed target n s' in
    if s.r == s.w
    then stop [] s (if killed then interrupted else asleep (suc n))
    else if c == ctrl b'D'
    then stop [] (if ltb (suc n) target then record s' { r = sub32 s'.r 1 } else s') finished
    else if c == newline
    then stop (c ∷ []) s' finished
    else record more { bytes = c ∷ more.bytes }

unfoldable pub consoleread : Bool → ℕ → Ring → Pass
consoleread killed n s = read_bytes killed n n s
