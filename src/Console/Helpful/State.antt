-- ===== src/Console/Helpful/State.antt =====
-- The state of B22CS052/Helpful/console.c, and the two strings that it keeps: the clipboard and the
-- previous line.
use os_project.Base.{
  ℕ, zero, suc, ◌+◌, ◌-◌, Bool, false, not, ◌&&◌, ◌||◌, Option, none, some, List, [], ◌∷◌, ◌==◌,
  ltb, if◌then◌else◌, int_of_char, newline,
}
use os_project.Console.Device.{Device, consputc}
use os_project.Console.Enigma.{Offsets}
use os_project.Console.Print.{cprintf}
use os_project.Console.Ring.{Ring, input_buf, has_room, append}

pub record Console : Type 0 where
  pub ring : Ring
  pub dev : Device
  pub wakes : ℕ  -- the calls of `wakeup(&input.r)`
  pub dumps : ℕ  -- the calls of `procdump()`
  pub reboots : ℕ  -- the writes of 0xFE to port 0x64
  pub clipboard : ℕ → ℕ
  pub previous_line : ℕ → ℕ
  pub track_enigma : ℕ
  pub frustration_level : ℕ
  pub offsets : Offsets

-- What C leaves undefined and the machine decides: the byte that a read of `input.buf` outside its
-- 128 bytes gives, by the index as a word, and the bytes in front of `previous_line`, by distance.
pub record Outside : Type 0 where
  pub near_buf : Ring → ℕ → ℕ
  pub before_line : ℕ → ℕ

-- `input.buf[i]`, with no reduction of the index.
unfoldable pub peek : Outside → Ring → ℕ → ℕ
peek out s i = if ltb i input_buf then s.buf i else out.near_buf s i

-- `cprintf` of a text with no argument.
unfoldable pub say : List ℕ → Console → Console
say text t = record t { dev = cprintf (record { word = λ i. 0; string_at = λ a. [] }) text t.dev }

unfoldable pub echo : ℕ → Console → Console
echo c t = record t { dev = consputc c t.dev }

-- `input.buf[input.e++ % INPUT_BUF] = c; consputc(c);` for a `char`.
unfoldable pub put_char : ℕ → Console → Console
put_char c t = record t { ring = append c t.ring; dev = consputc (int_of_char c) t.dev }

unfoldable pub wake : Console → Console
wake t = record t { wakes = t.wakes + 1 }

-- `strlen`, from index `i` on with `room` bytes left; `none` where it runs past the array.
unfoldable pub strlen_from : (ℕ → ℕ) → ℕ → ℕ → Option ℕ
strlen_from mem i zero = none
strlen_from mem i (suc room) =
    let more = strlen_from mem (i + 1) room in if mem i == 0 then some i else more

unfoldable pub strlen : (ℕ → ℕ) → Option ℕ
unfolding strlen_from
strlen mem = strlen_from mem 0 128

-- The characters of an array from index `i` on.
unfoldable pub slice : (ℕ → ℕ) → ℕ → ℕ → List ℕ
slice mem i zero = []
slice mem i (suc n) = mem i ∷ slice mem (i + 1) n

-- Whether a NUL stands in the first `n` bytes.
unfoldable pub has_nul : (ℕ → ℕ) → ℕ → Bool
has_nul mem zero = false
has_nul mem (suc n) = has_nul mem n || mem n == 0

-- `strncpy(clipboard, input.buf, 128)`: from the start of the array, zeros behind the first NUL.
unfoldable pub copy : Console → Console
unfolding has_nul
copy t = record t {
  clipboard = λ i.
      if ltb i input_buf then (if has_nul t.ring.buf i then 0 else t.ring.buf i) else t.clipboard i;
}

-- The loop of Ctrl+V, with the characters still to come.
unfoldable pub paste_chars : List ℕ → Console → Console
paste_chars [] t = t
paste_chars (c ∷ cs) t =
    let more = paste_chars cs (put_char c t) in if has_room t.ring then more else t

unfoldable pub paste : Console → Option Console
unfolding slice
paste t = elim (strlen t.clipboard) [
  | none ↦ none
  | some n ↦ some (paste_chars (slice t.clipboard 0 n) t)
]

-- `strncpy(previous_line, "", 128)`
unfoldable pub clear_line : Console → Console
clear_line t = record t { previous_line = λ i. if ltb i 128 then 0 else t.previous_line i }

-- `previous_line[i - 1]`, from the array or from in front of it.
abbrev pub line_byte : Outside → (ℕ → ℕ) → ℕ → ℕ → ℕ
line_byte out mem zero beyond = out.before_line beyond
line_byte out mem (suc i) beyond = mem i

-- The loop of `get_prev_line`: index `i - 1`, or `beyond` bytes in front of the array. A round takes
-- a byte of the buffer's room, so 128 rounds are enough.
unfoldable pub recall : Outside → ℕ → ℕ → ℕ → Console → Console
recall out zero i beyond t = t
recall out (suc rounds) i beyond t =
    let c = line_byte out t.previous_line i beyond in
    let more = recall out rounds (i - 1) (if i == 0 then beyond + 1 else beyond) (put_char c t) in
    if not (c == newline) && (not (c == 0) && has_room t.ring) then more else t

unfoldable pub get_prev_line : Outside → Console → Option Console
get_prev_line out t = elim (strlen t.previous_line) [
  | none ↦ none
  | some n ↦ some (clear_line (recall out 128 n 0 t))
]
