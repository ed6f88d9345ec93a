-- ===== src/Console/Autocomplete.antt =====
-- The completion of commands in B22ES019/autocomplete/console.c, and its interrupt. `none` is an access
-- outside an array that C leaves undefined.
pub mod Laws
pub mod Completion
use os_project.Base.{
  ℕ, zero, suc, ◌+◌, ◌-◌, ◌%◌, ◌^◌, Bool, true, false, not, ◌&&◌, ◌||◌, Option, none, some, List,
  [], ◌∷◌, map, ◌==◌, ltb, leb, if◌then◌else◌, codes, ctrl, length, add32, sub32,
}
use os_project.Console.Device.{consputc}
use os_project.Console.Editor.{Console, rub_out, kill_line, insert}
use os_project.Console.Enigma.{◌>>=◌}
use os_project.Console.Ring.{Ring, input_buf, append}

abbrev pub commands : List (List ℕ)
commands = map codes (
    "cat" ∷ "echo" ∷ "forktest" ∷ "grep" ∷ "init" ∷ "kill" ∷ "ln" ∷ "ls" ∷ "mkdir" ∷ "rm" ∷ "sh"
    ∷ "stressfs" ∷ "usertests" ∷ "wc" ∷ "zombie" ∷ "console" ∷ [])

-- `input.buf[i % INPUT_BUF]` for an `int` i: the remainder of a negative number is not positive.
unfoldable pub byte_at : Ring → ℕ → Option ℕ
byte_at s i =
    if ltb i (2 ^ 31)
    then some (s.buf (i % input_buf))
    else if i % input_buf == 0
    then some (s.buf 0)
    else none

-- The loop that looks for the start of the word; `start >= input.r` compares as unsigned. A round
-- takes one off `start`, which begins below `e`, so `e - r + 1` rounds are enough.
unfoldable pub find_start : ℕ → Ring → ℕ → Option ℕ
find_start zero s start = none
find_start (suc rounds) s start =
    if leb s.r start
    then (byte_at s start >>= λ c. elim (c == b' ') [
      | true ↦ some start
      | false ↦ find_start rounds s (sub32 start 1)
    ])
    else some start

-- The copy of the word, `n` characters from index `i` on.
unfoldable pub copy_word : Ring → ℕ → ℕ → Option (List ℕ)
copy_word s i zero = some []
copy_word s i (suc n) = byte_at s i >>= λ c. copy_word s (add32 i 1) n >>= λ cs. some (c ∷ cs)

abbrev pub head_or_nul : List ℕ → ℕ
head_or_nul [] = 0
head_or_nul (c ∷ cs) = c

abbrev pub rest : List ℕ → List ℕ
rest [] = []
rest (c ∷ cs) = cs

-- `strncmp` on two strings, their NULs left off.
unfoldable pub strncmp : ℕ → List ℕ → List ℕ → ℕ
strncmp zero p q = 0
strncmp (suc n) p q =
    let more = strncmp n (rest p) (rest q) in
    if not (head_or_nul p == 0) && head_or_nul p == head_or_nul q
    then more
    else sub32 (head_or_nul p) (head_or_nul q)

unfoldable pub find_command : List ℕ → List (List ℕ) → Option (List ℕ)
find_command word [] = none
find_command word (w ∷ ws) =
    if strncmp (length word) word w == 0 then some w else find_command word ws

-- The characters of the match behind the word.
unfoldable pub put_rest : List ℕ → Console → Console
put_rest [] t = t
put_rest (c ∷ cs) t = put_rest cs (record t { dev = consputc c t.dev; ring = append c t.ring })

abbrev pub drop : ℕ → List ℕ → List ℕ
drop zero l = l
drop (suc n) [] = []
drop (suc n) (x ∷ l) = drop n l

-- The word that stands in front of the cursor; `buf[word_len] = 0` wants a 128th place behind it.
unfoldable pub word_before : Ring → Option (List ℕ)
word_before s = find_start (sub32 s.e s.r + 1) s (sub32 s.e 1) >>= λ stop.
    let start = add32 stop 1 in
    let word_len = sub32 s.e start in
    if ltb word_len input_buf then copy_word s start word_len else none

unfoldable pub autocomplete : Console → Option Console
autocomplete t = word_before t.ring >>= λ word. elim (find_command word commands) [
  | none ↦ some t
  | some w ↦ some (put_rest (drop (length word) w) t)
]

-- The `switch`, without the note that Ctrl+P takes.
unfoldable pub handle : ℕ → Console → Option Console
handle c t =
    if c == ctrl b'P'
    then some t
    else if c == ctrl b'U'
    then some (kill_line (sub32 t.ring.e t.ring.w) t)
    else if c == 0x7f
    then some (rub_out t)
    else if c == 0x09
    then autocomplete t
    else if c == ctrl b'H'
    then some (rub_out t)
    else some (insert c t)

unfoldable pub drain : List ℕ → Bool → Console → Option (Bool × Console)
drain [] dump t = some (dump, t)
drain (c ∷ cs) dump t = handle c t >>= λ t'. drain cs (dump || c == ctrl b'P') t'

unfoldable pub consoleintr : List ℕ → Console → Option Console
unfolding drain
consoleintr cs t =
    drain cs false t >>= λ r. some (if r.0 then record (r.1) { dumps = r.1.dumps + 1 } else r.1)
