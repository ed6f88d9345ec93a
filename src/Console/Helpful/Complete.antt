-- ===== src/Console/Helpful/Complete.antt =====
-- `auto_complete` of B22CS052/Helpful/console.c and the words of console.h.

use os_project.Base.{
  ℕ, zero, suc, ◌+◌, ◌-◌, Bool, true, false, not, ◌&&◌, Option, none, some, List, [], ◌∷◌, map,
  ◌==◌, ltb, if◌then◌else◌, sub32, newline, codes, length,
}
use os_project.Console.Helpful.State.{Console, Outside, peek, put_char, wake, echo}
use os_project.Console.Ring.{Ring, has_room, is_full, last, drop_last, commit}
use os_project.Console.Screen.{backspace}

abbrev pub autocomplete_words : List (List ℕ)
autocomplete_words = map codes (
    "hello" ∷ "world" ∷ "example" ∷ "system" ∷ "function" ∷ "process" ∷ "command" ∷ "terminal"
    ∷ "keyboard" ∷ "display" ∷ "program" ∷ "error" ∷ "message" ∷ "input" ∷ "output" ∷ "file"
    ∷ "directory" ∷ "network" ∷ "memory" ∷ "control" ∷ "action" ∷ "window" ∷ "mouse" ∷ "data"
    ∷ "program" ∷ "execute" ∷ "script" ∷ "task" ∷ "initialize" ∷ "load" ∷ "save" ∷ "update"
    ∷ "restart" ∷ "shutdown" ∷ "pause" ∷ "continue" ∷ "start" ∷ "stop" ∷ "navigate" ∷ "search"
    ∷ "create" ∷ "delete" ∷ "move" ∷ "copy" ∷ "paste" ∷ "cut" ∷ "help" ∷ "config" ∷ "option"
    ∷ "user" ∷ [])

-- The bytes in front of `e` back to a blank or to `r`, in the order of the text; `n` bytes from `r` on
-- are left to look at. The indices are not reduced; `none` is a write behind `word_to_match`.
unfoldable pub current_word : Outside → Ring → ℕ → List ℕ → Option (List ℕ)
current_word out s zero word = some word
current_word out s (suc n) word =
    let c = peek out s (s.r + n) in
    let more = current_word out s n (c ∷ word) in
    if c == b' ' then some word else if ltb (length word) 128 then more else none

-- `j > q` at the end of the comparison: the whole typed word has been matched.
unfoldable pub is_prefix : List ℕ → List ℕ → Bool
is_prefix [] word = true
is_prefix (c ∷ cs) [] = false
is_prefix (c ∷ cs) (d ∷ ds) = d == c && is_prefix cs ds

unfoldable pub find_word : List ℕ → List (List ℕ) → Option (List ℕ)
find_word typed [] = none
find_word typed (w ∷ ws) = if is_prefix typed w then some w else find_word typed ws

-- The typed word goes. A round takes a byte off the line.
unfoldable pub erase_word : ℕ → Console → Console
erase_word zero t = t
erase_word (suc rounds) t =
    let s = t.ring in
    let more = erase_word rounds (echo backspace (record t { ring = drop_last s })) in
    if ltb s.r s.e && (not (s.e == s.w) && (not (last s == newline) && not (last s == b' ')))
    then more
    else t

-- The word of the list comes.
unfoldable pub put_word : List ℕ → Console → Console
put_word [] t = t
put_word (c ∷ cs) t =
    let t' = put_char c t in
    let more =
      put_word cs (if is_full t'.ring then wake (record t' { ring = commit t'.ring }) else t') in
    if has_room t.ring then more else t

-- What follows the search for the typed word.
unfoldable pub complete_word : List ℕ → Console → Console
complete_word typed t = elim (find_word typed autocomplete_words) [
  | none ↦ t
  | some word ↦
      if length typed == 0 then t else put_word word (erase_word (sub32 t.ring.e t.ring.w) t)
]

unfoldable pub auto_complete : Outside → Console → Option Console
auto_complete out t = elim (current_word out t.ring (t.ring.e - t.ring.r) []) [
  | none ↦ none
  | some typed ↦ some (complete_word typed t)
]
