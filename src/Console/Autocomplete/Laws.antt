-- ===== src/Console/Autocomplete/Laws.antt =====
-- `put_rest` and `find_start` of the completion in B22ES019/autocomplete/console.c on the buffer.
use os_project.Base.{
  ℕ, zero, suc, ◌+◌, ◌%◌, ◌^◌, ◌≤◌, ◌<◌, ◌≡◌, ◌≢◌, refl, sym, ◌∙◌, ap, none, List, [], ◌∷◌, ◌++◌,
  arith, length, add32, sub32, All,
}
use mathlib.Core.List.{append_assoc, append-nil}
use os_project.Console.Autocomplete.{byte_at, find_start, put_rest, word_before, autocomplete}
use os_project.Console.Device.{consputc}
use os_project.Console.Editor.{Console}
use os_project.Console.Ring.{Ring, input_buf, append}
use os_project.Console.Ring.View.{IsValid, ready, line, append-IsValid, ready-append, line-append}

abbrev with_char : ℕ → Console → Console
with_char c t = record t { dev = consputc c t.dev; ring = append c t.ring }

-- Where the buffer has room for the characters that complete a word, they come to the end of the
-- line, and what is ready stays.
pub put_rest-line :
    (cs : List ℕ) (t : Console)
    → IsValid t.ring
    → All (λ c. c < 256) cs
    → sub32 t.ring.e t.ring.r + length cs ≤ input_buf
    → IsValid (put_rest cs t).ring
      × (ready (put_rest cs t).ring ≡ ready t.ring)
      × (line (put_rest cs t).ring ≡ line t.ring ++ cs)
unfolding put_rest append
put_rest-line [] t v b h = (v, refl, sym (append-nil (line t.ring)))
put_rest-line (c ∷ cs) t v b h =
    let room : sub32 t.ring.e t.ring.r < input_buf = omega (arith, h) in
    let byte : c % 256 ≡ c = omega (arith, b.0) in
    let (valid, kept, longer) =
      put_rest-line cs (with_char c t) (append-IsValid c t.ring v room) b.1
        (omega (arith, h, v.words, room)) in
    (
      valid,
      kept ∙ ready-append c t.ring v room,
      longer
          ∙ ap (λ l. l ++ cs) (line-append c t.ring v room ∙ ap (λ d. line t.ring ++ (d ∷ [])) byte)
          ∙ append_assoc (line t.ring) (c ∷ []) cs,
    )

-- The distance of the indices grows by every character, whether or not there is room.
put_rest_e :
    (cs : List ℕ) (t : Console)
    → t.ring.e < 2 ^ 32
    → ((put_rest cs t).ring.e ≡ add32 t.ring.e (length cs)) × ((put_rest cs t).ring.r ≡ t.ring.r)
unfolding put_rest append
put_rest_e [] t h = omega (arith, h)
put_rest_e (c ∷ cs) t h =
    let ih = put_rest_e cs (with_char c t) (omega arith) in (ih.0 ∙ omega (arith, h), ih.1)

-- A completion that has not the room it needs breaks the buffer: more than 128 bytes stand between
-- the indices afterwards.
put_rest_overruns :
    (cs : List ℕ) (t : Console)
    → IsValid t.ring
    → length cs ≤ input_buf
    → input_buf < sub32 t.ring.e t.ring.r + length cs
    → ¬ IsValid (put_rest cs t).ring
put_rest_overruns cs t v s h w =
    let (e, r) = put_rest_e cs t (omega (arith, v.words)) in omega (arith, v, w, e, r, s, h)

find_start-none :
    (k : ℕ) (s : Ring)
    → s.r ≡ 0
    → k < input_buf
    → ((i : ℕ) → i < k → s.buf i ≢ b' ')
    → find_start (suc k) s (sub32 k 1) ≡ none
unfolding find_start byte_at
find_start-none zero s r h b = ground arith
find_start-none (suc k) s r h b =
    let start : sub32 (suc k) 1 ≡ k = omega (arith, h) in
    let place : k % input_buf ≡ k = omega (arith, h) in
    let letter : s.buf k ≢ b' ' = b k (omega arith) in
    let before = find_start-none k s r (omega (arith, h)) (λ i l. b i (omega (arith, l))) in
    ground (arith, start, place, letter, before)

-- On the first line after the start, with no blank in it, the search for the start of the word reads
-- in front of the buffer: no unsigned number is below an `r` of 0.
autocomplete_first_line :
    (t : Console)
    → t.ring.r ≡ 0
    → t.ring.e < input_buf
    → ((i : ℕ) → i < t.ring.e → t.ring.buf i ≢ b' ')
    → autocomplete t ≡ none
unfolding autocomplete word_before
autocomplete_first_line t r e h =
    let rounds : sub32 t.ring.e t.ring.r + 1 ≡ suc t.ring.e = omega (arith, r, e) in
    rw (rounds, find_start-none t.ring.e t.ring r e h)
