-- ===== src/Console/Helpful/Laws/Ring.antt =====
-- The indices of the input buffer through every branch of `consoleintr` in B22CS052/Helpful/console.c.
use os_project.Base.{
  ℕ, zero, suc, ◌+◌, ◌-◌, ◌≡◌, ◌≢◌, refl, sym, true, ◌||◌, some, List, [], ◌∷◌, ◌==◌, if◌then◌else◌,
  arith, sub32, int_of_char, Bool-cases, Option-cases, inl, inr, newline, update,
}
use mathlib.Core.Path.{subst}
use os_project.Console.Enigma.{◌>>=◌, enigma}
use os_project.Console.Enigma.Laws.{Result, >>=-Result, last_step}
use os_project.Console.Helpful.Complete.{
  current_word, find_word, erase_word, put_word, complete_word, auto_complete, autocomplete_words,
}
use os_project.Console.Helpful.Devil.{five, handle_devil_mode}
use os_project.Console.Helpful.Interrupt.{
  Flags, erase, kill_line, remember, end_line, insert, rub_out, select, handle, drain, clear_screen,
  guide, handle_new_line_enigma, encrypt, tease, devil, finish, no_flags, consoleintr,
}
use os_project.Console.Helpful.State.{
  Console, Outside, say, echo, put_char, wake, strlen, slice, copy, paste_chars, paste, clear_line,
  recall, get_prev_line, line_byte, peek,
}
use os_project.Console.Ring.{has_room, is_full, append, drop_last, commit}
use os_project.Console.Screen.{backspace}
use os_project.Console.Ring.View.{IsValid, append-IsValid, drop_last-IsValid, commit-IsValid}

abbrev pub IsSound : Console → Type 0
IsSound t = IsValid t.ring

put_char-IsSound :
    (c : ℕ) (t : Console) → IsSound t → has_room t.ring ≡ true → IsSound (put_char c t)
unfolding put_char
put_char-IsSound c t v h = append-IsValid c t.ring v (ground (arith, h))

paste_chars-IsSound : (cs : List ℕ) (t : Console) → IsSound t → IsSound (paste_chars cs t)
unfolding paste_chars
paste_chars-IsSound [] t v = v
paste_chars-IsSound (c ∷ cs) t v = elim (Bool-cases (has_room t.ring)) [
  | inl h ↦ rw h (paste_chars-IsSound cs (put_char c t) (put_char-IsSound c t v h))
  | inr h ↦ rw h v
]

recall-IsSound :
    (out : Outside) (n i beyond : ℕ) (t : Console) → IsSound t → IsSound (recall out n i beyond t)
unfolding recall
recall-IsSound out zero i beyond t v = v
recall-IsSound out (suc n) i beyond t v =
    let c = line_byte out t.previous_line i beyond in
    ground (
      arith,
      put_char-IsSound c t v,
      recall-IsSound out n (i - 1) (if i == 0 then beyond + 1 else beyond) (put_char c t),
    )

erase-IsSound : (t : Console) → IsSound t → t.ring.e ≢ t.ring.w → IsSound (erase t)
unfolding erase echo
erase-IsSound t v ne = drop_last-IsValid t.ring v ne

kill_line-IsSound : (n : ℕ) (t : Console) → IsSound t → IsSound (kill_line n t)
unfolding kill_line
kill_line-IsSound zero t v = v
kill_line-IsSound (suc n) t v = ground (arith, erase-IsSound t v, kill_line-IsSound n (erase t))

erase_word-IsSound : (n : ℕ) (t : Console) → IsSound t → IsSound (erase_word n t)
unfolding erase_word echo
erase_word-IsSound zero t v = v
erase_word-IsSound (suc n) t v = ground (
  arith,
  drop_last-IsValid t.ring v,
  erase_word-IsSound n (echo backspace (record t { ring = drop_last t.ring })),
)

put_word-IsSound : (cs : List ℕ) (t : Console) → IsSound t → IsSound (put_word cs t)
unfolding put_word wake
put_word-IsSound [] t v = v
put_word-IsSound (c ∷ cs) t v =
    let t' = put_char c t in
    ground (
      arith,
      put_char-IsSound c t v,
      commit-IsValid t'.ring,
      put_word-IsSound cs t',
      put_word-IsSound cs (wake (record t' { ring = commit t'.ring })),
    )

remember_ring :
    (out : Outside) (n q : ℕ) (t : Console) → Result (λ t'. t'.ring ≡ t.ring) (remember out n q t)
unfolding remember
remember_ring out zero q t = refl
remember_ring out (suc n) q t =
    let c = peek out t.ring (sub32 (t.ring.r + suc n) 2) in
    ground
      (arith, remember_ring out n (q + 1) (record t { previous_line = update t.previous_line q c }))

end_line-IsSound :
    (out : Outside) (c : ℕ) (t : Console) → IsSound t → Result IsSound (end_line out c t)
unfolding end_line wake
end_line-IsSound out c t v =
    let ended : Result IsSound (
        remember out (t.ring.e - t.ring.r) 0 t >>= λ t'.
        some (wake (record t' { ring = commit t'.ring }))) =
      >>=-Result (λ t'. t'.ring ≡ t.ring) IsSound (remember out (t.ring.e - t.ring.r) 0 t) _
        (remember_ring out (t.ring.e - t.ring.r) 0 t)
        (λ t' same. subst (λ r. IsValid (commit r)) (sym same) (commit-IsValid t.ring v)) in
    elim (Bool-cases (c == newline || (c == 4 || is_full t.ring))) [
      | inl y ↦ rw y ended
      | inr y ↦ rw y v
    ]

insert-IsSound : (out : Outside) (c : ℕ) (t : Console) → IsSound t → Result IsSound (insert out c t)
unfolding insert echo
insert-IsSound out code t v =
    let c = if code == 0x0d then newline else code in
    ground (
      arith,
      append-IsValid c t.ring v,
      end_line-IsSound out c (echo c (record t { ring = append c t.ring })),
    )

complete_word-IsSound : (typed : List ℕ) (t : Console) → IsSound t → IsSound (complete_word typed t)
unfolding complete_word
complete_word-IsSound typed t v =
    let word_in = λ (w : List ℕ).
      put_word-IsSound w (erase_word (sub32 t.ring.e t.ring.w) t)
        (erase_word-IsSound (sub32 t.ring.e t.ring.w) t v) in
    elim (Option-cases (find_word typed autocomplete_words)) [
      | inl e ↦ rw (e, complete_word) v
      | inr (w, e) ↦ rw (e, complete_word) (ground (arith, word_in w))
    ]

auto_complete-IsSound :
    (out : Outside) (t : Console) → IsSound t → Result IsSound (auto_complete out t)
unfolding auto_complete
auto_complete-IsSound out t v =
    elim (Option-cases (current_word out t.ring (t.ring.e - t.ring.r) [])) [
      | inl e ↦ rw (e, auto_complete) tt
      | inr (typed, e) ↦ rw (e, auto_complete) (complete_word-IsSound typed t v)
    ]

say-IsSound : (text : List ℕ) (t : Console) → IsSound t → IsSound (say text t)
unfolding say
say-IsSound text t v = v

-- What holds of a console that comes out, if one does.
abbrev pub SoundPair : Flags × Console → Type 0
SoundPair r = IsSound r.1

paste-IsSound : (t : Console) → IsSound t → Result IsSound (paste t)
unfolding paste
paste-IsSound t v = elim (Option-cases (strlen t.clipboard)) [
  | inl e ↦ rw (e, paste) tt
  | inr (n, e) ↦ rw (e, paste) (paste_chars-IsSound (slice t.clipboard 0 n) t v)
]

get_prev_line-IsSound :
    (out : Outside) (t : Console) → IsSound t → Result IsSound (get_prev_line out t)
unfolding get_prev_line clear_line
get_prev_line-IsSound out t v = elim (Option-cases (strlen t.previous_line)) [
  | inl e ↦ rw (e, get_prev_line) tt
  | inr (n, e) ↦ rw (e, get_prev_line) (recall-IsSound out 128 n 0 t v)
]

select-IsSound :
    (out : Outside) (c : ℕ) (f : Flags) (t : Console)
    → IsSound t
    → Result SoundPair (select out c f t)
unfolding select copy rub_out
select-IsSound out c f t v =
    let pasted : Result SoundPair (paste t >>= λ t'. some (f, t')) =
      >>=-Result IsSound SoundPair (paste t) (λ t'. some (f, t')) (paste-IsSound t v) (λ t' h. h) in
    let inserted : Result SoundPair (insert out c t >>= λ t'. some (f, t')) =
      >>=-Result IsSound SoundPair (insert out c t) (λ t'. some (f, t')) (insert-IsSound out c t v)
        (λ t' h. h) in
    ground
      (arith, pasted, kill_line-IsSound (sub32 t.ring.e t.ring.w) t v, erase-IsSound t v, inserted)

pub handle-IsSound :
    (out : Outside) (c : ℕ) (f : Flags) (t : Console)
    → IsSound t
    → Result SoundPair (handle out c f t)
unfolding handle
handle-IsSound out c f t v = ground (arith, select-IsSound out c f t v)

pub drain-IsSound :
    (out : Outside) (cs : List ℕ) (f : Flags) (t : Console)
    → IsSound t
    → Result SoundPair (drain out cs f t)
unfolding drain
drain-IsSound out [] f t v = v
drain-IsSound out (c ∷ cs) f t v =
    >>=-Result SoundPair SoundPair (handle out c f t) (λ r. drain out cs r.0 r.1)
      (handle-IsSound out c f t v) (λ r h. drain-IsSound out cs r.0 r.1 h)

new_line-IsSound : (t : Console) → IsSound t → Result IsSound (handle_new_line_enigma t)
unfolding handle_new_line_enigma clear_line
new_line-IsSound t v =
    >>=-Result (λ _. Unit) IsSound (strlen t.previous_line) _ (ground arith) (λ n _. v)

encrypt-IsSound : (c : ℕ) (t : Console) → IsSound t → Result IsSound (encrypt c t)
unfolding encrypt echo wake
encrypt-IsSound c t v =
    let t₁ = echo c t in
    let new_line : Result IsSound (handle_new_line_enigma t >>= λ t'. some (wake (echo c t'))) =
      >>=-Result IsSound IsSound (handle_new_line_enigma t) _ (new_line-IsSound t v) (λ t' h. h) in
    let letter : Result IsSound (
        enigma c t₁.offsets >>= λ r.
        some (echo (int_of_char r.0) (echo backspace (record t₁ { offsets = r.1 })))) =
      last_step IsSound (enigma c t₁.offsets) _ (λ r. v) in
    ground (arith, new_line, letter)

devil_ring : (c : ℕ) (t : Console) → (devil c t).ring ≡ t.ring
unfolding devil tease handle_devil_mode say echo five
devil_ring c t = ground arith

finish-IsSound :
    (out : Outside) (f : Flags) (t : Console) → IsSound t → Result IsSound (finish out f t)
unfolding finish clear_screen guide say wake
finish-IsSound out f t v =
    let devil_ok : IsSound (devil f.c_ t) = rw (devil_ring f.c_ t) v in
    ground (
      arith,
      auto_complete-IsSound out t v,
      get_prev_line-IsSound out t v,
      encrypt-IsSound f.c_ t v,
      devil_ok,
    )

-- Whatever codes the keyboard gives, and whatever lies outside the arrays, an interrupt that ends
-- leaves the indices of the buffer in order and at most 128 bytes apart.
pub consoleintr-IsValid :
    (out : Outside) (cs : List ℕ) (t t' : Console)
    → IsValid t.ring
    → consoleintr out cs t ≡ some t'
    → IsValid t'.ring
unfolding consoleintr
consoleintr-IsValid out cs t t' v e = subst (Result IsSound) e (
    >>=-Result SoundPair IsSound (drain out cs no_flags t) (λ r. finish out r.0 r.1)
      (drain-IsSound out cs no_flags t v) (λ r h. finish-IsSound out r.0 r.1 h))
