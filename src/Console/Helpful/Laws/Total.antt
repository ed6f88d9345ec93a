-- ===== src/Console/Helpful/Laws/Total.antt =====
-- The writes of the interrupt of B22CS052/Helpful/console.c to `previous_line` and `word_to_match`, for the
-- codes that lead to no string and no letter of the cipher.
use os_project.Base.{
  ℕ, zero, suc, ◌+◌, ◌-◌, newline, update, length, sub32, ◌==◌, if◌then◌else◌, ◌≤◌, ◌<◌, ◌≡◌, ◌≢◌,
  ◌⊎◌, refl, false, none, some, List, [], ◌∷◌, arith, All, Option-cases, inl, inr,
}
use mathlib.Core.Path.{subst}
use os_project.Console.Enigma.Laws.{Result}
use os_project.Console.Helpful.Interrupt.{
  Flags, remember, end_line, insert, select, handle, drain, finish, no_flags, consoleintr,
}
use os_project.Console.Helpful.Complete.{current_word, auto_complete}
use os_project.Console.Helpful.Laws.Ring.{
  SoundPair, handle-IsSound, drain-IsSound, consoleintr-IsValid,
}
use os_project.Console.Helpful.State.{Console, Outside, peek, echo}
use os_project.Console.Ring.View.{IsValid, append-IsValid}
use os_project.Console.Ring.{Ring, append}

-- A code below the encryption's other than Ctrl+V and the arrow up, or one of the commands.
abbrev pub IsSimple : ℕ → Type 0
IsSimple c = ((c < 1000) × (c ≢ 22) × (c ≢ 226)) ⊎ (2500 ≤ c)

abbrev NoString : Flags → Type 0
NoString f = (f.up_key ≡ false) × (f.is_encrypt ≡ false)

remember_total : (out : Outside) (n q : ℕ) (t : Console) → q + n ≤ 128 → remember out n q t ≢ none
unfolding remember
remember_total out zero q t h = ground arith
remember_total out (suc n) q t h =
    let c = peek out t.ring (sub32 (t.ring.r + suc n) 2) in
    ground (
      arith,
      h,
      remember_total out n (q + 1) (record t { previous_line = update t.previous_line q c })
          (omega (arith, h)),
    )

end_line_total : (out : Outside) (c : ℕ) (t : Console) → IsValid t.ring → end_line out c t ≢ none
unfolding end_line
end_line_total out c t v =
    ground (arith, remember_total out (t.ring.e - t.ring.r) 0 t (omega (arith, v.words, v.fits)))

insert_total : (out : Outside) (c : ℕ) (t : Console) → IsValid t.ring → insert out c t ≢ none
unfolding insert echo
insert_total out code t v =
    let c = if code == 0x0d then newline else code in
    ground (
      arith,
      append-IsValid c t.ring v,
      end_line_total out c (echo c (record t { ring = append c t.ring })),
    )

current_word_total :
    (out : Outside) (s : Ring) (n : ℕ) (word : List ℕ)
    → length word + n ≤ 128
    → current_word out s n word ≢ none
unfolding current_word
current_word_total out s zero word h = ground arith
current_word_total out s (suc n) word h =
    ground (arith, h, current_word_total out s n (peek out s (s.r + n) ∷ word) (omega (arith, h)))

auto_complete_total : (out : Outside) (t : Console) → IsValid t.ring → auto_complete out t ≢ none
unfolding auto_complete
auto_complete_total out t v =
    ground (
      arith,
      current_word_total out t.ring (t.ring.e - t.ring.r) [] (omega (arith, v.words, v.fits)),
    )

select_simple :
    (out : Outside) (c : ℕ) (f : Flags) (t : Console)
    → IsSimple c
    → NoString f
    → IsValid t.ring
    → (select out c f t ≢ none) × Result (λ r. NoString r.0) (select out c f t)
unfolding select
select_simple out c f t h k v = ground (arith, h, k, insert_total out c t v)

handle_simple :
    (out : Outside) (c : ℕ) (f : Flags) (t : Console)
    → IsSimple c
    → NoString f
    → IsValid t.ring
    → (handle out c f t ≢ none) × Result (λ r. NoString r.0) (handle out c f t)
unfolding handle
handle_simple out c f t h k v = ground (arith, select_simple out c f t h k v, h)

drain_simple :
    (out : Outside) (cs : List ℕ) (f : Flags) (t : Console)
    → All IsSimple cs
    → NoString f
    → IsValid t.ring
    → (drain out cs f t ≢ none) × Result (λ r. NoString r.0) (drain out cs f t)
unfolding drain
drain_simple out [] f t h k v = ground (arith, k)
drain_simple out (c ∷ cs) f t h k v = elim (Option-cases (handle out c f t)) [
  | inl e ↦ absurd ((handle_simple out c f t h.0 k v).0 e)
  | inr (r, e) ↦
      let kept : NoString r.0 =
        subst (Result (λ q. NoString q.0)) e (handle_simple out c f t h.0 k v).1 in
      let valid : IsValid r.1.ring = subst (Result SoundPair) e (handle-IsSound out c f t v) in
      rw e (drain_simple out cs r.0 r.1 h.1 kept valid)
]

finish_simple :
    (out : Outside) (f : Flags) (t : Console) → NoString f → IsValid t.ring → finish out f t ≢ none
unfolding finish
finish_simple out f t k v = ground (arith, k, auto_complete_total out t v)

no_fault :
    (out : Outside) (cs : List ℕ) (t : Console)
    → All IsSimple cs
    → IsValid t.ring
    → consoleintr out cs t ≢ none
unfolding consoleintr
no_fault out cs t h v =
    let all = drain_simple out cs no_flags t h (refl, refl) v in
    elim (Option-cases (drain out cs no_flags t)) [
      | inl e ↦ absurd (all.0 e)
      | inr (r, e) ↦
          let kept : NoString r.0 = subst (Result (λ q. NoString q.0)) e all.1 in
          let valid : IsValid r.1.ring =
            subst (Result SoundPair) e (drain-IsSound out cs no_flags t v) in
          rw e (finish_simple out r.0 r.1 kept valid)
    ]

-- From indices that are in order and at most 128 apart, an interrupt whose codes are plain ones and commands,
-- none of them the paste, the arrow up or an encrypted character, writes nothing behind the 128 bytes of
-- `previous_line`, where a line that ends is kept, or of `word_to_match`, where the completion puts the
-- typed word, whatever bytes it reads around the buffer; and it leaves the indices in order and at most
-- 128 apart.
pub consoleintr_total :
    (out : Outside) (cs : List ℕ) (t : Console)
    → All IsSimple cs
    → IsValid t.ring
    → (t' : Console) × (consoleintr out cs t ≡ some t') × IsValid t'.ring
consoleintr_total out cs t h v = elim (Option-cases (consoleintr out cs t)) [
  | inl e ↦ absurd (no_fault out cs t h v e)
  | inr (t', e) ↦ (t', e, consoleintr-IsValid out cs t t' v e)
]
