-- ===== src/Console/Helpful/Laws/Modes.antt =====
-- The branches of `consoleintr` in B22CS052/Helpful/console.c for encryption and the devil mode.
use os_project.Base.{
  ℕ, ◌+◌, ◌-◌, ◌%◌, ◌≤◌, ◌<◌, ◌≡◌, true, ◌&&◌, none, some, [], ◌∷◌, leb, if◌then◌else◌, arith,
  is_lower, update,
}
use native.Mathlib.Decide.{dec_lt}
use os_project.Console.Enigma.Laws.{enigma_lower}
use os_project.Console.Helpful.Devil.{five, handle_devil_mode}
use os_project.Console.Helpful.Interrupt.{
  Flags, handle, drain, encrypt, tease, devil, finish, no_flags, consoleintr,
}
use os_project.Console.Helpful.State.{Console, Outside, say, echo}

handle_encrypted :
    (out : Outside) (c : ℕ) (f : Flags) (t : Console)
    → c < 1000
    → t.track_enigma < 128
    → handle out (c + 1000) f t
      ≡ some (
        record f { is_encrypt = true; c_ = c },
        record t {
          previous_line = update t.previous_line t.track_enigma (c % 256);
          track_enigma = t.track_enigma + 1;
        },
      )
unfolding handle
handle_encrypted out c f t h k =
    let back : c + 1000 - 1000 ≡ c = omega arith in ground (arith, back)

handle_overflow :
    (out : Outside) (c : ℕ) (f : Flags) (t : Console)
    → c < 1000
    → 128 ≤ t.track_enigma
    → handle out (c + 1000) f t ≡ none
unfolding handle
handle_overflow out c f t h k = ground arith

encrypt_lower_none : (c : ℕ) (t : Console) → is_lower c ≡ true → encrypt c t ≡ none
unfolding encrypt echo
encrypt_lower_none c t h = let fails = enigma_lower c t.offsets h in ground (arith, h, fails)

-- The character after 128 others in the encryption mode with no newline between them is written
-- behind the array.
pub encrypt_overflow :
    (out : Outside) (c : ℕ) (t : Console)
    → c < 1000
    → 128 ≤ t.track_enigma
    → consoleintr out ((c + 1000) ∷ []) t ≡ none
unfolding consoleintr
encrypt_overflow out c t h k = rw (handle_overflow out c no_flags t h k, drain)

-- A lower-case letter typed in the encryption mode is never shown: whatever the state, an array is
-- accessed outside its bounds.
pub encrypt_lower :
    (out : Outside) (c : ℕ) (t : Console)
    → is_lower c ≡ true
    → consoleintr out ((c + 1000) ∷ []) t ≡ none
unfolding consoleintr finish
encrypt_lower out c t h = elim (dec_lt t.track_enigma 128) [
  | yes k ↦
      rw (handle_encrypted out c no_flags t (ground (arith, h)) k, drain) (encrypt_lower_none c _ h)
  | no k ↦ encrypt_overflow out c t (ground (arith, h)) (omega arith)
]

handle_devil :
    (out : Outside) (c : ℕ) (f : Flags) (t : Console)
    → c < 500
    → handle out (c + 2000) f t
      ≡ some (
        record f { devil_mode = true; c_ = c },
        record t { frustration_level = t.frustration_level + 1 },
      )
unfolding handle
handle_devil out c f t h = let back : c + 2000 - 2000 ≡ c = omega arith in ground (arith, back)

handle_devil_mode_keeps :
    (c : ℕ) (t : Console)
    → c < 500
    → ((handle_devil_mode c t).ring ≡ t.ring)
      × ((handle_devil_mode c t).reboots ≡ t.reboots + (if leb 225 c && leb c 227 then 1 else 0))
      × ((handle_devil_mode c t).frustration_level ≡ t.frustration_level)
unfolding handle_devil_mode say echo five
handle_devil_mode_keeps c t h = ground arith

tease_keeps :
    (t : Console)
    → ((tease t).ring ≡ t.ring)
      × ((tease t).reboots ≡ t.reboots)
      × ((tease t).frustration_level ≡ t.frustration_level)
unfolding tease
tease_keeps t = ground arith

devil_keeps :
    (c : ℕ) (t : Console)
    → c < 500
    → ((devil c t).ring ≡ t.ring)
      × ((devil c t).reboots ≡ t.reboots + (if leb 225 c && leb c 227 then 1 else 0))
      × ((devil c t).frustration_level ≡ t.frustration_level)
unfolding devil say echo
devil_keeps c t h = ground (arith, tease_keeps t, handle_devil_mode_keeps c (tease t) h)

-- A key of the devil mode leaves the input buffer as it is; it restarts the machine exactly for the
-- three codes 225 to 227, and counts one more frustration.
pub devil_key :
    (out : Outside) (c : ℕ) (t : Console)
    → c < 500
    → (t' : Console) × (consoleintr out ((c + 2000) ∷ []) t ≡ some t')
      × (t'.ring ≡ t.ring)
      × (t'.reboots ≡ t.reboots + (if leb 225 c && leb c 227 then 1 else 0))
      × (t'.frustration_level ≡ t.frustration_level + 1)
unfolding consoleintr finish
devil_key out c t h =
    let t₁ : Console = record t { frustration_level = t.frustration_level + 1 } in
    let (ring, reboots, level) = devil_keeps c t₁ h in
    (devil c t₁, rw (handle_devil out c no_flags t h, drain), ring, reboots, level)
