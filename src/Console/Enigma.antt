-- ===== src/Console/Enigma.antt =====
-- The cipher of B22CS052/Helpful/console.h. A read outside a string gives `none`: C leaves it
-- undefined.
pub mod Laws
use os_project.Base.{
  ℕ, zero, suc, ◌+◌, ◌-◌, ◌%◌, ◌≡◌, Option, none, some, List, [], ◌∷◌, ◌==◌, ltb, leb,
  if◌then◌else◌, codes, length, get_or,
}

-- `rotor_offsets`
pub record Offsets : Type 0 where
  pub first : ℕ
  pub second : ℕ
  pub third : ℕ

abbrev pub rotor_i : List ℕ
rotor_i = codes "EKMFLGDQVZNTOWYHXUSPAIBRCJ"

abbrev pub rotor_ii : List ℕ
rotor_ii = codes "AJDKSIRUXBLHWTMCQGZNPYFVOE"

abbrev pub rotor_iii : List ℕ
rotor_iii = codes "YRUHQSLDPXNGOKMIEBFZCWVJAT"

abbrev pub reflector : List ℕ
reflector = codes "BDFHJLCPRTXVZNYEIWGAKMUSQO"

abbrev pub plugboard : List ℕ
plugboard = codes "ABCDEFGHIJKLMNOPQRSTUVWXYZ"

infixl 5 ◌>>=◌
abbrev pub ◌>>=◌ : {A B : Type 0} → Option A → (A → Option B) → Option B
none >>= f = none
some a >>= f = f a

-- `text[i]`; the NUL stands behind the last letter.
unfoldable pub char_at : List ℕ → ℕ → Option ℕ
char_at text i = if leb i (length text) then some (get_or text i 0) else none

-- The C remainder of `plus - minus` by 26, where it is an index: the remainder of a negative number
-- is not positive.
unfoldable pub remainder : ℕ → ℕ → Option ℕ
remainder plus minus =
    if leb minus plus
    then some ((plus - minus) % 26)
    else if (minus - plus) % 26 == 0
    then some 0
    else none

-- `apply_rotor(c, rotor, plus - minus)`
unfoldable pub apply_rotor : ℕ → List ℕ → ℕ → ℕ → Option ℕ
unfolding remainder char_at
apply_rotor c rotor plus minus = remainder (c + plus) (b'A' + minus) >>= char_at rotor

-- `text[c - 'A']`
unfoldable pub apply_plate : ℕ → List ℕ → Option ℕ
unfolding char_at
apply_plate c text = if leb b'A' c then char_at text (c - b'A') else none

unfoldable pub apply_reflector : ℕ → Option ℕ
apply_reflector c = apply_plate c reflector

-- The offsets after a letter.
unfoldable pub advance : Offsets → Offsets
advance o =
    if ltb (o.first + 1) 26
    then record o { first = o.first + 1 }
    else if ltb (o.second + 1) 26
    then record o { first = 0; second = o.second + 1 }
    else record { first = 0; second = 0; third = o.third + 1 }

-- The steps up to the last rotor on the way back.
unfoldable pub cross : ℕ → Offsets → Option ℕ
unfolding apply_rotor apply_plate apply_reflector
cross c o = do
  p ← apply_plate c plugboard
  a ← apply_rotor p rotor_i o.first 0
  b ← apply_rotor a rotor_ii o.second 0
  d ← apply_rotor b rotor_iii o.third 0
  e ← apply_reflector d
  f ← apply_rotor e rotor_iii 0 o.third
  apply_rotor f rotor_ii 0 o.second

unfoldable pub encipher : ℕ → Offsets → Option ℕ
unfolding cross
encipher c o = cross c o >>= λ g. apply_rotor g rotor_i 0 o.first

unfoldable pub enigma : ℕ → Offsets → Option (ℕ × Offsets)
unfolding encipher
enigma c o = encipher c o >>= λ c'. some (c', advance o)
