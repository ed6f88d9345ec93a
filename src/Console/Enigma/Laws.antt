-- ===== src/Console/Enigma/Laws.antt =====
-- The cipher of B22CS052/Helpful/console.h: its letters and its rotors.
use os_project.Base.{
  ℕ, zero, suc, ◌+◌, ◌*◌, ◌<◌, ◌≡◌, refl, Bool, true, false, ◌&&◌, ◌||◌, Option, none, some, List,
  ◌==◌, ltb, leb, arith, all_below, all_below_sound, length, get_or, is_lower, is_upper, Bool-cases,
  inl, inr,
}
use os_project.Console.Enigma.{
  Offsets, rotor_i, char_at, remainder, apply_rotor, advance, cross, encipher, enigma, ◌>>=◌,
}

-- The rotors in their 26 positions; the third counts on.
pub record IsValid (o : Offsets) : Type 0 where
  pub first_in : o.first < 26
  pub second_in : o.second < 26

-- The letters since the start, as the offsets count them.
abbrev pub count : Offsets → ℕ
count o = o.first + 26 * o.second + 676 * o.third

advance_lem : (o : Offsets) → IsValid o → IsValid (advance o) × (count (advance o) ≡ count o + 1)
unfolding advance
advance_lem o v = ground arith

-- A letter that is enciphered moves the rotors on by one place, as an odometer.
enigma_advances :
    (c c' : ℕ) (o o' : Offsets)
    → IsValid o
    → enigma c o ≡ some (c', o')
    → IsValid o' × (count o' ≡ count o + 1)
unfolding enigma
enigma_advances c c' o o' v e = ground (arith, advance_lem o v)

-- No lower-case letter can be enciphered, wherever the rotors are: the plugboard is read outside its
-- 26 letters.
pub enigma_lower : (c : ℕ) (o : Offsets) → is_lower c ≡ true → enigma c o ≡ none
unfolding enigma encipher
enigma_lower c o h = ground arith

-- What holds of a result, if there is one.
abbrev pub Result {ℓ} : {A : Type 0} → (A → Type ℓ) → Option A → Type ℓ
Result P none = Unit
Result P (some a) = P a

pub >>=-Result :
    {A B : Type 0} (P : A → Type 0) (Q : B → Type 0) (m : Option A) (f : A → Option B)
    → Result P m
    → ((a : A) → P a → Result Q (f a))
    → Result Q (m >>= f)
>>=-Result P Q none f h k = tt
>>=-Result P Q (some a) f h k = k a h

-- Only the last step matters for what holds of every result of it.
pub last_step :
    {A B : Type 0} (Q : B → Type 0) (m : Option A) (f : A → Option B)
    → ((a : A) → Result Q (f a))
    → Result Q (m >>= f)
last_step Q none f k = tt
last_step Q (some a) f k = k a

-- Every place of the text holds an upper-case letter.
abbrev IsPlate : List ℕ → Type 0
IsPlate text = (length text ≡ 26) × (all_below 26 (λ i. is_upper (get_or text i 0)) ≡ true)

rotor_i-IsPlate : IsPlate rotor_i
unfolding all_below
rotor_i-IsPlate = (refl, refl)

abbrev IsUpper : ℕ → Type 0
IsUpper c = is_upper c ≡ true

char_at-IsUpper : (text : List ℕ) (i : ℕ) → IsPlate text → i < 26 → Result IsUpper (char_at text i)
unfolding char_at
char_at-IsUpper text i p h = elim (Bool-cases (leb i (length text))) [
  | inl inside ↦ rw inside (all_below_sound 26 (λ j. is_upper (get_or text j 0)) i p.1 h)
  | inr outside ↦ rw outside tt
]

remainder-lt : (plus minus : ℕ) → Result (λ i. i < 26) (remainder plus minus)
unfolding remainder
remainder-lt plus minus = ground arith

apply_rotor-IsUpper :
    (text : List ℕ) (plus minus : ℕ)
    → IsPlate text
    → (c : ℕ) → Result IsUpper (apply_rotor c text plus minus)
unfolding apply_rotor
apply_rotor-IsUpper text plus minus p c =
    >>=-Result (λ i. i < 26) IsUpper (remainder (c + plus) (b'A' + minus)) (char_at text)
      (remainder-lt (c + plus) (b'A' + minus)) (λ i h. char_at-IsUpper text i p h)

encipher-IsUpper : (c : ℕ) (o : Offsets) → Result IsUpper (encipher c o)
unfolding encipher
encipher-IsUpper c o =
    last_step IsUpper (cross c o) _ λ g. apply_rotor-IsUpper rotor_i 0 o.first rotor_i-IsPlate g

-- What the cipher gives is an upper-case letter, wherever it gives anything.
pub enigma_upper : (c : ℕ) (o : Offsets) → Result (λ r. is_upper r.0 ≡ true) (enigma c o)
unfolding enigma
enigma_upper c o =
    >>=-Result IsUpper (λ r. is_upper r.0 ≡ true) (encipher c o) (λ c'. some (c', advance o))
      (encipher-IsUpper c o) (λ c' h. h)

abbrev pub standing : ℕ → ℕ → ℕ → Offsets
standing i j k = record { first = k; second = j; third = i }

-- A letter below the `n`-th that the cipher cannot read.
faulty : ℕ → Offsets → ℕ
faulty zero o = 0
faulty (suc n) o =
    let rest = faulty n o in elim (encipher (b'A' + n) o) [ none ↦ n | some _ ↦ rest ]

is_faulty : ℕ → ℕ → ℕ → Bool
is_faulty i j k =
    k == 0
    || (ltb (faulty 26 (standing i j k)) 26
        && elim (encipher (b'A' + faulty 26 (standing i j k)) (standing i j k)) [
          | none ↦ true
          | some _ ↦ false
        ])

faulty_table : all_below 26 (λ i. all_below 26 (λ j. all_below 26 (is_faulty i j))) ≡ true
unfolding all_below is_faulty faulty encipher
faulty_table = refl

-- In every position of the rotors in which the first one is not at its start there is an upper-case letter
-- for which the cipher reads outside one of its strings.
pub enigma_faults :
    (i j k : ℕ)
    → i < 26
    → j < 26
    → (0 < k) × (k < 26)
    → (c : ℕ) × (is_upper c ≡ true) × (enigma c (standing i j k) ≡ none)
unfolding enigma is_faulty
enigma_faults i j k m l h =
    let plane =
      all_below_sound 26 (λ i. all_below 26 (λ j. all_below 26 (is_faulty i j))) i faulty_table m in
    let row = all_below_sound 26 (λ j. all_below 26 (is_faulty i j)) j plane l in
    let entry = all_below_sound 26 (is_faulty i j) k row h.1 in
    (b'A' + faulty 26 (standing i j k), ground (arith, entry), ground (arith, entry))
