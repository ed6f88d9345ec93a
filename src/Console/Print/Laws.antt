-- ===== src/Console/Print/Laws.antt =====
-- The digits of `printint` and the formats of `cprintf`, B22CS052/Helpful/console.c.
use os_project.Base.{
  ℕ, zero, suc, ◌+◌, ◌-◌, ◌*◌, ◌/◌, ◌%◌, ◌^◌, ◌≤◌, ◌<◌, ◌≡◌, ◌≢◌, refl, ◌∙◌, ap, Bool, false, ◌&&◌,
  List, [], ◌∷◌, ◌++◌, ◌==◌, ltb, if◌then◌else◌, arith, length, All, sub32, is_negative, Bool-cases,
  inl, inr,
}
use native.Mathlib.Nat.{le_trans, pow-le-pow_left, div-add-mod', pow-suc, div-lt_iff_lt-mul}
use Prim.Native.Nat.pow
use os_project.Console.Print.{digit, put_digits, printint, Args, directive, takes, format}

-- The value of a digit character.
abbrev pub digit_value : ℕ → ℕ
digit_value c = if ltb c b'a' then c - b'0' else c - b'a' + 10

-- The number that digits spell, read on from `v`.
pub read_digits : ℕ → ℕ → List ℕ → ℕ
read_digits base v [] = v
read_digits base v (c ∷ cs) = read_digits base (v * base + digit_value c) cs

digit_value-digit : (d : ℕ) → d < 16 → digit_value (digit d) ≡ d
digit_value-digit d h = ground arith

read-put_digits :
    (rounds base x : ℕ) (acc : List ℕ)
    → (0 < base) × (base ≤ 16)
    → x < base ^ rounds
    → read_digits base 0 (put_digits rounds base x acc) ≡ read_digits base x acc
unfolding put_digits read_digits
read-put_digits zero base x acc b h =
    ap (λ v. read_digits base v acc) (omega (arith, pow.zero base))
read-put_digits (suc n) base x acc b h = elim (Bool-cases (x / base == 0)) [
  | inl last ↦
      rw last
        (ap (λ v. read_digits base v acc) (ground (arith, last_digit, last, div-add-mod' x base)))
  | inr more ↦ rw more (
      read-put_digits n base (x / base) (digit (x % base) ∷ acc) b
        ((div-lt_iff_lt-mul b.0).1 (rw pow-suc at h))
      ∙ ap (λ v. read_digits base v acc) (ground (arith, last_digit, div-add-mod' x base)))
]
  where
    last_digit : digit_value (digit (x % base)) ≡ x % base
    last_digit = digit_value-digit (x % base) (omega (arith, b))

quotient_lt : (x p base : ℕ) → 10 ≤ base → x < p * 10 → x / base < p
quotient_lt x p base b h = (div-lt_iff_lt-mul {k = base} (omega (arith, b))).1 (grind arith)

length-put_digits :
    (k rounds base x : ℕ) (acc : List ℕ)
    → 10 ≤ base
    → x < 10 ^ suc k
    → length (put_digits rounds base x acc) ≤ suc k + length acc
unfolding put_digits
length-put_digits k zero base x acc b h = omega arith
length-put_digits zero (suc n) base x acc b h =
    let small : x / base < 1 = quotient_lt x 1 base b (omega arith) in ground arith
length-put_digits (suc k) (suc n) base x acc b h =
    let small : x / base < 10 ^ suc k = quotient_lt x (10 ^ suc k) base b (rw pow-suc at h) in
    ground (arith, length-put_digits k n base (x / base) (digit (x % base) ∷ acc) b small)

-- The number that is printed, by its sign and its digits.
abbrev pub magnitude : ℕ → Bool → ℕ
magnitude xx sign = if sign && is_negative xx then sub32 0 xx else xx

-- For each base that `cprintf` uses, what is printed for a word is its magnitude in digits, behind a
-- minus sign exactly if it is taken as signed and negative; it fits the 16 bytes of the buffer.
pub printint_reads_back :
    (xx base : ℕ) (sign : Bool)
    → xx < 2 ^ 32
    → (10 ≤ base) × (base ≤ 16)
    → (ds : List ℕ) × (printint xx base sign ≡ (if sign && is_negative xx then b'-' ∷ ds else ds))
      × (read_digits base 0 ds ≡ magnitude xx sign)
      × (length (printint xx base sign) ≤ 16)
unfolding printint read_digits
printint_reads_back xx base sign h b = (
  put_digits 32 base (magnitude xx sign) [],
  ground arith,
  read-put_digits 32 base (magnitude xx sign) [] (omega (arith, b)) big,
  ground (arith, length-put_digits 9 32 base (magnitude xx sign) [] b.0 (ground arith)),
)
  where
    big : magnitude xx sign < base ^ 32
    big = le_trans (ground (arith, h)) (pow-le-pow_left {n = 2} (omega (arith, b)) 32)

-- A text with no `%` in it is printed as it stands, and what follows it as if it stood alone.
pub format_text :
    (args : Args) (i : ℕ) (text rest : List ℕ)
    → All (λ c. c ≢ b'%') text
    → format args false i (text ++ rest) ≡ text ++ format args false i rest
unfolding format
format_text args i [] rest h = refl
format_text args i (c ∷ cs) rest h = ground (arith, format_text args i cs rest h.1)

-- A directive behind such a text is printed by the next argument, and the text behind the directive
-- goes on with the argument after those that it took.
pub format-directive :
    (args : Args) (i c : ℕ) (text rest : List ℕ)
    → All (λ d. d ≢ b'%') text
    → format args false i (text ++ (b'%' ∷ c ∷ rest))
      ≡ text ++ (directive args i c ++ format args false (i + takes c) rest)
unfolding format
format-directive args i c text rest h =
    format_text args i text (b'%' ∷ c ∷ rest) h ∙ ap (λ l. text ++ l) (step args i c rest)
  where
    step :
        (args : Args) (i c : ℕ) (rest : List ℕ)
        → format args false i (b'%' ∷ c ∷ rest)
          ≡ directive args i c ++ format args false (i + takes c) rest
    step args i c rest = refl
