-- ===== src/Console/Print.antt =====
-- `printint` and `cprintf` of B22CS052/Helpful/console.c: the characters that go to `consputc`.
pub mod Laws
use os_project.Base.{
  ℕ, zero, suc, ◌+◌, ◌-◌, ◌/◌, ◌%◌, Bool, true, false, ◌&&◌, List, [], ◌∷◌, ◌++◌, map, ◌==◌, ltb,
  if◌then◌else◌, sub32, is_negative, int_of_char, codes,
}
use os_project.Console.Device.{Device, put_all}

-- `digits[d]` of "0123456789abcdef"
abbrev pub digit : ℕ → ℕ
digit d = if ltb d 10 then b'0' + d else b'a' + (d - 10)

-- The do-while loop over `x`: the last digit written stands first, in front of `acc`. A word has at
-- most 32 digits, the rounds that `printint` gives.
unfoldable pub put_digits : ℕ → ℕ → ℕ → List ℕ → List ℕ
put_digits zero base x acc = acc
put_digits (suc rounds) base x acc =
    let more = put_digits rounds base (x / base) (digit (x % base) ∷ acc) in
    if x / base == 0 then digit (x % base) ∷ acc else more

-- What is printed for the `int` pattern `xx`: the buffer from its last character back.
unfoldable pub printint : ℕ → ℕ → Bool → List ℕ
printint xx base sign =
    if sign && is_negative xx
    then b'-' ∷ put_digits 32 base (sub32 0 xx) []
    else put_digits 32 base xx []

-- What a format reads: the words of the argument list, and the string (to its NUL) that stands at an
-- address.
pub record Args : Type 0 where
  pub word : ℕ → ℕ
  pub string_at : ℕ → List ℕ

-- The `switch` on the character behind `%`, with the number of the next argument.
unfoldable pub directive : Args → ℕ → ℕ → List ℕ
unfolding printint
directive args i c =
    if c == b'd'
    then printint (args.word i) 10 true
    else if c == b'x'
    then printint (args.word i) 16 false
    else if c == b'p'
    then printint (args.word i) 16 false
    else if c == b's'
    then (if args.word i == 0
        then codes "(null)"
        else map int_of_char (args.string_at (args.word i)))
    else if c == b'%'
    then b'%' ∷ []
    else b'%' ∷ c ∷ []

-- Whether the directive takes an argument.
abbrev pub takes : ℕ → ℕ
takes c =
    if c == b'd'
    then 1
    else if c == b'x'
    then 1
    else if c == b'p'
    then 1
    else if c == b's'
    then 1
    else 0

-- The loop over the format; the flag says that a `%` has just been read.
unfoldable pub format : Args → Bool → ℕ → List ℕ → List ℕ
format args pending i [] = []
format args true i (c ∷ cs) = directive args i c ++ format args false (i + takes c) cs
format args false i (c ∷ cs) = elim (c == b'%') [
  | true ↦ format args true i cs
  | false ↦ c ∷ format args false i cs
]

unfoldable pub cprintf : Args → List ℕ → Device → Device
cprintf args fmt d = put_all (format args false 0 fmt) d
