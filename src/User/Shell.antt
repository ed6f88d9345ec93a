-- ===== src/User/Shell.antt =====
-- The parser of the shell: sh.c, B22CS052/Helpful. A string is its bytes up to the NUL. A word is the
-- bytes between the pointers `q` and `eq`, which `nulterminate` makes a string of its own.
pub mod Lexer
pub mod Ends
pub mod Grammar
pub mod Tokens
pub mod RoundTrip
pub mod Commands
use os_project.Base.{
  ℕ, zero, suc, ◌+◌, ◌*◌, Bool, true, false, not, ◌&&◌, ◌||◌, List, [], ◌∷◌, ◌++◌, ◌==◌, leb,
  if◌then◌else◌, length, is_empty,
}

pub data Message : Type 0 where
  leftovers : Message
  missing_file : Message
  no_block : Message
  missing_paren : Message
  bad_word : Message
  too_many_args : Message

pub data Result {ℓ} (A : Type ℓ) : Type ℓ where
  ok : A → Result A
  panic : Message → Result A
  out_of_fuel : Result A

infixl 5 ◌>>=◌
abbrev pub ◌>>=◌ {ℓ κ} : {A : Type ℓ} {B : Type κ} → Result A → (A → Result B) → Result B
ok a >>= f = f a
panic m >>= f = panic m
out_of_fuel >>= f = out_of_fuel

abbrev pub max_args : ℕ
max_args = 10

-- The `file`, `mode` and `fd` of a `struct redircmd`.
pub record Redirection : Type 0 where
  pub file : List ℕ
  pub mode : ℕ
  pub fd : ℕ

pub data Cmd : Type 0 where
  exec : List (List ℕ) → Cmd
  redir : Cmd → Redirection → Cmd
  pipe : Cmd → Cmd → Cmd
  list : Cmd → Cmd → Cmd
  back : Cmd → Cmd

unfoldable pub is_blank : ℕ → Bool
is_blank c = c == 0x20 || (c == 0x09 || (c == 0x0d || (c == 0x0a || c == 0x0b)))

-- The symbols that are one byte for `gettoken` whatever follows.
unfoldable pub is_single : ℕ → Bool
is_single c = c == b'|' || (c == b'(' || (c == b')' || (c == b';' || (c == b'&' || c == b'<'))))

unfoldable pub is_symbol : ℕ → Bool
unfolding is_single
is_symbol c = is_single c || c == b'>'

unfoldable pub skip : List ℕ → List ℕ
skip [] = []
skip (c ∷ cs) = let rest = skip cs in if is_blank c then rest else c ∷ cs

-- The bytes of a word, and the rest.
unfoldable pub split_word : List ℕ → List ℕ × List ℕ
split_word [] = ([], [])
split_word (c ∷ cs) =
    let s = split_word cs in if is_blank c || is_symbol c then ([], c ∷ cs) else (c ∷ s.0, s.1)

-- `'+'` and the rest behind a second `>`.
unfoldable pub scan_greater : List ℕ → ℕ × List ℕ
scan_greater [] = (b'>', [])
scan_greater (c ∷ cs) = if c == b'>' then (b'+', cs) else (b'>', c ∷ cs)

-- What `gettoken` returns, the word, and where it ends, at the first byte that is no blank.
unfoldable pub scan : List ℕ → ℕ × List ℕ × List ℕ
scan [] = (0, [], [])
scan (c ∷ cs) =
    let (greater, rest) = scan_greater cs in
    let (word, behind) = split_word (c ∷ cs) in
    if is_single c
    then (c, c ∷ [], cs)
    else if c == b'>'
    then (greater, c ∷ [], rest)
    else (b'a', word, behind)

unfoldable pub gettoken : List ℕ → ℕ × List ℕ × List ℕ
unfolding skip scan
gettoken s = let (ret, word, rest) = scan (skip s) in (ret, word, skip rest)

-- The string begins with one of the bytes.
abbrev pub one_of : List ℕ → ℕ → Bool
one_of [] c = false
one_of (t ∷ ts) c = c == t || one_of ts c

-- The result of `peek` on a string that `skip` has been taken of.
abbrev pub starts : List ℕ → List ℕ → Bool
starts toks [] = false
starts toks (c ∷ cs) = one_of toks c

abbrev pub redirection : ℕ → List ℕ → Redirection
redirection tok file =
    if tok == b'<'
    then record { file = file; mode = 0; fd = 0 }
    else record { file = file; mode = 0x201; fd = 1 }

-- The redirections around a command, the first one innermost.
unfoldable pub wrap : Cmd → List Redirection → Cmd
wrap c [] = c
wrap c (r ∷ rs) = wrap (redir c r) rs

unfoldable pub parse_redirs : ℕ → List ℕ → Result (List Redirection × List ℕ)
parse_redirs zero s = out_of_fuel
parse_redirs (suc f) s =
    let (tok, _, s₁) = gettoken (skip s) in
    let (kind, file, s₂) = gettoken s₁ in
    let more = parse_redirs f s₂ >>= λ (rs, s₃). ok (redirection tok file ∷ rs, s₃) in
    if starts (b'<' ∷ b'>' ∷ []) (skip s)
    then (if kind == b'a' then more else panic missing_file)
    else ok ([], skip s)

-- The loop of `parseexec`: the arguments so far, and the redirections around the command.
unfoldable pub parse_args : ℕ → List (List ℕ) → List Redirection → List ℕ → Result (Cmd × List ℕ)
parse_args zero argv rs s = out_of_fuel
parse_args (suc f) argv rs s =
    let (tok, word, s₁) = gettoken (skip s) in
    let argv' = argv ++ (word ∷ []) in
    let more = parse_redirs f s₁ >>= λ (rs', s₂). parse_args f argv' (rs ++ rs') s₂ in
    if starts (b'|' ∷ b')' ∷ b'&' ∷ b';' ∷ []) (skip s)
    then ok (wrap (exec argv) rs, skip s)
    else if tok == 0
    then ok (wrap (exec argv) rs, s₁)
    else if not (tok == b'a')
    then panic bad_word
    else if leb max_args (length argv')
    then panic too_many_args
    else more

-- The loop of `parseline` over `&`.
unfoldable pub parse_backs : ℕ → Cmd → List ℕ → Result (Cmd × List ℕ)
parse_backs zero c s = out_of_fuel
parse_backs (suc f) c s =
    let more = parse_backs f (back c) (gettoken (skip s)).2 in
    if starts (b'&' ∷ []) (skip s) then more else ok (c, skip s)

unfoldable mutual
  pub parse_line : ℕ → List ℕ → Result (Cmd × List ℕ)
  parse_line zero s = out_of_fuel
  parse_line (suc f) s = parse_pipe f s >>= λ (p, s₁). parse_backs f p s₁ >>= λ (c, s₂).
      let more = parse_line f (gettoken (skip s₂)).2 >>= λ (d, s₃). ok (list c d, s₃) in
      if starts (b';' ∷ []) (skip s₂) then more else ok (c, skip s₂)

  pub parse_pipe : ℕ → List ℕ → Result (Cmd × List ℕ)
  parse_pipe zero s = out_of_fuel
  parse_pipe (suc f) s = parse_exec f s >>= λ (c, s₁).
      let more = parse_pipe f (gettoken (skip s₁)).2 >>= λ (d, s₂). ok (pipe c d, s₂) in
      if starts (b'|' ∷ []) (skip s₁) then more else ok (c, skip s₁)

  pub parse_exec : ℕ → List ℕ → Result (Cmd × List ℕ)
  parse_exec zero s = out_of_fuel
  parse_exec (suc f) s =
      let block = parse_block f (skip s) in
      let simple = parse_redirs f (skip s) >>= λ (rs, s₁). parse_args f [] rs s₁ in
      if starts (b'(' ∷ []) (skip s) then block else simple

  pub parse_block : ℕ → List ℕ → Result (Cmd × List ℕ)
  parse_block zero s = out_of_fuel
  parse_block (suc f) s =
      let inside = parse_line f (gettoken (skip s)).2 >>= λ (c, s₁).
      let more = parse_redirs f (gettoken (skip s₁)).2 >>= λ (rs, s₂). ok (wrap c rs, s₂) in
      if starts (b')' ∷ []) (skip s₁) then more else panic missing_paren in
      if starts (b'(' ∷ []) (skip s) then inside else panic no_block

-- A call of the parser below another one, or behind a token, costs a unit of fuel.
unfoldable pub parse_cmd : List ℕ → Result Cmd
parse_cmd s = parse_line (4 * length s + 4) s >>= λ (c, rest).
    if is_empty (skip rest) then ok c else panic leftovers
