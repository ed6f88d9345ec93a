-- ===== src/User/Shell/Tokens.antt =====
-- What `gettoken` and `peek` of sh.c see of a printed line.
use os_project.Base.{
  ◌≤◌, length-append, ℕ, zero, suc, ◌+◌, ◌≡◌, refl, ap, ◌∙◌, Bool, true, false, List, [], ◌∷◌, ◌++◌,
  ◌==◌, if◌then◌else◌, length, arith, Bool-cases, inl, inr, All,
}
use os_project.User.Shell.{
  Redirection, is_blank, is_single, is_symbol, skip, split_word, scan_greater, scan, gettoken,
  one_of, starts,
}
use os_project.User.Shell.Lexer.{skip_begins}
use os_project.User.Shell.Grammar.{
  IsWordByte, IsWord, IsLine, IsPipe, IsPart, Line, Pipe, Part, one, seq, last, simple, block,
  show_word, show_words, show_redirs, show_ands, show_line, show_pipe, show_part,
}

-- What may follow a part of a line.
pub data Next (rest : List ℕ) : Type 0 where
  end : rest ≡ [] → Next rest
  close : (s : List ℕ) → rest ≡ b')' ∷ s → Next rest
  semi : (s : List ℕ) → rest ≡ b';' ∷ s → Next rest
  amp : (s : List ℕ) → rest ≡ b'&' ∷ s → Next rest
  bar : (s : List ℕ) → rest ≡ b'|' ∷ s → Next rest

pub Next-skip : (rest : List ℕ) → Next rest → skip rest ≡ rest
unfolding skip is_blank
Next-skip rest (end e) = rw e refl
Next-skip rest (close s e) = rw e refl
Next-skip rest (semi s e) = rw e refl
Next-skip rest (amp s e) = rw e refl
Next-skip rest (bar s e) = rw e refl

pub Next-starts_redir : (rest : List ℕ) → Next rest → starts (b'<' ∷ b'>' ∷ []) rest ≡ false
Next-starts_redir rest (end e) = rw e refl
Next-starts_redir rest (close s e) = rw e refl
Next-starts_redir rest (semi s e) = rw e refl
Next-starts_redir rest (amp s e) = rw e refl
Next-starts_redir rest (bar s e) = rw e refl

pub Next-starts_open : (rest : List ℕ) → Next rest → starts (b'(' ∷ []) rest ≡ false
Next-starts_open rest (end e) = rw e refl
Next-starts_open rest (close s e) = rw e refl
Next-starts_open rest (semi s e) = rw e refl
Next-starts_open rest (amp s e) = rw e refl
Next-starts_open rest (bar s e) = rw e refl

skip-space : (rest : List ℕ) → skip (b' ' ∷ rest) ≡ skip rest
unfolding skip is_blank
skip-space rest = refl

-- A symbol with a blank behind it.
pub gettoken-symbol :
    (c : ℕ) (rest : List ℕ)
    → is_single c ≡ true
    → is_blank c ≡ false
    → skip rest ≡ rest
    → gettoken (c ∷ b' ' ∷ rest) ≡ (c, c ∷ [], rest)
unfolding gettoken scan
gettoken-symbol c rest single plain trim =
    rw (skip_begins c (b' ' ∷ rest) plain, single)
      (ap (λ s. (c, c ∷ [], s)) (skip-space rest ∙ trim))

pub gettoken-greater :
    (rest : List ℕ) → skip rest ≡ rest → gettoken (b'>' ∷ b' ' ∷ rest) ≡ (b'>', b'>' ∷ [], rest)
unfolding gettoken scan scan_greater is_single is_blank
gettoken-greater rest trim = ap (λ s. (b'>', b'>' ∷ [], s)) trim

split_word_lem :
    (w rest : List ℕ) → All IsWordByte w → split_word (w ++ (b' ' ∷ rest)) ≡ (w, b' ' ∷ rest)
unfolding split_word is_blank
split_word_lem [] rest h = refl
split_word_lem (c ∷ cs) rest h = rw (h.0.0, h.0.1, split_word_lem cs rest h.1) refl

pub gettoken-word :
    (w rest : List ℕ) → IsWord w → skip rest ≡ rest → gettoken (show_word w rest) ≡ (b'a', w, rest)
unfolding gettoken scan is_symbol
gettoken-word [] rest h trim = absurd (h.some_byte refl)
gettoken-word (c ∷ cs) rest h trim =
    let single : is_single c ≡ false = ground (arith, h.plain.0.1) in
    let greater : (c == b'>') ≡ false = ground (arith, h.plain.0.1) in
    rw
      (
        skip_begins c (cs ++ (b' ' ∷ rest)) h.plain.0.0,
        single,
        greater,
        split_word_lem (c ∷ cs) rest h.plain,
      )
      (ap (λ s. (b'a', c ∷ cs, s)) (skip-space rest ∙ trim))

-- A word is no symbol.
pub starts-word :
    (toks : List ℕ) (w rest : List ℕ)
    → IsWord w
    → All (λ t. is_symbol t ≡ true) toks
    → starts toks (show_word w rest) ≡ false
starts-word toks [] rest h s = absurd (h.some_byte refl)
starts-word toks (c ∷ cs) rest h s = no_symbol toks c h.plain.0.1 s
  where
    no_symbol :
        (toks : List ℕ) (c : ℕ)
        → is_symbol c ≡ false
        → All (λ t. is_symbol t ≡ true) toks
        → one_of toks c ≡ false
    no_symbol [] c e h = refl
    no_symbol (t ∷ ts) c e h = elim (Bool-cases (c == t)) [
      | inl same ↦
          let at : c ≡ t = ground (arith, same) in absurd (ground (arith, e, h.0, ap is_symbol at))
      | inr other ↦ rw other (no_symbol ts c e h.1)
    ]

-- A printed text begins with no blank.
pub skip-show_words :
    (ws : List (List ℕ)) (rest : List ℕ)
    → All IsWord ws
    → skip rest ≡ rest
    → skip (show_words ws rest) ≡ show_words ws rest
skip-show_words [] rest h trim = trim
skip-show_words ([] ∷ ws) rest h trim = absurd (h.0.some_byte refl)
skip-show_words ((c ∷ cs) ∷ ws) rest h trim =
    skip_begins c (cs ++ (b' ' ∷ show_words ws rest)) h.0.plain.0.0

pub skip-show_redirs :
    (rs : List Redirection) (rest : List ℕ)
    → skip rest ≡ rest
    → skip (show_redirs rs rest) ≡ show_redirs rs rest
unfolding is_blank
skip-show_redirs [] rest trim = trim
skip-show_redirs (r ∷ rs) rest trim =
    skip_begins (if r.fd == 0 then b'<' else b'>') _ (ground arith)

pub skip-show_ands :
    (n : ℕ) (rest : List ℕ) → skip rest ≡ rest → skip (show_ands n rest) ≡ show_ands n rest
unfolding is_blank
skip-show_ands zero rest trim = trim
skip-show_ands (suc n) rest trim = skip_begins b'&' (b' ' ∷ show_ands n rest) refl

pub skip-show_part :
    (x : Part) (rest : List ℕ)
    → IsPart x
    → skip rest ≡ rest
    → skip (show_part x rest) ≡ show_part x rest
unfolding show_part IsPart is_blank
skip-show_part (simple ws rs) rest h trim =
    skip-show_words ws (show_redirs rs rest) h.0 (skip-show_redirs rs rest trim)
skip-show_part (block l rs) rest h trim = skip_begins b'(' _ refl

pub skip-show_pipe :
    (p : Pipe) (rest : List ℕ)
    → IsPipe p
    → skip rest ≡ rest
    → skip (show_pipe p rest) ≡ show_pipe p rest
unfolding show_pipe IsPipe is_blank
skip-show_pipe (last x) rest h trim = skip-show_part x rest h trim
skip-show_pipe (Pipe.bar x p) rest h trim = skip-show_part x _ h.0 (skip_begins b'|' _ refl)

pub skip-show_line :
    (l : Line) (rest : List ℕ)
    → IsLine l
    → skip rest ≡ rest
    → skip (show_line l rest) ≡ show_line l rest
unfolding show_line IsLine is_blank
skip-show_line (one p n) rest h trim = skip-show_pipe p _ h (skip-show_ands n rest trim)
skip-show_line (seq p n l) rest h trim =
    skip-show_pipe p _ h.0 (skip-show_ands n _ (skip_begins b';' _ refl))

pub gettoken-redir :
    (b : Bool) (rest : List ℕ)
    → skip rest ≡ rest
    → let k : ℕ = (if b then b'<' else b'>') in gettoken (k ∷ b' ' ∷ rest) ≡ (k, k ∷ [], rest)
unfolding is_single is_blank
gettoken-redir true rest trim = gettoken-symbol b'<' rest refl refl trim
gettoken-redir false rest trim = gettoken-greater rest trim

pub starts-redir :
    (b : Bool) (rest : List ℕ)
    → starts (b'<' ∷ b'>' ∷ []) ((if b then b'<' else b'>') ∷ rest) ≡ true
starts-redir true rest = refl
starts-redir false rest = refl

-- The texts are no shorter than what follows them.
pub show_words_le :
    (ws : List (List ℕ)) (rest : List ℕ) → length rest + length ws ≤ length (show_words ws rest)
show_words_le [] rest = omega arith
show_words_le (w ∷ ws) rest =
    omega (arith, length-append w (b' ' ∷ show_words ws rest), show_words_le ws rest)

pub show_redirs_le :
    (rs : List Redirection) (rest : List ℕ) → length rest ≤ length (show_redirs rs rest)
show_redirs_le [] rest = omega arith
show_redirs_le (r ∷ rs) rest =
    omega (arith, length-append r.file (b' ' ∷ show_redirs rs rest), show_redirs_le rs rest)

pub show_ands_le : (n : ℕ) (rest : List ℕ) → length rest ≤ length (show_ands n rest)
show_ands_le zero rest = omega arith
show_ands_le (suc n) rest = omega (arith, show_ands_le n rest)

mutual
  unfolding show_line

  pub show_line_le : (l : Line) (rest : List ℕ) → length rest ≤ length (show_line l rest)
  show_line_le (one p n) rest =
      omega (arith, show_pipe_le p (show_ands n rest), show_ands_le n rest)
  show_line_le (seq p n l) rest = omega (
    arith,
    show_pipe_le p (show_ands n (b';' ∷ b' ' ∷ show_line l rest)),
    show_ands_le n (b';' ∷ b' ' ∷ show_line l rest),
    show_line_le l rest,
  )

  pub show_pipe_le : (p : Pipe) (rest : List ℕ) → length rest ≤ length (show_pipe p rest)
  show_pipe_le (last x) rest = show_part_le x rest
  show_pipe_le (Pipe.bar x p) rest =
      omega (arith, show_part_le x (b'|' ∷ b' ' ∷ show_pipe p rest), show_pipe_le p rest)

  pub show_part_le : (x : Part) (rest : List ℕ) → length rest ≤ length (show_part x rest)
  show_part_le (simple ws rs) rest =
      omega (arith, show_words_le ws (show_redirs rs rest), show_redirs_le rs rest)
  show_part_le (block l rs) rest =
      omega (arith, show_line_le l (b')' ∷ b' ' ∷ show_redirs rs rest), show_redirs_le rs rest)
