-- ===== src/User/Shell/Grammar.antt =====
-- What the parser of sh.c is to read: lines as trees, their texts and the commands that they stand for.
use os_project.Base.{
  ◌<◌, ℕ, zero, suc, ◌≡◌, ◌≢◌, false, List, [], ◌∷◌, ◌++◌, ◌==◌, if◌then◌else◌, length, All,
}
use os_project.User.Shell.{
  Cmd, exec, pipe, list, back, Redirection, redirection, is_blank, is_symbol, wrap,
}

mutual
  -- A pipeline with its `&` signs, and what follows a `;`.
  pub data Line : Type 0 where
    one : Pipe → ℕ → Line
    seq : Pipe → ℕ → Line → Line

  pub data Pipe : Type 0 where
    last : Part → Pipe
    bar : Part → Pipe → Pipe

  pub data Part : Type 0 where
    simple : List (List ℕ) → List Redirection → Part
    block : Line → List Redirection → Part

-- The texts, in front of what follows.
abbrev pub show_word : List ℕ → List ℕ → List ℕ
show_word w rest = w ++ (b' ' ∷ rest)

abbrev pub show_words : List (List ℕ) → List ℕ → List ℕ
show_words [] rest = rest
show_words (w ∷ ws) rest = show_word w (show_words ws rest)

abbrev pub show_redirs : List Redirection → List ℕ → List ℕ
show_redirs [] rest = rest
show_redirs (r ∷ rs) rest =
    (if r.fd == 0 then b'<' else b'>') ∷ b' ' ∷ show_word r.file (show_redirs rs rest)

abbrev pub show_ands : ℕ → List ℕ → List ℕ
show_ands zero rest = rest
show_ands (suc n) rest = b'&' ∷ b' ' ∷ show_ands n rest

unfoldable mutual
  pub show_line : Line → List ℕ → List ℕ
  show_line (one p n) rest = show_pipe p (show_ands n rest)
  show_line (seq p n l) rest = show_pipe p (show_ands n (b';' ∷ b' ' ∷ show_line l rest))

  pub show_pipe : Pipe → List ℕ → List ℕ
  show_pipe (last x) rest = show_part x rest
  show_pipe (bar x p) rest = show_part x (b'|' ∷ b' ' ∷ show_pipe p rest)

  pub show_part : Part → List ℕ → List ℕ
  show_part (simple ws rs) rest = show_words ws (show_redirs rs rest)
  show_part (block l rs) rest = b'(' ∷ b' ' ∷ show_line l (b')' ∷ b' ' ∷ show_redirs rs rest)

abbrev pub backs : ℕ → Cmd → Cmd
backs zero c = c
backs (suc n) c = backs n (back c)

unfoldable mutual
  pub cmd_line : Line → Cmd
  cmd_line (one p n) = backs n (cmd_pipe p)
  cmd_line (seq p n l) = list (backs n (cmd_pipe p)) (cmd_line l)

  pub cmd_pipe : Pipe → Cmd
  cmd_pipe (last x) = cmd_part x
  cmd_pipe (bar x p) = pipe (cmd_part x) (cmd_pipe p)

  pub cmd_part : Part → Cmd
  cmd_part (simple ws rs) = wrap (exec ws) rs
  cmd_part (block l rs) = wrap (cmd_line l) rs

-- A byte of a word.
abbrev pub IsWordByte : ℕ → Type 0
IsWordByte c = (is_blank c ≡ false) × (is_symbol c ≡ false) × (c ≢ 0)

pub record IsWord (w : List ℕ) : Type 0 where
  pub some_byte : w ≢ []
  pub plain : All IsWordByte w

-- The redirections that the parser makes, with a word for the file.
abbrev pub IsRedirection : Redirection → Type 0
IsRedirection r = IsWord r.file × (r ≡ redirection (if r.fd == 0 then b'<' else b'>') r.file)

unfoldable mutual
  pub IsLine : Line → Type 0
  IsLine (one p n) = IsPipe p
  IsLine (seq p n l) = IsPipe p × IsLine l

  pub IsPipe : Pipe → Type 0
  IsPipe (last x) = IsPart x
  IsPipe (bar x p) = IsPart x × IsPipe p

  pub IsPart : Part → Type 0
  IsPart (simple ws rs) = All IsWord ws × (length ws < 10) × All IsRedirection rs
  IsPart (block l rs) = IsLine l × All IsRedirection rs
