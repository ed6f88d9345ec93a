-- ===== src/User/Shell/RoundTrip.antt =====
-- The parser of sh.c on printed lines.
use os_project.Base.{
  ℕ, zero, suc, ◌+◌, ◌*◌, ◌<◌, ◌≡◌, refl, sym, ap, ◌∙◌, false, List, [], ◌∷◌, ◌++◌, ◌==◌, leb,
  length, length-append, arith, All,
}
use mathlib.Core.List.{append_assoc}
use os_project.User.Shell.{
  ok, ◌>>=◌, Cmd, exec, back, Redirection, is_blank, is_single, is_symbol, skip, scan, gettoken,
  starts, wrap, parse_redirs, parse_args, parse_backs, parse_line, parse_pipe, parse_exec,
  parse_cmd,
}
use os_project.User.Shell.Lexer.{skip_begins}
use os_project.User.Shell.Grammar.{
  IsWord, IsRedirection, IsLine, IsPipe, IsPart, Line, Pipe, Part, one, seq, last, simple, block,
  show_word, show_words, show_redirs, show_ands, show_line, show_pipe, show_part, backs, cmd_line,
  cmd_pipe, cmd_part,
}
use os_project.User.Shell.Tokens.{
  Next, end, close, semi, amp, bar, Next-skip, Next-starts_redir, Next-starts_open, gettoken-symbol,
  gettoken-word, starts-word, skip-show_words, skip-show_redirs, skip-show_ands, skip-show_pipe,
  skip-show_line, gettoken-redir, starts-redir, show_ands_le, show_line_le, show_pipe_le,
  show_part_le,
}

redirs_none :
    (f : ℕ) (s : List ℕ)
    → skip s ≡ s
    → starts (b'<' ∷ b'>' ∷ []) s ≡ false
    → parse_redirs (suc f) s ≡ ok ([], s)
unfolding parse_redirs
redirs_none f s trim none_here = rw (trim, none_here) refl

redirs_lem :
    (rs : List Redirection) (rest : List ℕ) (f : ℕ)
    → All IsRedirection rs
    → Next rest
    → length (show_redirs rs rest) < f
    → parse_redirs f (show_redirs rs rest) ≡ ok (rs, rest)
unfolding parse_redirs
redirs_lem rs rest zero h next l = absurd (omega (arith, l))
redirs_lem [] rest (suc f) h next l =
    redirs_none f rest (Next-skip rest next) (Next-starts_redir rest next)
redirs_lem (r ∷ rs) rest (suc f) h next l =
    let behind : List ℕ = show_redirs rs rest in
    let trim = skip-show_redirs rs rest (Next-skip rest next) in
    let trim_word = skip-show_words (r.file ∷ []) behind (h.0.0, tt) trim in
    let whole = skip-show_redirs (r ∷ rs) rest (Next-skip rest next) in
    let shorter : length behind < f = omega (arith, l, length-append r.file (b' ' ∷ behind)) in
    rw
      (
        whole,
        starts-redir (r.fd == 0) (b' ' ∷ show_word r.file behind),
        gettoken-redir (r.fd == 0) (show_word r.file behind) trim_word,
        gettoken-word r.file behind h.0.0 trim,
        redirs_lem rs rest f h.1 next shorter,
      )
      (ap (λ x. ok (x ∷ rs, rest)) (sym h.0.1))

args_end :
    (f : ℕ) (argv : List (List ℕ)) (rs : List Redirection) (rest : List ℕ)
    → Next rest
    → parse_args (suc f) argv rs rest ≡ ok (wrap (exec argv) rs, rest)
unfolding parse_args skip is_blank gettoken scan
args_end f argv rs rest (end e) = rw e refl
args_end f argv rs rest (close s e) = rw e refl
args_end f argv rs rest (semi s e) = rw e refl
args_end f argv rs rest (amp s e) = rw e refl
args_end f argv rs rest (bar s e) = rw e refl

args_word :
    (f : ℕ) (argv : List (List ℕ)) (rs : List Redirection) (w behind : List ℕ)
    → IsWord w
    → skip behind ≡ behind
    → length argv < 9
    → parse_args (suc f) argv rs (show_word w behind)
      ≡ (parse_redirs f behind >>= λ (rs', s). parse_args f (argv ++ (w ∷ [])) (rs ++ rs') s)
unfolding parse_args is_symbol is_single
args_word f argv rs w behind h trim few =
    let room : leb 10 (length (argv ++ (w ∷ []))) ≡ false =
      ground (arith, few, length-append argv (w ∷ [])) in
    rw
      (
        skip-show_words (w ∷ []) behind (h, tt) trim,
        starts-word (b'|' ∷ b')' ∷ b'&' ∷ b';' ∷ []) w behind h (refl, (refl, (refl, (refl, tt)))),
        gettoken-word w behind h trim,
        room,
      )
      refl

args_lem :
    (f : ℕ) (argv : List (List ℕ)) (w : List ℕ) (ws : List (List ℕ)) (rs : List Redirection)
    (rest : List ℕ)
    → All IsWord (w ∷ ws)
    → All IsRedirection rs
    → Next rest
    → length argv + length (w ∷ ws) < 10
    → length (show_words (w ∷ ws) (show_redirs rs rest)) < f
    → parse_args f argv [] (show_words (w ∷ ws) (show_redirs rs rest))
      ≡ ok (wrap (exec (argv ++ (w ∷ ws))) rs, rest)
unfolding is_symbol is_single
args_lem zero argv w ws rs rest h hr next few l = absurd (omega (arith, l))
args_lem (suc zero) argv w ws rs rest h hr next few l =
    absurd (omega (arith, l, length-append w (b' ' ∷ show_words ws (show_redirs rs rest))))
args_lem (suc (suc f)) argv w [] rs rest h hr next few l =
    let trim = skip-show_redirs rs rest (Next-skip rest next) in
    let shorter : length (show_redirs rs rest) < suc f =
      omega (arith, l, length-append w (b' ' ∷ show_redirs rs rest)) in
    args_word (suc f) argv [] w (show_redirs rs rest) h.0 trim (omega (arith, few))
    ∙ rw (redirs_lem rs rest (suc f) hr next shorter) (args_end f (argv ++ (w ∷ [])) rs rest next)
args_lem (suc (suc f)) argv w (v ∷ vs) rs rest h hr next few l =
    let behind : List ℕ = show_words (v ∷ vs) (show_redirs rs rest) in
    let trim =
      skip-show_words (v ∷ vs) (show_redirs rs rest) h.1
        (skip-show_redirs rs rest (Next-skip rest next)) in
    let shorter : length behind < suc f = omega (arith, l, length-append w (b' ' ∷ behind)) in
    let no_redir =
      starts-word (b'<' ∷ b'>' ∷ []) v (show_words vs (show_redirs rs rest)) h.1.0
        (refl, (refl, tt)) in
    args_word (suc f) argv [] w behind h.0 trim (omega (arith, few))
    ∙ rw (redirs_none f behind trim no_redir) (
        args_lem (suc f) (argv ++ (w ∷ [])) v vs rs rest h.1 hr next
          (omega (arith, few, length-append argv (w ∷ []))) shorter)
    ∙ ap (λ a. ok (wrap (exec a) rs, rest)) (append_assoc argv (w ∷ []) (v ∷ vs))

backs_lem :
    (n : ℕ) (c : Cmd) (rest : List ℕ) (f : ℕ)
    → Next rest
    → starts (b'&' ∷ []) rest ≡ false
    → length (show_ands n rest) < f
    → parse_backs f c (show_ands n rest) ≡ ok (backs n c, rest)
unfolding parse_backs is_single is_blank
backs_lem n c rest zero next none_here l = absurd (omega (arith, l))
backs_lem zero c rest (suc f) next none_here l = rw (Next-skip rest next, none_here) refl
backs_lem (suc n) c rest (suc f) next none_here l =
    let trim = skip-show_ands n rest (Next-skip rest next) in
    rw
      (
        skip-show_ands (suc n) rest (Next-skip rest next),
        gettoken-symbol b'&' (show_ands n rest) refl refl trim,
      )
      (backs_lem n (back c) rest f next none_here (omega (arith, l)))

ands_Next : (n : ℕ) (rest : List ℕ) → Next rest → Next (show_ands n rest)
ands_Next zero rest next = next
ands_Next (suc n) rest next = amp (b' ' ∷ show_ands n rest) refl

ands_no_bar :
    (n : ℕ) (rest : List ℕ)
    → starts (b'|' ∷ []) rest ≡ false
    → starts (b'|' ∷ []) (show_ands n rest) ≡ false
ands_no_bar zero rest e = e
ands_no_bar (suc n) rest e = refl

no_bar :
    (rest : List ℕ)
    → starts (b';' ∷ b'&' ∷ b'|' ∷ []) rest ≡ false
    → starts (b'|' ∷ []) rest ≡ false
no_bar [] e = refl
no_bar (c ∷ cs) e = ground (arith, e)

no_amp :
    (rest : List ℕ)
    → starts (b';' ∷ b'&' ∷ b'|' ∷ []) rest ≡ false
    → starts (b'&' ∷ []) rest ≡ false
no_amp [] e = refl
no_amp (c ∷ cs) e = ground (arith, e)

no_semi :
    (rest : List ℕ)
    → starts (b';' ∷ b'&' ∷ b'|' ∷ []) rest ≡ false
    → starts (b';' ∷ []) rest ≡ false
no_semi [] e = refl
no_semi (c ∷ cs) e = ground (arith, e)

redirs_no_open :
    (rs : List Redirection) (rest : List ℕ)
    → Next rest
    → starts (b'(' ∷ []) (show_redirs rs rest) ≡ false
redirs_no_open [] rest next = Next-starts_open rest next
redirs_no_open (r ∷ rs) rest next = ground arith

simple_lem :
    (ws : List (List ℕ)) (rs : List Redirection) (rest : List ℕ) (f : ℕ)
    → All IsWord ws
    → All IsRedirection rs
    → Next rest
    → length ws < 10
    → length (show_words ws (show_redirs rs rest)) < f
    → parse_exec (suc f) (show_words ws (show_redirs rs rest)) ≡ ok (wrap (exec ws) rs, rest)
unfolding parse_exec is_symbol is_single
simple_lem ws rs rest zero h hr next few l = absurd (omega (arith, l))
simple_lem [] rs rest (suc f) h hr next few l =
    rw
      (
        skip-show_redirs rs rest (Next-skip rest next),
        redirs_no_open rs rest next,
        redirs_lem rs rest (suc f) hr next l,
      )
      (args_end f [] rs rest next)
simple_lem (w ∷ ws) rs rest (suc f) h hr next few l =
    let behind : List ℕ = show_words (w ∷ ws) (show_redirs rs rest) in
    let trim =
      skip-show_words (w ∷ ws) (show_redirs rs rest) h
        (skip-show_redirs rs rest (Next-skip rest next)) in
    let no_open = starts-word (b'(' ∷ []) w (show_words ws (show_redirs rs rest)) h.0 (refl, tt) in
    let no_redir =
      starts-word (b'<' ∷ b'>' ∷ []) w (show_words ws (show_redirs rs rest)) h.0
        (refl, (refl, tt)) in
    rw (trim, no_open, redirs_none f behind trim no_redir)
      (args_lem (suc f) [] w ws rs rest h hr next (omega (arith, few)) l)

mutual
  unfolding parse_line show_line cmd_line IsLine is_single is_blank

  line_lem :
      (l : Line) (rest : List ℕ) (f : ℕ)
      → IsLine l
      → Next rest
      → starts (b';' ∷ b'&' ∷ b'|' ∷ []) rest ≡ false
      → 4 * length (show_line l rest) + 3 < f
      → parse_line f (show_line l rest) ≡ ok (cmd_line l, rest)
  line_lem l rest zero h next none_here long = absurd (omega (arith, long))
  line_lem (one p n) rest (suc f) h next none_here long =
      let behind : List ℕ = show_ands n rest in
      let piped =
        pipe_lem p behind f h (ands_Next n rest next) (ands_no_bar n rest (no_bar rest none_here))
          (omega (arith, long)) in
      let few : length behind < f = omega (arith, long, show_pipe_le p behind) in
      rw
        (
          piped,
          backs_lem n (cmd_pipe p) rest f next (no_amp rest none_here) few,
          Next-skip rest next,
          no_semi rest none_here,
        )
        refl
  line_lem (seq p n l) rest (suc f) h next none_here long =
      let after : List ℕ = b';' ∷ b' ' ∷ show_line l rest in
      let behind : List ℕ = show_ands n after in
      let at : Next after = semi (b' ' ∷ show_line l rest) refl in
      let piped =
        pipe_lem p behind f h.0 (ands_Next n after at) (ands_no_bar n after refl)
          (omega (arith, long)) in
      let few : length behind < f = omega (arith, long, show_pipe_le p behind) in
      let trim = skip-show_line l rest h.1 (Next-skip rest next) in
      let later =
        line_lem l rest f h.1 next none_here
          (omega (arith, long, show_pipe_le p behind, show_ands_le n after)) in
      rw
        (
          piped,
          backs_lem n (cmd_pipe p) after f at refl few,
          Next-skip after at,
          gettoken-symbol b';' (show_line l rest) refl refl trim,
          later,
        )
        refl

  pipe_lem :
      (p : Pipe) (rest : List ℕ) (f : ℕ)
      → IsPipe p
      → Next rest
      → starts (b'|' ∷ []) rest ≡ false
      → 4 * length (show_pipe p rest) + 2 < f
      → parse_pipe f (show_pipe p rest) ≡ ok (cmd_pipe p, rest)
  pipe_lem p rest zero h next none_here long = absurd (omega (arith, long))
  pipe_lem (last x) rest (suc f) h next none_here long =
      rw (part_lem x rest f h next (omega (arith, long)), Next-skip rest next, none_here) refl
  pipe_lem (Pipe.bar x p) rest (suc f) h next none_here long =
      let behind : List ℕ = b'|' ∷ b' ' ∷ show_pipe p rest in
      let at : Next behind = bar (b' ' ∷ show_pipe p rest) refl in
      let trim = skip-show_pipe p rest h.1 (Next-skip rest next) in
      let later =
        pipe_lem p rest f h.1 next none_here (omega (arith, long, show_part_le x behind)) in
      rw
        (
          part_lem x behind f h.0 at (omega (arith, long)),
          Next-skip behind at,
          gettoken-symbol b'|' (show_pipe p rest) refl refl trim,
          later,
        )
        refl

  part_lem :
      (x : Part) (rest : List ℕ) (f : ℕ)
      → IsPart x
      → Next rest
      → 4 * length (show_part x rest) + 1 < f
      → parse_exec f (show_part x rest) ≡ ok (cmd_part x, rest)
  part_lem x rest zero h next long = absurd (omega (arith, long))
  part_lem (simple ws rs) rest (suc f) h next long =
      simple_lem ws rs rest f h.0 h.2 next h.1 (omega (arith, long))
  part_lem (block l rs) rest (suc zero) h next long = absurd (omega (arith, long))
  part_lem (block l rs) rest (suc (suc f)) h next long =
      let redirs : List ℕ = show_redirs rs rest in
      let behind : List ℕ = b')' ∷ b' ' ∷ redirs in
      let at : Next behind = close (b' ' ∷ redirs) refl in
      let inside : List ℕ = show_line l behind in
      let whole : skip (b'(' ∷ b' ' ∷ inside) ≡ b'(' ∷ b' ' ∷ inside =
        skip_begins b'(' (b' ' ∷ inside) refl in
      let trim = skip-show_line l behind h.0 (Next-skip behind at) in
      let trim' = skip-show_redirs rs rest (Next-skip rest next) in
      let line = line_lem l behind f h.0 at refl (omega (arith, long)) in
      let few : length redirs < f = omega (arith, long, show_line_le l behind) in
      rw
        (
          whole,
          whole,
          gettoken-symbol b'(' inside refl refl trim,
          line,
          Next-skip behind at,
          gettoken-symbol b')' redirs refl refl trim',
          redirs_lem rs rest f h.1 next few,
        )
        refl

-- A line that is printed with a blank behind each token is parsed to the command that it stands for:
-- pipelines and lists to the right, the redirections of a command from the inside out. Its words have
-- some byte and no blank or symbol, and a command has fewer than 10 of them.
pub parse_cmd-show_line : (l : Line) → IsLine l → parse_cmd (show_line l []) ≡ ok (cmd_line l)
unfolding parse_cmd skip
parse_cmd-show_line l h =
    rw (line_lem l [] (4 * length (show_line l []) + 4) h (end refl) refl (omega arith)) refl
