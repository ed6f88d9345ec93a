-- ===== src/User/Shell/Commands.antt =====
-- A printer of the commands of sh.c, and the parser on what it prints.
use os_project.Base.{
  ℕ, zero, suc, ◌<◌, ◌≡◌, refl, ap, ◌∙◌, List, [], ◌∷◌, ◌++◌, length, All, All-append, ap₂,
}
use os_project.User.Shell.{Cmd, exec, redir, pipe, list, back, Redirection, wrap, ok, parse_cmd}
use os_project.User.Shell.Grammar.{
  Line, Pipe, Part, one, seq, last, bar, simple, block, show_line, backs, cmd_line, cmd_pipe,
  cmd_part, IsWord, IsRedirection, IsLine, IsPipe, IsPart,
}
use os_project.User.Shell.RoundTrip.{parse_cmd-show_line}

-- The line that a command is, and what it is inside others; parentheses stand where they must.
pub record Forms : Type 0 where
  pub part : Part
  pub piped : Pipe
  pub ands : ℕ
  pub before : Pipe  -- the pipeline before the `&` signs
  pub line : Line

abbrev of_part : Part → Forms
of_part x = record { part = x; piped = last x; ands = 0; before = last x; line = one (last x) 0 }

abbrev of_pipe : Pipe → Forms
of_pipe p = record { part = block (one p 0) []; piped = p; ands = 0; before = p; line = one p 0 }

abbrev of_ands : Pipe → ℕ → Forms
of_ands p n = record {
  part = block (one p n) [];
  piped = last (block (one p n) []);
  ands = n;
  before = p;
  line = one p n;
}

abbrev of_line : Line → Forms
of_line l = record {
  part = block l [];
  piped = last (block l []);
  ands = 0;
  before = last (block l []);
  line = l;
}

abbrev add_redir : Part → Redirection → Part
add_redir (simple ws rs) r = simple ws (rs ++ (r ∷ []))
add_redir (block l rs) r = block l (rs ++ (r ∷ []))

abbrev forms : Cmd → Forms
forms (exec ws) = of_part (simple ws [])
forms (redir c r) = of_part (add_redir (forms c).part r)
forms (pipe a b) = of_pipe (bar (forms a).part (forms b).piped)
forms (list a b) = of_line (seq (forms a).before (forms a).ands (forms b).line)
forms (back c) = of_ands (forms c).before (suc (forms c).ands)

abbrev pub print : Cmd → List ℕ
print c = show_line (forms c).line []

-- The commands that the parser can give: words for arguments and files, fewer than 10 arguments.
abbrev pub IsCommand : Cmd → Type 0
IsCommand (exec ws) = All IsWord ws × (length ws < 10)
IsCommand (redir c r) = IsCommand c × IsRedirection r
IsCommand (pipe a b) = IsCommand a × IsCommand b
IsCommand (list a b) = IsCommand a × IsCommand b
IsCommand (back c) = IsCommand c

record Stands (x : Forms) (c : Cmd) : Type 0 where
  part : cmd_part x.part ≡ c
  piped : cmd_pipe x.piped ≡ c
  before : backs x.ands (cmd_pipe x.before) ≡ c
  line : cmd_line x.line ≡ c
  is_part : IsPart x.part
  is_piped : IsPipe x.piped
  is_before : IsPipe x.before
  is_line : IsLine x.line

part-Stands : (x : Part) (c : Cmd) → cmd_part x ≡ c → IsPart x → Stands (of_part x) c
unfolding cmd_line IsLine
part-Stands x c e h = record {
  part = e;
  piped = e;
  before = e;
  line = e;
  is_part = h;
  is_piped = h;
  is_before = h;
  is_line = h;
}

wrap-append :
    (c : Cmd) (rs : List Redirection) (r : Redirection)
    → wrap c (rs ++ (r ∷ [])) ≡ redir (wrap c rs) r
unfolding wrap
wrap-append c [] r = refl
wrap-append c (q ∷ rs) r = wrap-append (redir c q) rs r

cmd_part-add_redir : (x : Part) (r : Redirection) → cmd_part (add_redir x r) ≡ redir (cmd_part x) r
unfolding cmd_part
cmd_part-add_redir (simple ws rs) r = wrap-append (exec ws) rs r
cmd_part-add_redir (block l rs) r = wrap-append (cmd_line l) rs r

add_redir-IsPart :
    (x : Part) (r : Redirection) → IsPart x → IsRedirection r → IsPart (add_redir x r)
unfolding IsPart
add_redir-IsPart (simple ws rs) r h k = (h.0, h.1, All-append IsRedirection rs (r ∷ []) h.2 (k, tt))
add_redir-IsPart (block l rs) r h k = (h.0, All-append IsRedirection rs (r ∷ []) h.1 (k, tt))

backs-back : (n : ℕ) (c : Cmd) → backs n (back c) ≡ back (backs n c)
backs-back zero c = refl
backs-back (suc n) c = backs-back n (back c)

forms-Stands : (c : Cmd) → IsCommand c → Stands (forms c) c
unfolding cmd_line IsLine wrap
forms-Stands (exec ws) h = part-Stands (simple ws []) (exec ws) refl (h.0, h.1, tt)
forms-Stands (redir c r) h =
    let x = forms-Stands c h.0 in
    part-Stands (add_redir (forms c).part r) (redir c r)
      (cmd_part-add_redir (forms c).part r ∙ ap (λ d. redir d r) x.part)
      (add_redir-IsPart (forms c).part r x.is_part h.1)
forms-Stands (pipe a b) h =
    let x = forms-Stands a h.0 in
    let y = forms-Stands b h.1 in
    let e = ap₂ pipe x.part y.piped in
    let ps : IsPart (forms a).part × IsPipe (forms b).piped = (x.is_part, y.is_piped) in
    record {
      part = e;
      piped = e;
      before = e;
      line = e;
      is_part = (ps, tt);
      is_piped = ps;
      is_before = ps;
      is_line = ps;
    }
forms-Stands (list a b) h =
    let x = forms-Stands a h.0 in
    let y = forms-Stands b h.1 in
    let e = ap₂ list x.before y.line in
    let ls : IsPipe (forms a).before × IsLine (forms b).line = (x.is_before, y.is_line) in
    record {
      part = e;
      piped = e;
      before = e;
      line = e;
      is_part = (ls, tt);
      is_piped = (ls, tt);
      is_before = (ls, tt);
      is_line = ls;
    }
forms-Stands (back c) h =
    let x = forms-Stands c h in
    let e = backs-back (forms c).ands (cmd_pipe (forms c).before) ∙ ap back x.before in
    record {
      part = e;
      piped = e;
      before = e;
      line = e;
      is_part = (x.is_before, tt);
      is_piped = (x.is_before, tt);
      is_before = x.is_before;
      is_line = x.is_before;
    }

-- The parser gives back every command that is printed: pipelines, lists, `&`, redirections and
-- parentheses nested in any way, where words have some byte and no blank or symbol, redirections are
-- as the parser makes them, and a command has fewer than 10 words.
pub parse_cmd-print : (c : Cmd) → IsCommand c → parse_cmd (print c) ≡ ok c
parse_cmd-print c h =
    let x = forms-Stands c h in parse_cmd-show_line (forms c).line x.is_line ∙ ap ok x.line
