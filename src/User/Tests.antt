-- ===== src/User/Tests.antt =====
-- User programs on concrete inputs.
use os_project.Base.{◌≡◌, ◌≢◌, refl, true, false, List, [], ◌∷◌, ◌++◌, newline, arith, codes, ℕ}
use mathlib.Core.Logic.{◌↔◌}
use os_project.User.Grep.{match_star, match_one, match_here, match_from, match_text}
use os_project.User.Grep.Laws.{Finds, match_text_iff}
use os_project.User.Grep.Lines.{grep}
use os_project.User.Grep.Lines.Laws.{matching, concat, grep-matching, grep_drops}
use os_project.User.Shell.{
  Cmd, exec, redir, pipe, list, back, redirection, ok, panic, missing_file, out_of_fuel, parse_cmd,
  parse_line, parse_pipe, parse_exec, parse_redirs, parse_args, gettoken, skip, split_word, scan,
  scan_greater, is_blank, is_single, is_symbol,
}
use os_project.User.Shell.Commands.{print, parse_cmd-print}
use os_project.User.Shell.Grammar.{IsWord}
use os_project.User.Shell.Ends.{parse_cmd_ends}

starred : match_text (codes "a*b$") (codes "caab") ≡ true
unfolding match_text match_from match_here match_star match_one
starred = refl

anchored : match_text (codes "^b") (codes "ab") ≡ false
unfolding match_text match_from match_here match_star match_one
anchored = refl

match_text_iff_example :
    (match_text (codes "a*b$") (codes "caab") ≡ true) ↔ Finds (codes "a*b$") (codes "caab")
match_text_iff_example = match_text_iff (codes "a*b$") (codes "caab")

-- A file whose second line is split between two reads.
abbrev chunks : List (List ℕ)
chunks = (codes "ab" ++ (newline ∷ codes "c")) ∷ (codes "a" ++ (newline ∷ [])) ∷ []

grep-matching_example : grep (codes "a") chunks [] ≡ matching (codes "a") [] ([] ++ concat chunks)
grep-matching_example =
    grep-matching (codes "a") chunks []
      (
        ((omega arith, (omega arith, (omega arith, (omega arith, tt)))), refl),
        (((omega arith, (omega arith, tt)), refl), tt),
      )
      tt refl

grep_drops_example : grep (codes "a") (codes "a" ∷ chunks) [] ≡ grep (codes "a") chunks []
grep_drops_example = grep_drops (codes "a") (codes "a") chunks [] (omega arith, tt) refl refl

-- `(ls|wc>out)&;echo hi`, where the file belongs to `wc`.
abbrev command : Cmd
command =
    list
      (back (
        pipe (exec (codes "ls" ∷ []))
          (redir (exec (codes "wc" ∷ [])) (redirection b'>' (codes "out")))))
      (exec (codes "echo" ∷ codes "hi" ∷ []))

ls : IsWord (codes "ls")
unfolding is_blank is_symbol is_single
ls = record {
  some_byte = λ e. ground (arith, e);
  plain = ((refl, refl, omega arith), ((refl, refl, omega arith), tt));
}

wc : IsWord (codes "wc")
unfolding is_blank is_symbol is_single
wc = record {
  some_byte = λ e. ground (arith, e);
  plain = ((refl, refl, omega arith), ((refl, refl, omega arith), tt));
}

out : IsWord (codes "out")
unfolding is_blank is_symbol is_single
out = record {
  some_byte = λ e. ground (arith, e);
  plain = ((refl, refl, omega arith), ((refl, refl, omega arith), ((refl, refl, omega arith), tt)));
}

echo : IsWord (codes "echo")
unfolding is_blank is_symbol is_single
echo = record {
  some_byte = λ e. ground (arith, e);
  plain = (
    (refl, refl, omega arith),
    ((refl, refl, omega arith), ((refl, refl, omega arith), ((refl, refl, omega arith), tt))),
  );
}

hi : IsWord (codes "hi")
unfolding is_blank is_symbol is_single
hi = record {
  some_byte = λ e. ground (arith, e);
  plain = ((refl, refl, omega arith), ((refl, refl, omega arith), tt));
}

parse_cmd-print_example : parse_cmd (print command) ≡ ok command
parse_cmd-print_example = parse_cmd-print command (
  (((ls, tt), omega arith), (((wc, tt), omega arith), (out, refl))),
  ((echo, (hi, tt)), omega arith),
)

parse_cmd_ends_example : parse_cmd (codes "a | (b ; c < d &) >> e &") ≢ out_of_fuel
parse_cmd_ends_example = parse_cmd_ends (codes "a | (b ; c < d &) >> e &")

no_file : parse_cmd (codes "ls >") ≡ panic missing_file
unfolding parse_cmd parse_line parse_pipe parse_exec parse_redirs parse_args gettoken skip
    split_word scan scan_greater is_blank is_single is_symbol
no_file = refl
