-- ===== src/User/Grep/Lines.antt =====
-- The loop of `grep` of grep.c over the lines of a file, with `strchr` of ulib.c. What `read` gives is
-- a list of chunks; an empty one is the end of the file.
pub mod Laws
use os_project.Base.{
  is_empty, ℕ, zero, suc, ◌+◌, Bool, true, false, ◌&&◌, ◌||◌, Option, none, some, List, [], ◌∷◌,
  ◌++◌, ◌==◌, if◌then◌else◌, newline, length,
}
use os_project.User.Grep.{match_text}

-- The string before the first `c` and what stands behind it; the search ends at a NUL.
unfoldable pub strchr : ℕ → List ℕ → Option (List ℕ × List ℕ)
strchr c [] = none
strchr c (t ∷ ts) =
    let later = strchr c ts in
    if t == 0
    then none
    else if t == c
    then some ([], ts)
    else elim later [ none ↦ none | some s ↦ some (t ∷ s.0, s.1) ]

abbrev pub written : List ℕ → List ℕ → List ℕ
written pattern line = if match_text pattern line then line ++ (newline ∷ []) else []

-- The inner loop at `p`: what it writes, and where `p` ends up. A round takes a byte at least.
unfoldable pub each_line : List ℕ → ℕ → List ℕ → List ℕ × List ℕ
each_line pattern zero p = ([], p)
each_line pattern (suc rounds) p = elim (strchr newline p) [
  | none ↦ ([], p)
  | some s ↦ let (out, rest) = each_line pattern rounds s.1 in (written pattern s.0 ++ out, rest)
]

-- What stays in the buffer: nothing if `p` has not moved.
unfoldable pub kept : List ℕ → List ℕ → List ℕ
kept buf p = if length p == length buf then [] else p

-- The outer loop, with the `m` bytes that the buffer holds.
unfoldable pub grep : List ℕ → List (List ℕ) → List ℕ → List ℕ
unfolding each_line kept
grep pattern [] buf = []
grep pattern (chunk ∷ chunks) buf =
    let all = buf ++ chunk in
    let (out, p) = each_line pattern (length all) all in
    let more = grep pattern chunks (kept all p) in if is_empty chunk then [] else out ++ more
