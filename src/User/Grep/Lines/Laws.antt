-- ===== src/User/Grep/Lines/Laws.antt =====
-- The loop of grep.c against the lines of the whole file.
use os_project.Base.{
  is_empty, ℕ, zero, suc, ◌≤◌, ◌<◌, ◌≡◌, ◌≢◌, refl, sym, ap, ◌∙◌, Bool, true, false, ◌||◌, none,
  some, List, [], ◌∷◌, ◌++◌, ◌==◌, if◌then◌else◌, newline, length, length-append, arith, All,
  All-append, All-split, Bool-cases, Option-cases, inl, inr,
}
use mathlib.Core.List.{append_assoc, append-nil}
use mathlib.Core.Path.{subst}
use os_project.User.Grep.Lines.{strchr, written, each_line, kept, grep}

-- What grep is to write for a file: the lines that match. A line ends at a newline, and `line` is what
-- has been seen of it.
abbrev pub matching : List ℕ → List ℕ → List ℕ → List ℕ
matching pattern line [] = []
matching pattern line (t ∷ ts) =
    if t == newline
    then written pattern line ++ matching pattern [] ts
    else matching pattern (line ++ (t ∷ [])) ts

abbrev pub has_newline : List ℕ → Bool
has_newline [] = false
has_newline (t ∷ ts) = t == newline || has_newline ts

abbrev pub concat : List (List ℕ) → List ℕ
concat [] = []
concat (xs ∷ xss) = xs ++ concat xss

abbrev pub IsText : List ℕ → Type 0
IsText = All (λ t. t ≢ 0)

strchr-none : (p : List ℕ) → IsText p → strchr newline p ≡ none → has_newline p ≡ false
unfolding strchr
strchr-none [] h e = refl
strchr-none (t ∷ ts) h e = elim (Option-cases (strchr newline ts)) [
  | inl later ↦ ground (arith, h.0, e, strchr-none ts h.1 later)
  | inr (s, later) ↦ ground (arith, h.0, e, later)
]

strchr-some :
    (p : List ℕ) (s : List ℕ × List ℕ)
    → IsText p
    → strchr newline p ≡ some s
    → (p ≡ s.0 ++ (newline ∷ s.1)) × (has_newline s.0 ≡ false)
unfolding strchr
strchr-some [] s h e = absurd (ground (arith, e))
strchr-some (t ∷ ts) s h e = elim (Bool-cases (t == newline)) [
  | inl here ↦
      let same : t ≡ newline = ground (arith, here) in
      let found : ([], ts) ≡ s = ground (arith, h.0, e, here) in
      subst (λ s. (t ∷ ts ≡ s.0 ++ (newline ∷ s.1)) × (has_newline s.0 ≡ false)) found
        (ap (λ c. c ∷ ts) same, refl)
  | inr there ↦ elim (Option-cases (strchr newline ts)) [
    | inl later ↦ absurd (ground (arith, h.0, e, later, there))
    | inr (u, later) ↦
        let found : (t ∷ u.0, u.1) ≡ s = ground (arith, h.0, e, later, there) in
        let (same, none_before) = strchr-some ts u h.1 later in
        subst (λ s. (t ∷ ts ≡ s.0 ++ (newline ∷ s.1)) × (has_newline s.0 ≡ false)) found
          (ap (λ l. t ∷ l) same, ground (arith, there, none_before))
  ]
]

matching_line :
    (pattern seen line ts : List ℕ)
    → has_newline line ≡ false
    → matching pattern seen (line ++ (newline ∷ ts))
      ≡ written pattern (seen ++ line) ++ matching pattern [] ts
matching_line pattern seen [] ts h =
    ap (λ l. written pattern l ++ matching pattern [] ts) (sym (append-nil seen))
matching_line pattern seen (t ∷ line) ts h =
    let off : (t == newline) ≡ false = ground (arith, h) in
    rw off (
      matching_line pattern (seen ++ (t ∷ [])) line ts (ground (arith, h))
      ∙ ap (λ l. written pattern l ++ matching pattern [] ts) (append_assoc seen (t ∷ []) line))

matching-no_newline :
    (pattern seen ts : List ℕ) → has_newline ts ≡ false → matching pattern seen ts ≡ []
matching-no_newline pattern seen [] h = refl
matching-no_newline pattern seen (t ∷ ts) h =
    let off : (t == newline) ≡ false = ground (arith, h) in
    rw off (matching-no_newline pattern (seen ++ (t ∷ [])) ts (ground (arith, h)))

-- What the inner loop leaves: a text without a newline that is shorter, if there was one.
record Reads (pattern p : List ℕ) (r : List ℕ × List ℕ) : Type 0 where
  same : (ts : List ℕ) → matching pattern [] (p ++ ts) ≡ r.0 ++ matching pattern [] (r.1 ++ ts)
  text : IsText r.1
  rest : has_newline r.1 ≡ false
  short : length r.1 ≤ length p
  moved : has_newline p ≡ true → length r.1 < length p

one_line :
    (pattern p : List ℕ) (s r : List ℕ × List ℕ)
    → p ≡ s.0 ++ (newline ∷ s.1)
    → has_newline s.0 ≡ false
    → Reads pattern s.1 r
    → Reads pattern p (written pattern s.0 ++ r.0, r.1)
one_line pattern p s r at off h = record {
  same = λ ts.
      ap (λ l. matching pattern [] (l ++ ts)) at
      ∙ ap (matching pattern []) (append_assoc s.0 (newline ∷ s.1) ts)
      ∙ matching_line pattern [] s.0 (s.1 ++ ts) off
      ∙ ap (λ l. written pattern s.0 ++ l) (h.same ts)
      ∙ sym (append_assoc (written pattern s.0) r.0 (matching pattern [] (r.1 ++ ts)));
  text = h.text;
  rest = h.rest;
  short = omega (arith, h.short, ap length at, length-append s.0 (newline ∷ s.1));
  moved = λ e. omega (arith, h.short, ap length at, length-append s.0 (newline ∷ s.1));
}

each_line-Reads :
    (pattern : List ℕ) (rounds : ℕ) (p : List ℕ)
    → length p ≤ rounds
    → IsText p
    → Reads pattern p (each_line pattern rounds p)
unfolding each_line
each_line-Reads pattern zero [] l h = record {
  same = λ ts. refl;
  text = tt;
  rest = refl;
  short = omega arith;
  moved = λ e. absurd (ground (arith, e));
}
each_line-Reads pattern zero (t ∷ ts) l h = absurd (omega (arith, l))
each_line-Reads pattern (suc rounds) p l h = elim (Option-cases (strchr newline p)) [
  | inl e ↦
      let rest = strchr-none p h e in
      rw (e, each_line)
        (record {
          same = λ ts. refl;
          text = h;
          rest = rest;
          short = omega arith;
          moved = λ e. absurd (ground (arith, e, rest));
        })
  | inr (s, e) ↦
      let (at, off) = strchr-some p s h e in
      let parts = All-split (λ t. t ≢ 0) s.0 (newline ∷ s.1) (subst IsText at h) in
      let short : length s.1 ≤ rounds =
        omega (arith, ap length at, length-append s.0 (newline ∷ s.1), l) in
      rw (e, each_line)
        (one_line pattern p s (each_line pattern rounds s.1) at off
          (each_line-Reads pattern rounds s.1 short parts.1.1))
]

has_newline-append : (xs ys : List ℕ) → has_newline ys ≡ true → has_newline (xs ++ ys) ≡ true
has_newline-append [] ys h = h
has_newline-append (x ∷ xs) ys h = ground (arith, has_newline-append xs ys h)

is_empty-has_newline : (xs : List ℕ) → has_newline xs ≡ true → is_empty xs ≡ false
is_empty-has_newline [] h = absurd (ground (arith, h))
is_empty-has_newline (x ∷ xs) h = refl

kept_moved : (buf p : List ℕ) → length p < length buf → kept buf p ≡ p
unfolding kept
kept_moved buf p l = ground (arith, l)

-- A file without NUL bytes that is read in chunks of which each has a newline is searched as a
-- whole, the bytes without a newline that the buffer holds at the start in front of it: what is
-- written are its lines that match, in order, with nothing lost where a line is split between two
-- chunks.
pub grep-matching :
    (pattern : List ℕ) (chunks : List (List ℕ)) (buf : List ℕ)
    → All (λ c. IsText c × (has_newline c ≡ true)) chunks
    → IsText buf
    → has_newline buf ≡ false
    → grep pattern chunks buf ≡ matching pattern [] (buf ++ concat chunks)
unfolding grep
grep-matching pattern [] buf hs h e =
    sym (matching-no_newline pattern [] (buf ++ []) (ap has_newline (append-nil buf) ∙ e))
grep-matching pattern (chunk ∷ chunks) buf hs h e =
    let all : List ℕ = buf ++ chunk in
    let r : List ℕ × List ℕ = each_line pattern (length all) all in
    let line =
      each_line-Reads pattern (length all) all (omega arith)
        (All-append (λ t. t ≢ 0) buf chunk h hs.0.0) in
    let stays : kept all r.1 ≡ r.1 =
      kept_moved all r.1 (line.moved (has_newline-append buf chunk hs.0.1)) in
    rw (is_empty-has_newline chunk hs.0.1) (
      ap (λ p. r.0 ++ grep pattern chunks p) stays
      ∙ ap (λ l. r.0 ++ l) (grep-matching pattern chunks r.1 hs.1 line.text line.rest)
      ∙ sym (line.same (concat chunks))
      ∙ ap (matching pattern []) (append_assoc buf chunk (concat chunks)))

strchr-no_newline : (p : List ℕ) → IsText p → has_newline p ≡ false → strchr newline p ≡ none
strchr-no_newline p h e = elim (Option-cases (strchr newline p)) [
  | inl lost ↦ lost
  | inr (s, found) ↦
      let (at, off) = strchr-some p s h found in
      let there : has_newline (s.0 ++ (newline ∷ s.1)) ≡ true =
        has_newline-append s.0 (newline ∷ s.1) refl in
      let same = ap has_newline at in absurd (ground (arith, e, there, same))
]

each_line-stuck :
    (pattern : List ℕ) (rounds : ℕ) (p : List ℕ)
    → strchr newline p ≡ none
    → each_line pattern rounds p ≡ ([], p)
unfolding each_line
each_line-stuck pattern zero p e = refl
each_line-stuck pattern (suc rounds) p e = rw (e, each_line) refl

kept_all : (buf : List ℕ) → kept buf buf ≡ []
unfolding kept
kept_all buf = ground arith

-- If the buffer and a read that brings some bytes hold no newline and no NUL together, both are
-- lost: the rest of the file is searched as if these bytes were not in it.
pub grep_drops :
    (pattern chunk : List ℕ) (chunks : List (List ℕ)) (buf : List ℕ)
    → IsText (buf ++ chunk)
    → has_newline (buf ++ chunk) ≡ false
    → is_empty chunk ≡ false
    → grep pattern (chunk ∷ chunks) buf ≡ grep pattern chunks []
unfolding grep
grep_drops pattern chunk chunks buf h e more =
    let all : List ℕ = buf ++ chunk in
    let stuck = each_line-stuck pattern (length all) all (strchr-no_newline all h e) in
    let gone : kept all all ≡ [] = kept_all all in rw (more, stuck, gone) refl
