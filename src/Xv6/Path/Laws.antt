-- ===== src/Xv6/Path/Laws.antt =====
-- The names of a path of fs.c, and the inodes that they lead to.
use os_project.Base.{
  ◌⊎◌, is_empty, ℕ, zero, suc, ◌+◌, ◌≤◌, ◌<◌, ◌≡◌, refl, sym, ap, ◌∙◌, Bool, true, false, not, ◌&&◌,
  Option, none, some, List, [], ◌∷◌, ◌++◌, ◌==◌, if◌then◌else◌, take, length, arith, Bool-cases,
  Option-cases, inl, inr,
}
use mathlib.Core.List.{append_assoc, append-nil}
use os_project.Xv6.Path.{dirsiz, skip_slashes, span, skipelem, Inodes, walk, namex}

-- The names of a path: what stands between slashes, cut to the size of a directory entry. `seen` is
-- the part of a name that has been read.
abbrev pub elements : List ℕ → List ℕ → List (List ℕ)
elements seen [] = if is_empty seen then [] else take dirsiz seen ∷ []
elements seen (c ∷ cs) =
    if c == b'/'
    then (if is_empty seen then elements [] cs else take dirsiz seen ∷ elements [] cs)
    else elements (seen ++ (c ∷ [])) cs

abbrev pub no_names : List (List ℕ) → Bool
no_names [] = true
no_names (n ∷ ns) = false

-- Where a list of names leads from an inode.
abbrev pub follow : Inodes → Bool → List ℕ → ℕ → List (List ℕ) → Option (ℕ × List ℕ)
follow fs nameiparent name ip [] = if nameiparent then none else some (ip, name)
follow fs nameiparent name ip (n ∷ ns) =
    if not (fs.is_dir ip)
    then none
    else if nameiparent && no_names ns
    then some (ip, n)
    else elim (fs.dirlookup ip n) [ none ↦ none | some next ↦ follow fs nameiparent n next ns ]

abbrev pub is_absolute : List ℕ → Bool
is_absolute [] = false
is_absolute (c ∷ cs) = c == b'/'

-- One byte of a path, by whether it is a slash.
module _ (c : ℕ) (cs : List ℕ) where
  skip_slashes_slash : (c == b'/') ≡ true → skip_slashes (c ∷ cs) ≡ skip_slashes cs
  unfolding skip_slashes
  skip_slashes_slash e = rw e refl

  skip_slashes_other : (c == b'/') ≡ false → skip_slashes (c ∷ cs) ≡ c ∷ cs
  unfolding skip_slashes
  skip_slashes_other e = ground (arith, e)

  span_slash : (c == b'/') ≡ true → span (c ∷ cs) ≡ ([], c ∷ cs)
  unfolding span
  span_slash e = ground (arith, e)

  span_other : (c == b'/') ≡ false → span (c ∷ cs) ≡ (c ∷ (span cs).0, (span cs).1)
  unfolding span
  span_other e = rw e refl

  elements_blank : (c == b'/') ≡ true → elements [] (c ∷ cs) ≡ elements [] cs
  elements_blank e = rw e refl

  elements_slash :
      (seen : List ℕ)
      → is_empty seen ≡ false
      → (c == b'/') ≡ true
      → elements seen (c ∷ cs) ≡ take dirsiz seen ∷ elements [] cs
  elements_slash seen off e = rw (e, off) refl

  elements_other :
      (seen : List ℕ)
      → (c == b'/') ≡ false
      → elements seen (c ∷ cs) ≡ elements (seen ++ (c ∷ [])) cs
  elements_other seen e = rw e refl

elements-skip_slashes : (path : List ℕ) → elements [] (skip_slashes path) ≡ elements [] path
unfolding skip_slashes
elements-skip_slashes [] = refl
elements-skip_slashes (c ∷ cs) = elim (Bool-cases (c == b'/')) [
  | inl slash ↦
      ap (elements []) (skip_slashes_slash c cs slash)
      ∙ elements-skip_slashes cs
      ∙ sym (elements_blank c cs slash)
  | inr other ↦ ap (elements []) (skip_slashes_other c cs other)
]

elements_end :
    (seen : List ℕ)
    → is_empty (seen ++ []) ≡ false
    → elements seen [] ≡ take dirsiz (seen ++ []) ∷ []
elements_end seen h =
    let off : is_empty seen ≡ false = ap is_empty (sym (append-nil seen)) ∙ h in
    rw off (ap (λ l. take dirsiz l ∷ []) (sym (append-nil seen)))

elements-span :
    (seen path : List ℕ)
    → is_empty (seen ++ (span path).0) ≡ false
    → elements seen path ≡ take dirsiz (seen ++ (span path).0) ∷ elements [] (span path).1
unfolding span
elements-span seen [] h = elements_end seen h
elements-span seen (c ∷ cs) h = elim (Bool-cases (c == b'/')) [
  | inl slash ↦
      let none_more : is_empty (seen ++ []) ≡ false =
        ap (λ s. is_empty (seen ++ s.0)) (sym (span_slash c cs slash)) ∙ h in
      let off : is_empty seen ≡ false = ap is_empty (sym (append-nil seen)) ∙ none_more in
      elements_slash c cs seen off slash
      ∙ ap (λ l. take dirsiz l ∷ elements [] cs) (sym (append-nil seen))
      ∙ ap (λ l. take dirsiz (seen ++ []) ∷ l) (sym (elements_blank c cs slash))
      ∙ ap (λ s. take dirsiz (seen ++ s.0) ∷ elements [] s.1) (sym (span_slash c cs slash))
  | inr other ↦
      let s = span_other c cs other in
      let shift = append_assoc seen (c ∷ []) (span cs).0 in
      let more : is_empty (seen ++ (c ∷ (span cs).0)) ≡ false =
        ap (λ s. is_empty (seen ++ s.0)) (sym s) ∙ h in
      elements_other c cs seen other
      ∙ elements-span (seen ++ (c ∷ [])) cs (ap is_empty shift ∙ more)
      ∙ ap (λ l. take dirsiz l ∷ elements [] (span cs).1) shift
      ∙ ap (λ s. take dirsiz (seen ++ s.0) ∷ elements [] s.1) (sym s)
]

-- What is left behind slashes is empty, or begins with another byte.
skip_slashes-cases :
    (path : List ℕ)
    → (skip_slashes path ≡ [])
      ⊎ ((c : ℕ) × (cs : List ℕ) × (skip_slashes path ≡ c ∷ cs) × ((c == b'/') ≡ false))
unfolding skip_slashes
skip_slashes-cases [] = inl refl
skip_slashes-cases (c ∷ cs) = elim (Bool-cases (c == b'/')) [
  | inl slash ↦ elim (skip_slashes-cases cs) [
    | inl e ↦ inl (skip_slashes_slash c cs slash ∙ e)
    | inr (d, ds, e, other) ↦ inr (d, ds, skip_slashes_slash c cs slash ∙ e, other)
  ]
  | inr other ↦ inr (c, cs, skip_slashes_other c cs other, other)
]

span-begins : (c : ℕ) (cs : List ℕ) → (c == b'/') ≡ false → is_empty (span (c ∷ cs)).0 ≡ false
span-begins c cs other = ap (λ s. is_empty s.0) (span_other c cs other)

length-skip_slashes : (path : List ℕ) → length (skip_slashes path) ≤ length path
unfolding skip_slashes
length-skip_slashes [] = omega arith
length-skip_slashes (c ∷ cs) = ground (arith, length-skip_slashes cs)

length-span : (path : List ℕ) → length (span path).1 ≤ length path
unfolding span
length-span [] = omega arith
length-span (c ∷ cs) = ground (arith, length-span cs)

no_names-skip_slashes : (path : List ℕ) → no_names (elements [] path) ≡ is_empty (skip_slashes path)
no_names-skip_slashes path =
    ap no_names (sym (elements-skip_slashes path)) ∙ elim (skip_slashes-cases path) [
      | inl e ↦ ap (λ p. no_names (elements [] p)) e ∙ sym (ap is_empty e)
      | inr (c, cs, e, other) ↦
          ap (λ p. no_names (elements [] p)) e
          ∙ ap no_names (elements-span [] (c ∷ cs) (span-begins c cs other))
          ∙ sym (ap is_empty e)
    ]

-- A step of the walk takes the first name of the path.
record Takes (path : List ℕ) (s : List ℕ × List ℕ) : Type 0 where
  names : elements [] path ≡ s.0 ∷ elements [] s.1
  last : is_empty s.1 ≡ no_names (elements [] s.1)
  shorter : length s.1 < length path

skipelem-cases :
    (path : List ℕ)
    → ((skipelem path ≡ none) × (elements [] path ≡ []))
      ⊎ ((s : List ℕ × List ℕ) × (skipelem path ≡ some s) × Takes path s)
unfolding skipelem
skipelem-cases path = elim (skip_slashes-cases path) [
  | inl e ↦ inl (ground (arith, e), sym (elements-skip_slashes path) ∙ ap (elements []) e)
  | inr (c, cs, e, other) ↦
      let u : List ℕ × List ℕ = span (c ∷ cs) in
      let same = elements-skip_slashes u.1 in
      inr (
        (take dirsiz u.0, skip_slashes u.1),
        rw (e, skipelem) refl,
        record {
          names =
              sym (elements-skip_slashes path)
              ∙ ap (elements []) e
              ∙ elements-span [] (c ∷ cs) (span-begins c cs other)
              ∙ ap (λ ns. take dirsiz u.0 ∷ ns) (sym same);
          last = sym (no_names-skip_slashes u.1) ∙ ap no_names (sym same);
          shorter = omega (
            arith,
            length-skip_slashes u.1,
            length-span cs,
            ap length e,
            length-skip_slashes path,
            ap (λ s. length s.1) (span_other c cs other),
          );
        },
      )
]

walk-follow :
    (fs : Inodes) (nameiparent : Bool) (rounds : ℕ) (path name : List ℕ) (ip : ℕ)
    → length path < rounds
    → walk fs nameiparent rounds path name ip ≡ follow fs nameiparent name ip (elements [] path)
unfolding walk
walk-follow fs nameiparent zero path name ip l = absurd (omega (arith, l))
walk-follow fs nameiparent (suc rounds) path name ip l = elim (skipelem-cases path) [
  | inl (e, names) ↦ rw (e, names, walk) refl
  | inr (s, e, t) ↦ elim (Option-cases (fs.dirlookup ip s.0)) [
    | inl missing ↦ rw (e, t.names, t.last, missing, walk) refl
    | inr (inode, found) ↦
        let later = walk-follow fs nameiparent rounds s.1 s.0 inode (omega (arith, l, t.shorter)) in
        rw (e, t.names, t.last, found, walk)
          (ap
            (λ r.
              if not (fs.is_dir ip)
              then none
              else if nameiparent && no_names (elements [] s.1)
              then some (ip, s.0)
              else r)
            later)
  ]
]

-- The loop of `namex` ends for every path, and leads where the names of the path lead from the root or
-- from the current directory: each inode on the way must be a directory that has the next name, and
-- for `nameiparent` the last name is not looked up but given, and there must be one.
pub namex-follow :
    (fs : Inodes) (root cwd : ℕ) (nameiparent : Bool) (path : List ℕ)
    → namex fs root cwd nameiparent path
      ≡ follow fs nameiparent [] (if is_absolute path then root else cwd) (elements [] path)
unfolding namex
namex-follow fs root cwd nameiparent [] = walk-follow fs nameiparent 1 [] [] cwd (omega arith)
namex-follow fs root cwd nameiparent (c ∷ cs) =
    walk-follow fs nameiparent (length (c ∷ cs) + 1) (c ∷ cs) [] (if c == b'/' then root else cwd)
      (omega arith)
