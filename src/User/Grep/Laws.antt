-- ===== src/User/Grep/Laws.antt =====
-- What a pattern of grep.c means, and its matcher.
use os_project.Base.{
  is_empty, ℕ, ◌≡◌, ◌⊎◌, inl, inr, refl, sym, ap, Bool, true, List, [], ◌∷◌, ◌++◌, ◌==◌,
  if◌then◌else◌, arith, Bool-cases,
}
use mathlib.Core.Logic.{◌↔◌}
use mathlib.Core.Path.{subst}
use os_project.User.Grep.{match_star, match_one, match_here, match_from, match_text}

-- The parts of a pattern: a byte, a byte any number of times, the end of the text.
pub data Atom : Type 0 where
  one : ℕ → Atom
  many : ℕ → Atom
  end_of_text : Atom

abbrev pub atoms : List ℕ → List Atom
atoms [] = []
atoms (c ∷ []) = (if c == b'$' then end_of_text else one c) ∷ []
atoms (c ∷ d ∷ re) =
    let starred = many c ∷ atoms re in
    let plain = one c ∷ atoms (d ∷ re) in if d == b'*' then starred else plain

-- The byte of a pattern stands for the byte of the text.
abbrev pub Covers : ℕ → ℕ → Type 0
Covers c t = (c ≡ b'.') ⊎ (c ≡ t)

-- The parts match at the beginning of the text.
pub data Matches : List Atom → List ℕ → Type 0 where
  nothing_left : {text : List ℕ} → Matches [] text
  at_end : {text : List ℕ} → text ≡ [] → Matches (end_of_text ∷ []) text
  byte :
      {c t : ℕ} {rest : List Atom} {ts : List ℕ}
      → Covers c t
      → Matches rest ts
      → Matches (one c ∷ rest) (t ∷ ts)
  leave :
      {c : ℕ} {rest : List Atom} {text : List ℕ} → Matches rest text → Matches (many c ∷ rest) text
  take_one :
      {c t : ℕ} {rest : List Atom} {ts : List ℕ}
      → Covers c t
      → Matches (many c ∷ rest) ts
      → Matches (many c ∷ rest) (t ∷ ts)

-- What matching a part says of the text.
one_inv :
    {c : ℕ} {rest : List Atom} {t : ℕ} {ts : List ℕ}
    → Matches (one c ∷ rest) (t ∷ ts)
    → Covers c t × Matches rest ts
one_inv (byte v d) = (v, d)

many_inv :
    {c : ℕ} {rest : List Atom} {t : ℕ} {ts : List ℕ}
    → Matches (many c ∷ rest) (t ∷ ts)
    → Matches rest (t ∷ ts) ⊎ (Covers c t × Matches (many c ∷ rest) ts)
many_inv (leave d) = inl d
many_inv (take_one v d) = inr (v, d)

one_nil : {c : ℕ} {rest : List Atom} → Matches (one c ∷ rest) [] → ⊥
one_nil d = elim d [ ]

many_nil : {c : ℕ} {rest : List Atom} → Matches (many c ∷ rest) [] → Matches rest []
many_nil (leave d) = d

end_inv : {text : List ℕ} → Matches (end_of_text ∷ []) text → text ≡ []
end_inv (at_end e) = e

module _ (here : List ℕ → Bool) (rest : List Atom)
    (decides : (ts : List ℕ) → (here ts ≡ true) ↔ Matches rest ts) where
  match_one_iff :
      (c : ℕ) (text : List ℕ) → (match_one here c text ≡ true) ↔ Matches (one c ∷ rest) text
  unfolding match_one
  match_one_iff c [] = (λ e. absurd (cc), λ d. absurd (one_nil d))
  match_one_iff c (t ∷ ts) = (
    λ e. byte (ground (arith, e)) ((decides ts).0 (ground (arith, e))),
    λ d. let (v, d') = one_inv d in ground (arith, v, (decides ts).1 d'),
  )

  match_star_iff :
      (c : ℕ) (text : List ℕ) → (match_star here c text ≡ true) ↔ Matches (many c ∷ rest) text
  unfolding match_star
  match_star_iff c [] = (λ e. leave ((decides []).0 e), λ d. (decides []).1 (many_nil d))
  match_star_iff c (t ∷ ts) = (
    λ e. elim (Bool-cases (here (t ∷ ts))) [
      | inl h ↦ leave ((decides (t ∷ ts)).0 h)
      | inr h ↦ take_one (ground (arith, e, h)) ((match_star_iff c ts).0 (ground (arith, e, h)))
    ],
    λ d. elim (many_inv d) [
      | inl now ↦ ground (arith, (decides (t ∷ ts)).1 now)
      | inr (v, later) ↦ ground (arith, v, (match_star_iff c ts).1 later)
    ],
  )

end_iff : (text : List ℕ) → (is_empty text ≡ true) ↔ Matches (end_of_text ∷ []) text
end_iff [] = (λ e. at_end refl, λ d. refl)
end_iff (t ∷ ts) = (λ e. absurd (cc), λ d. cc (end_inv d))

-- `matchhere` is true exactly if the pattern matches at the beginning of the text.
pub match_here_iff : (re text : List ℕ) → (match_here re text ≡ true) ↔ Matches (atoms re) text
unfolding match_here
match_here_iff [] text = (λ e. nothing_left, λ d. refl)
match_here_iff (c ∷ []) text = elim (Bool-cases (c == b'$')) [
  | inl dollar ↦ rw dollar (end_iff text)
  | inr other ↦ rw other (match_one_iff (match_here []) [] (match_here_iff []) c text)
]
match_here_iff (c ∷ d ∷ re) text = elim (Bool-cases (d == b'*')) [
  | inl star ↦ rw star (match_star_iff (match_here re) (atoms re) (match_here_iff re) c text)
  | inr plain ↦
      rw plain
        (match_one_iff (match_here (d ∷ re)) (atoms (d ∷ re)) (match_here_iff (d ∷ re)) c text)
]

-- The pattern matches somewhere in the text.
abbrev pub Occurs : List ℕ → List ℕ → Type 0
Occurs re text = (before after : List ℕ) × (text ≡ before ++ after) × Matches (atoms re) after

occurs_found :
    (re before after : List ℕ) → Matches (atoms re) after → match_from re (before ++ after) ≡ true
unfolding match_from
occurs_found re [] [] d = (match_here_iff re []).1 d
occurs_found re [] (t ∷ ts) d = ground (arith, (match_here_iff re (t ∷ ts)).1 d)
occurs_found re (t ∷ before) after d = ground (arith, occurs_found re before after d)

match_from_iff : (re text : List ℕ) → (match_from re text ≡ true) ↔ Occurs re text
unfolding match_from
match_from_iff re [] = (
  λ e. ([], [], refl, (match_here_iff re []).0 e),
  λ (before, after, e, d).
      subst (λ l. match_from re l ≡ true) (sym e) (occurs_found re before after d),
)
match_from_iff re (t ∷ ts) = (
  λ e. elim (Bool-cases (match_here re (t ∷ ts))) [
    | inl h ↦ ([], t ∷ ts, refl, (match_here_iff re (t ∷ ts)).0 h)
    | inr h ↦
        let (before, after, split, d) = (match_from_iff re ts).0 (ground (arith, e, h)) in
        (t ∷ before, after, ap (λ l. t ∷ l) split, d)
  ],
  λ (before, after, e, d).
      subst (λ l. match_from re l ≡ true) (sym e) (occurs_found re before after d),
)

-- What a whole pattern says: behind a `^` it matches at the beginning, else anywhere.
abbrev pub Finds : List ℕ → List ℕ → Type 0
Finds [] text = Occurs [] text
Finds (c ∷ re) text = if c == b'^' then Matches (atoms re) text else Occurs (c ∷ re) text

-- `match` ends with the right answer for every pattern and every text: true exactly if the pattern
-- matches somewhere in the text, or at its beginning where it starts with `^`.
pub match_text_iff : (re text : List ℕ) → (match_text re text ≡ true) ↔ Finds re text
unfolding match_text
match_text_iff [] text = match_from_iff [] text
match_text_iff (c ∷ re) text = elim (Bool-cases (c == b'^')) [
  | inl anchored ↦ rw anchored (match_here_iff re text)
  | inr free ↦ rw free (match_from_iff (c ∷ re) text)
]
