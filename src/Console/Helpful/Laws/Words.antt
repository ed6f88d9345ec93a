-- ===== src/Console/Helpful/Laws/Words.antt =====
-- The search of `auto_complete` in B22CS052/Helpful/console.c.
use os_project.Base.{
  ℕ, ◌≡◌, ◌≢◌, refl, sym, ap, ◌∙◌, true, false, none, some, List, [], ◌∷◌, ◌++◌, arith, All,
  Bool-cases, inl, inr,
}
use os_project.Console.Helpful.Complete.{is_prefix, find_word}

-- The word is the typed word with more behind it.
pub is_prefix_sound :
    (typed word : List ℕ) → is_prefix typed word ≡ true → (rest : List ℕ) × (word ≡ typed ++ rest)
unfolding is_prefix
is_prefix_sound [] word h = (word, refl)
is_prefix_sound (c ∷ cs) [] h = cc
is_prefix_sound (c ∷ cs) (d ∷ ds) h =
    let (rest, e) = is_prefix_sound cs ds (ground (arith, h)) in (rest, ground (arith, h, e))

is_prefix_complete : (typed rest : List ℕ) → is_prefix typed (typed ++ rest) ≡ true
unfolding is_prefix
is_prefix_complete [] rest = refl
is_prefix_complete (c ∷ cs) rest = ground (arith, is_prefix_complete cs rest)

-- Where a word is found: the words before it do not begin with the typed one, and it does.
pub record FirstMatch (typed : List ℕ) (words : List (List ℕ)) (word : List ℕ) : Type 0 where
  pub before : List (List ℕ)
  pub after : List (List ℕ)
  pub place : words ≡ before ++ (word ∷ after)
  pub earlier : All (λ w. (rest : List ℕ) → w ≢ typed ++ rest) before
  pub rest : List ℕ
  pub begins : word ≡ typed ++ rest

not_prefix : (typed w : List ℕ) → is_prefix typed w ≡ false → (rest : List ℕ) → w ≢ typed ++ rest
not_prefix typed w h rest e = cc (h, is_prefix_complete typed rest, ap (is_prefix typed) e)

-- A word that is found stands in the list, begins with what is typed, and no word before it does.
find_word_first :
    (typed : List ℕ) (words : List (List ℕ)) (word : List ℕ)
    → find_word typed words ≡ some word
    → FirstMatch typed words word
unfolding find_word
find_word_first typed [] word h = absurd (cc)
find_word_first typed (w ∷ ws) word h = elim (Bool-cases (is_prefix typed w)) [
  | inl p ↦
      let same : w ≡ word = ground (arith, p, h) in
      let (rest, e) = is_prefix_sound typed w p in
      record {
        before = [];
        after = ws;
        place = ap (λ v. v ∷ ws) same;
        earlier = tt;
        rest = rest;
        begins = sym same ∙ e;
      }
  | inr n ↦
      let m = find_word_first typed ws word (ground (arith, n, h)) in
      record {
        before = w ∷ m.before;
        after = m.after;
        place = ap (λ l. w ∷ l) m.place;
        earlier = (not_prefix typed w n, m.earlier);
        rest = m.rest;
        begins = m.begins;
      }
]

-- If none is found, no word of the list begins with what is typed.
pub find_word-none :
    (typed : List ℕ) (words : List (List ℕ))
    → find_word typed words ≡ none
    → All (λ w. (rest : List ℕ) → w ≢ typed ++ rest) words
unfolding find_word
find_word-none typed [] h = tt
find_word-none typed (w ∷ ws) h = elim (Bool-cases (is_prefix typed w)) [
  | inl p ↦ absurd (ground (arith, p, h))
  | inr n ↦ (not_prefix typed w n, find_word-none typed ws (ground (arith, n, h)))
]
