-- ===== src/User/Grep.antt =====
-- The matcher of grep.c, B22CS052/Helpful. A string is its bytes up to the NUL.
pub mod Laws
pub mod Lines
use os_project.Base.{is_empty, ℕ, Bool, true, false, ◌&&◌, ◌||◌, List, [], ◌∷◌, ◌==◌, if◌then◌else◌}

-- `matchstar(c, re, text)`, where `here` is `matchhere` at `re`.
unfoldable pub match_star : (List ℕ → Bool) → ℕ → List ℕ → Bool
match_star here c [] = here []
match_star here c (t ∷ ts) = here (t ∷ ts) || ((t == c || c == b'.') && match_star here c ts)

-- `*text!='\0' && (re[0]=='.' || re[0]==*text)`, and then `here` at the next byte.
unfoldable pub match_one : (List ℕ → Bool) → ℕ → List ℕ → Bool
match_one here c [] = false
match_one here c (t ∷ ts) = (c == b'.' || c == t) && here ts

unfoldable pub match_here : List ℕ → List ℕ → Bool
unfolding match_star match_one
match_here [] text = true
match_here (c ∷ []) text = if c == b'$' then is_empty text else match_one (match_here []) c text
match_here (c ∷ d ∷ re) text =
    let star = match_star (match_here re) c text in
    let one = match_one (match_here (d ∷ re)) c text in if d == b'*' then star else one

-- The loop of `match` over the text, its end too.
unfoldable pub match_from : List ℕ → List ℕ → Bool
match_from re [] = match_here re []
match_from re (t ∷ ts) = match_here re (t ∷ ts) || match_from re ts

-- `match`
unfoldable pub match_text : List ℕ → List ℕ → Bool
unfolding match_from match_here
match_text [] text = match_from [] text
match_text (c ∷ re) text = if c == b'^' then match_here re text else match_from (c ∷ re) text
