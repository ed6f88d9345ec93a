-- ===== src/User/Shell/Ends.antt =====
-- The fuel that the parser of sh.c needs.
use os_project.Base.{
  ℕ, zero, suc, ◌+◌, ◌*◌, ◌≤◌, ◌<◌, ◌≡◌, ◌≢◌, refl, Bool, true, false, not, List, [], ◌∷◌, ◌++◌,
  ◌==◌, leb, if◌then◌else◌, length, arith,
}
use os_project.User.Shell.{
  back, Result, ok, panic, out_of_fuel, ◌>>=◌, Cmd, Redirection, skip, gettoken, starts,
  parse_redirs, parse_args, parse_backs, parse_line, parse_pipe, parse_exec, parse_block, parse_cmd,
}
use os_project.User.Shell.Lexer.{length-skip, length-word, gettoken_le, length-peeked}

-- The parser ends, and leaves at most `n` bytes.
abbrev pub Ends {ℓ} : {A : Type ℓ} → ℕ → Result (A × List ℕ) → Type 0
Ends n (ok (a, rest)) = length rest ≤ n
Ends n (panic m) = Unit
Ends n out_of_fuel = ⊥

Ends-bind {ℓ κ} :
    {A : Type ℓ} {B : Type κ} (k n : ℕ) (m : Result (A × List ℕ))
    (g : A × List ℕ → Result (B × List ℕ))
    → Ends k m
    → ((a : A) (rest : List ℕ) → length rest ≤ k → Ends n (g (a, rest)))
    → Ends n (m >>= g)
Ends-bind k n (ok (a, rest)) g h f = f a rest h
Ends-bind k n (panic m) g h f = tt
Ends-bind k n out_of_fuel g h f = h

Ends-if {ℓ} :
    {A : Type ℓ} (n : ℕ) (b : Bool) (x y : Result (A × List ℕ))
    → (b ≡ true → Ends n x)
    → (b ≡ false → Ends n y)
    → Ends n (if b then x else y)
Ends-if n true x y hx hy = hx refl
Ends-if n false x y hx hy = hy refl

parse_redirs-Ends : (f : ℕ) (s : List ℕ) → length s < f → Ends (length s) (parse_redirs f s)
unfolding parse_redirs
parse_redirs-Ends zero s l = absurd (omega (arith, l))
parse_redirs-Ends (suc f) s l =
    let s₁ : List ℕ = (gettoken (skip s)).2 in
    let s₂ : List ℕ = (gettoken s₁).2 in
    Ends-if (length s) (starts (b'<' ∷ b'>' ∷ []) (skip s)) _ _
      (λ e.
        let left : length s₂ < length s =
          omega (arith, gettoken_le s₁, length-peeked (b'<' ∷ b'>' ∷ []) s e) in
        Ends-if (length s) ((gettoken s₁).0 == b'a') _ _
          (λ word.
            Ends-bind (length s₂) (length s) (parse_redirs f s₂) _
              (parse_redirs-Ends f s₂ (omega (arith, left, l)))
              (λ rs rest h. omega (arith, h, left)))
          (λ other. tt))
      (λ e. length-skip s)

-- More room at the end.
Ends-le {ℓ} : {A : Type ℓ} (k n : ℕ) (m : Result (A × List ℕ)) → k ≤ n → Ends k m → Ends n m
Ends-le k n (ok (a, rest)) l h = omega (arith, l, h)
Ends-le k n (panic m) l h = tt
Ends-le k n out_of_fuel l h = h

parse_args-Ends :
    (f : ℕ) (argv : List (List ℕ)) (rs : List Redirection) (s : List ℕ)
    → length s < f
    → Ends (length s) (parse_args f argv rs s)
unfolding parse_args
parse_args-Ends zero argv rs s l = absurd (omega (arith, l))
parse_args-Ends (suc f) argv rs s l =
    let word : List ℕ = (gettoken (skip s)).1 in
    let s₁ : List ℕ = (gettoken (skip s)).2 in
    let argv' : List (List ℕ) = argv ++ (word ∷ []) in
    Ends-if (length s) (starts (b'|' ∷ b')' ∷ b'&' ∷ b';' ∷ []) (skip s)) _ _ (λ e. length-skip s)
      (λ e₁.
        Ends-if (length s) ((gettoken (skip s)).0 == 0) _ _
          (λ e. omega (arith, gettoken_le (skip s), length-skip s))
          (λ e₂.
            Ends-if (length s) (not ((gettoken (skip s)).0 == b'a')) _ _ (λ e. tt)
              (λ e₃.
                Ends-if (length s) (leb 10 (length argv')) _ _ (λ e. tt)
                  (λ e₄.
                    let left : length s₁ < length s = length-word s e₂ in
                    Ends-bind (length s₁) (length s) (parse_redirs f s₁) _
                      (parse_redirs-Ends f s₁ (omega (arith, l, left)))
                      (λ rs' s₂ h.
                        Ends-le (length s₂) (length s) (parse_args f argv' (rs ++ rs') s₂)
                          (omega (arith, h, left))
                          (parse_args-Ends f argv' (rs ++ rs') s₂ (omega (arith, h, left, l))))))))

parse_backs-Ends :
    (f : ℕ) (c : Cmd) (s : List ℕ) → length s < f → Ends (length s) (parse_backs f c s)
unfolding parse_backs
parse_backs-Ends zero c s l = absurd (omega (arith, l))
parse_backs-Ends (suc f) c s l =
    let s₁ : List ℕ = (gettoken (skip s)).2 in
    Ends-if (length s) (starts (b'&' ∷ []) (skip s)) _ _
      (λ e.
        let left : length s₁ < length s = length-peeked (b'&' ∷ []) s e in
        Ends-le (length s₁) (length s) (parse_backs f (back c) s₁) (omega (arith, left))
          (parse_backs-Ends f (back c) s₁ (omega (arith, l, left))))
      (λ e. length-skip s)

-- What each function needs for `n` bytes: 4 for a byte, and one for each function above it.
mutual
  unfolding parse_line

  parse_line-Ends : (f : ℕ) (s : List ℕ) → 4 * length s + 3 < f → Ends (length s) (parse_line f s)
  parse_line-Ends zero s l = absurd (omega (arith, l))
  parse_line-Ends (suc f) s l =
      Ends-bind (length s) (length s) (parse_pipe f s) _ (parse_pipe-Ends f s (omega (arith, l)))
        (λ p s₁ h₁.
          Ends-bind (length s₁) (length s) (parse_backs f p s₁) _
            (parse_backs-Ends f p s₁ (omega (arith, l, h₁)))
            (λ c s₂ h₂.
              let s₃ : List ℕ = (gettoken (skip s₂)).2 in
              Ends-if (length s) (starts (b';' ∷ []) (skip s₂)) _ _
                (λ e.
                  let left : length s₃ < length s₂ = length-peeked (b';' ∷ []) s₂ e in
                  Ends-bind (length s₃) (length s) (parse_line f s₃) _
                    (parse_line-Ends f s₃ (omega (arith, l, left, h₁, h₂)))
                    (λ d s₄ h. omega (arith, h, left, h₁, h₂)))
                (λ e. omega (arith, length-skip s₂, h₁, h₂))))

  parse_pipe-Ends : (f : ℕ) (s : List ℕ) → 4 * length s + 2 < f → Ends (length s) (parse_pipe f s)
  parse_pipe-Ends zero s l = absurd (omega (arith, l))
  parse_pipe-Ends (suc f) s l =
      Ends-bind (length s) (length s) (parse_exec f s) _ (parse_exec-Ends f s (omega (arith, l)))
        (λ c s₁ h₁.
          let s₂ : List ℕ = (gettoken (skip s₁)).2 in
          Ends-if (length s) (starts (b'|' ∷ []) (skip s₁)) _ _
            (λ e.
              let left : length s₂ < length s₁ = length-peeked (b'|' ∷ []) s₁ e in
              Ends-bind (length s₂) (length s) (parse_pipe f s₂) _
                (parse_pipe-Ends f s₂ (omega (arith, l, left, h₁)))
                (λ d s₃ h. omega (arith, h, left, h₁)))
            (λ e. omega (arith, length-skip s₁, h₁)))

  parse_exec-Ends : (f : ℕ) (s : List ℕ) → 4 * length s + 1 < f → Ends (length s) (parse_exec f s)
  parse_exec-Ends zero s l = absurd (omega (arith, l))
  parse_exec-Ends (suc f) s l =
      Ends-if (length s) (starts (b'(' ∷ []) (skip s)) _ _
        (λ e.
          Ends-le (length (skip s)) (length s) (parse_block f (skip s)) (length-skip s)
            (parse_block-Ends f (skip s) (omega (arith, l, length-skip s))))
        (λ e.
          Ends-bind (length (skip s)) (length s) (parse_redirs f (skip s)) _
            (parse_redirs-Ends f (skip s) (omega (arith, l, length-skip s)))
            (λ rs s₁ h.
              Ends-le (length s₁) (length s) (parse_args f [] rs s₁)
                (omega (arith, h, length-skip s))
                (parse_args-Ends f [] rs s₁ (omega (arith, l, h, length-skip s)))))

  parse_block-Ends : (f : ℕ) (s : List ℕ) → 4 * length s < f → Ends (length s) (parse_block f s)
  parse_block-Ends zero s l = absurd (omega (arith, l))
  parse_block-Ends (suc f) s l =
      let s₁ : List ℕ = (gettoken (skip s)).2 in
      Ends-if (length s) (starts (b'(' ∷ []) (skip s)) _ _
        (λ e.
          let left : length s₁ < length s = length-peeked (b'(' ∷ []) s e in
          Ends-bind (length s₁) (length s) (parse_line f s₁) _
            (parse_line-Ends f s₁ (omega (arith, l, left)))
            (λ c s₂ h₂.
              let s₃ : List ℕ = (gettoken (skip s₂)).2 in
              Ends-if (length s) (starts (b')' ∷ []) (skip s₂)) _ _
                (λ e'.
                  let left' : length s₃ < length s₂ = length-peeked (b')' ∷ []) s₂ e' in
                  Ends-bind (length s₃) (length s) (parse_redirs f s₃) _
                    (parse_redirs-Ends f s₃ (omega (arith, l, left, left', h₂)))
                    (λ rs s₄ h. omega (arith, h, left, left', h₂)))
                (λ e'. tt)))
        (λ e. tt)

Ends-ne {ℓ} :
    {A : Type ℓ} (n : ℕ) (m : Result (A × List ℕ)) (g : A × List ℕ → Result A)
    → Ends n m
    → ((r : A × List ℕ) → g r ≢ out_of_fuel)
    → (m >>= g) ≢ out_of_fuel
Ends-ne n (ok r) g h k = k r
Ends-ne n (panic m) g h k = λ e. ground (arith, e)
Ends-ne n out_of_fuel g h k = absurd h

-- The parser ends on every line: it gives a command or a message.
pub parse_cmd_ends : (s : List ℕ) → parse_cmd s ≢ out_of_fuel
unfolding parse_cmd
parse_cmd_ends s =
    Ends-ne (length s) (parse_line (4 * length s + 4) s) _
      (parse_line-Ends (4 * length s + 4) s (omega arith)) (λ r e. ground (arith, e))
