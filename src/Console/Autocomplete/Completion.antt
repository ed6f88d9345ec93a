-- ===== src/Console/Autocomplete/Completion.antt =====
-- The whole `autocomplete` of B22ES019/autocomplete/console.c against what a completion means: the first
-- command that starts with the word behind the last blank.
use os_project.Base.{
  ℕ, zero, suc, ◌+◌, ◌-◌, ◌%◌, ◌^◌, ◌≤◌, ◌<◌, ◌≡◌, ◌≢◌, refl, Bool, true, false, ◌&&◌, none, some,
  List, [], ◌∷◌, ◌++◌, ◌==◌, if◌then◌else◌, arith, length, add32, sub32, All, ltb, inl, inr,
  Bool-cases,
}
use os_project.Console.Autocomplete.{
  byte_at, find_start, copy_word, strncmp, find_command, commands, drop, put_rest, word_before,
  autocomplete,
}
use os_project.Console.Autocomplete.Laws.{put_rest-line}
use os_project.Console.Editor.{Console}
use os_project.Console.Ring.{Ring, input_buf}
use os_project.Console.Ring.View.{IsValid, ready, line, window}

-- A byte of a string, which is not its NUL.
abbrev pub IsLetter : ℕ → Type 0
IsLetter c = (0 < c) × (c < 256)

abbrev is_start : List ℕ → List ℕ → Bool
is_start [] w = true
is_start (c ∷ cs) [] = false
is_start (c ∷ cs) (d ∷ ds) = c == d && is_start cs ds

-- What the first of the commands that starts with the word has behind it.
abbrev pub completion : List ℕ → List (List ℕ) → List ℕ
completion word [] = []
completion word (w ∷ ws) = if is_start word w then drop (length word) w else completion word ws

strncmp-is_start :
    (p q : List ℕ) → All IsLetter p → All IsLetter q → (strncmp (length p) p q == 0) ≡ is_start p q
unfolding strncmp
strncmp-is_start [] q h k = refl
strncmp-is_start (c ∷ p) [] h k = ground (arith, h.0)
strncmp-is_start (c ∷ p) (d ∷ q) h k = ground (arith, h.0, k.0, strncmp-is_start p q h.1 k.1)

find_start-blank :
    (k rounds i : ℕ) (s : Ring)
    → k < rounds
    → s.r ≤ i
    → i + k < 2 ^ 31
    → s.buf (i % input_buf) ≡ b' '
    → ((j : ℕ) → i < j → j ≤ i + k → s.buf (j % input_buf) ≢ b' ')
    → find_start rounds s (i + k) ≡ some i
unfolding find_start byte_at
find_start-blank k zero i s h l m b f = absurd (omega (arith, h))
find_start-blank zero (suc rounds) i s h l m b f =
    let at : i + 0 ≡ i = omega arith in rw at (ground (arith, l, m, b))
find_start-blank (suc k) (suc rounds) i s h l m b f =
    let before : sub32 (i + suc k) 1 ≡ i + k = omega (arith, m) in
    let letter : s.buf ((i + suc k) % input_buf) ≢ b' ' =
      f (i + suc k) (omega arith) (omega arith) in
    let ih =
      find_start-blank k rounds i s (omega (arith, h)) l (omega (arith, m)) b
        (λ j a z. f j a (omega (arith, z))) in
    ground (arith, before, letter, ih, l, m)

copy_word-window : (s : Ring) (i n : ℕ) → i + n ≤ 2 ^ 31 → copy_word s i n ≡ some (window s.buf i n)
unfolding copy_word byte_at
copy_word-window s i zero h = refl
copy_word-window s i (suc n) h =
    let next : add32 i 1 ≡ i + 1 = omega (arith, h) in
    ground (arith, next, h, copy_word-window s (i + 1) n (omega (arith, h)))

find_command-completion :
    (word : List ℕ) (ws : List (List ℕ)) (t : Console)
    → All IsLetter word
    → All (All IsLetter) ws
    → elim (find_command word ws) [
      | none ↦ some t
      | some w ↦ some (put_rest (drop (length word) w) t)
    ]
      ≡ some (put_rest (completion word ws) t)
unfolding find_command put_rest
find_command-completion word [] t h k = refl
find_command-completion word (w ∷ ws) t h k =
    rw (strncmp-is_start word w h k.0) (elim (Bool-cases (is_start word w)) [
      | inl e ↦ rw e refl
      | inr e ↦ rw e (find_command-completion word ws t h k.1)
    ])

-- The test that all bytes of a text are letters of strings.
abbrev are_letters : List ℕ → Bool
are_letters [] = true
are_letters (c ∷ cs) = (ltb 0 c && ltb c 256) && are_letters cs

abbrev are_texts : List (List ℕ) → Bool
are_texts [] = true
are_texts (w ∷ ws) = are_letters w && are_texts ws

are_letters-All : (cs : List ℕ) → are_letters cs ≡ true → All IsLetter cs
are_letters-All [] h = tt
are_letters-All (c ∷ cs) h = (ground (arith, h), are_letters-All cs (ground (arith, h)))

are_texts-All : (ws : List (List ℕ)) → are_texts ws ≡ true → All (All IsLetter) ws
are_texts-All [] h = tt
are_texts-All (w ∷ ws) h =
    (are_letters-All w (ground (arith, h)), are_texts-All ws (ground (arith, h)))

commands-All : All (All IsLetter) commands
commands-All = are_texts-All commands refl

drop-All : (n : ℕ) (w : List ℕ) → All IsLetter w → All (λ c. c < 256) (drop n w)
drop-All zero [] h = tt
drop-All zero (c ∷ w) h = (h.0.1, drop-All zero w h.1)
drop-All (suc n) [] h = tt
drop-All (suc n) (c ∷ w) h = drop-All n w h.1

completion-All :
    (word : List ℕ) (ws : List (List ℕ))
    → All (All IsLetter) ws
    → All (λ c. c < 256) (completion word ws)
completion-All word [] h = tt
completion-All word (w ∷ ws) h = elim (Bool-cases (is_start word w)) [
  | inl e ↦ rw e (drop-All (length word) w h.0)
  | inr e ↦ rw e (completion-All word ws h.1)
]

window-All :
    (buf : ℕ → ℕ) (i n : ℕ)
    → i + n ≤ 2 ^ 31
    → ((j : ℕ) → i ≤ j → j < i + n → IsLetter (buf (j % input_buf)))
    → All IsLetter (window buf i n)
window-All buf i zero l h = tt
window-All buf i (suc n) l h =
    let next : add32 i 1 ≡ i + 1 = omega (arith, l) in
    (
      h i (omega arith) (omega arith),
      rw next (
          window-All buf (i + 1) n (omega (arith, l))
            (λ j a z. h j (omega (arith, a)) (omega (arith, z)))),
    )

-- The word in front of the cursor, when `i` is the place of the last blank.
word_before-window :
    (i : ℕ) (s : Ring)
    → IsValid s
    → s.r ≤ i
    → i < s.e
    → s.e ≤ 2 ^ 31
    → s.buf (i % input_buf) ≡ b' '
    → ((j : ℕ) → i < j → j < s.e → s.buf (j % input_buf) ≢ b' ')
    → word_before s ≡ some (window s.buf (i + 1) (s.e - (i + 1)))
unfolding word_before
word_before-window i s v l m n b f =
    let k = s.e - (i + 1) in
    let from : sub32 s.e 1 ≡ i + k = omega (arith, m, n) in
    let start : add32 i 1 ≡ i + 1 = omega (arith, m, n) in
    let size : sub32 s.e (i + 1) ≡ k = omega (arith, m, n) in
    let fits : k < input_buf = omega (arith, v.fits, l, m, n) in
    let found =
      find_start-blank k (sub32 s.e s.r + 1) i s (omega (arith, l, m, n)) l (omega (arith, m, n)) b
        (λ j a z. f j a (omega (arith, m, z))) in
    rw (from, found)
      (rw (start, size) (ground (arith, fits, copy_word-window s (i + 1) k (omega (arith, m, n)))))

-- When the unread bytes hold a blank, no NUL stands behind the last one, `e` is at most 2 ^ 31 and
-- the buffer has room for what is missing, autocomplete puts behind the line what the first command
-- that starts with the word behind that blank has more than the word, or nothing when no command does,
-- and leaves what is ready as it is.
pub autocomplete-line :
    (i : ℕ) (t : Console)
    → IsValid t.ring
    → t.ring.r ≤ i
    → i < t.ring.e
    → t.ring.e ≤ 2 ^ 31
    → t.ring.buf (i % input_buf) ≡ b' '
    → ((j : ℕ)
        → i < j
        → j < t.ring.e
        → IsLetter (t.ring.buf (j % input_buf)) × (t.ring.buf (j % input_buf) ≢ b' '))
    → sub32 t.ring.e t.ring.r
        + length (completion (window t.ring.buf (i + 1) (t.ring.e - (i + 1))) commands)
      ≤ input_buf
    → (t' : Console) × (autocomplete t ≡ some t')
      × IsValid t'.ring
      × (ready t'.ring ≡ ready t.ring)
      × (line t'.ring
          ≡ line t.ring ++ completion (window t.ring.buf (i + 1) (t.ring.e - (i + 1))) commands)
unfolding autocomplete
autocomplete-line i t v l m n b f room =
    let word = window t.ring.buf (i + 1) (t.ring.e - (i + 1)) in
    let letters : All IsLetter word =
      window-All t.ring.buf (i + 1) (t.ring.e - (i + 1)) (omega (arith, m, n))
        (λ j a z. (f j (omega (arith, a)) (omega (arith, m, z))).0) in
    let more = completion word commands in
    let put = put_rest-line more t v (completion-All word commands commands-All) room in
    (
      put_rest more t,
      rw (word_before-window i t.ring v l m n b (λ j a z. (f j a z).1))
          (find_command-completion word commands t letters commands-All),
      put.0,
      put.1,
      put.2,
    )
