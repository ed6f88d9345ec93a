-- ===== src/Keyboard/Keymap.antt =====
-- The scan-code tables of kbd.h (B22CS052/Helpful/kbd.h). Those of the other folders are the same,
-- entry by entry.
use os_project.Base.{ℕ, ◌-◌, List, [], ◌∷◌, ltb, ◌==◌, if◌then◌else◌, get_or, ctrl}

-- `NO`
abbrev no : ℕ
no = 0

abbrev pub key_up : ℕ
key_up = 0xe2

-- The entries that the three tables share: `KEY_HOME` to `KEY_DEL`, behind an E0 escape.
unfoldable pub extended : ℕ → ℕ → ℕ
extended key plain =
    if key == 0xc8
    then key_up
    else if key == 0xd0
    then 0xe3
    else if key == 0xc9
    then 0xe6
    else if key == 0xd1
    then 0xe7
    else if key == 0xcb
    then 0xe4
    else if key == 0xcd
    then 0xe5
    else if key == 0x97
    then 0xe0
    else if key == 0xcf
    then 0xe1
    else if key == 0xd2
    then 0xe8
    else if key == 0xd3
    then 0xe9
    else plain

-- The first rows of `normalmap`, from scan code 0 on.
abbrev normal_keys : List ℕ
normal_keys =
    no ∷ 0x1b ∷ b'1' ∷ b'2' ∷ b'3' ∷ b'4' ∷ b'5' ∷ b'6' ∷ b'7' ∷ b'8' ∷ b'9' ∷ b'0' ∷ b'-' ∷ b'='
    ∷ 0x08 ∷ 0x09 ∷ b'q' ∷ b'w' ∷ b'e' ∷ b'r' ∷ b't' ∷ b'y' ∷ b'u' ∷ b'i' ∷ b'o' ∷ b'p' ∷ b'['
    ∷ b']' ∷ 0x0a ∷ no ∷ b'a' ∷ b's' ∷ b'd' ∷ b'f' ∷ b'g' ∷ b'h' ∷ b'j' ∷ b'k' ∷ b'l' ∷ b';' ∷ 0x27
    ∷ b'`' ∷ no ∷ 0x5c ∷ b'z' ∷ b'x' ∷ b'c' ∷ b'v' ∷ b'b' ∷ b'n' ∷ b'm' ∷ b',' ∷ b'.' ∷ b'/' ∷ no
    ∷ b'*' ∷ no ∷ 0x20 ∷ no ∷ no ∷ no ∷ no ∷ no ∷ no ∷ no ∷ no ∷ no ∷ no ∷ no ∷ no ∷ no ∷ b'7'
    ∷ b'8' ∷ b'9' ∷ b'-' ∷ b'4' ∷ b'5' ∷ b'6' ∷ b'+' ∷ b'1' ∷ b'2' ∷ b'3' ∷ b'0' ∷ b'.' ∷ no ∷ no
    ∷ no ∷ no ∷ []

unfoldable pub normalmap : ℕ → ℕ
unfolding extended
normalmap key =
    if key == 0x9c
    then 0x0a
    else if key == 0xb5
    then b'/'
    else extended key (get_or normal_keys key no)

-- The first rows of `shiftmap`, from scan code 0 on.
abbrev shift_keys : List ℕ
shift_keys =
    no ∷ 0x1b ∷ b'!' ∷ b'@' ∷ b'#' ∷ b'$' ∷ b'%' ∷ b'^' ∷ b'&' ∷ b'*' ∷ b'(' ∷ b')' ∷ b'_' ∷ b'+'
    ∷ 0x08 ∷ 0x09 ∷ b'Q' ∷ b'W' ∷ b'E' ∷ b'R' ∷ b'T' ∷ b'Y' ∷ b'U' ∷ b'I' ∷ b'O' ∷ b'P' ∷ b'{'
    ∷ b'}' ∷ 0x0a ∷ no ∷ b'A' ∷ b'S' ∷ b'D' ∷ b'F' ∷ b'G' ∷ b'H' ∷ b'J' ∷ b'K' ∷ b'L' ∷ b':' ∷ b'"'
    ∷ b'~' ∷ no ∷ b'|' ∷ b'Z' ∷ b'X' ∷ b'C' ∷ b'V' ∷ b'B' ∷ b'N' ∷ b'M' ∷ b'<' ∷ b'>' ∷ b'?' ∷ no
    ∷ b'*' ∷ no ∷ 0x20 ∷ no ∷ no ∷ no ∷ no ∷ no ∷ no ∷ no ∷ no ∷ no ∷ no ∷ no ∷ no ∷ no ∷ b'7'
    ∷ b'8' ∷ b'9' ∷ b'-' ∷ b'4' ∷ b'5' ∷ b'6' ∷ b'+' ∷ b'1' ∷ b'2' ∷ b'3' ∷ b'0' ∷ b'.' ∷ no ∷ no
    ∷ no ∷ no ∷ []

unfoldable pub shiftmap : ℕ → ℕ
unfolding extended
shiftmap key =
    if key == 0x9c
    then 0x0a
    else if key == 0xb5
    then b'/'
    else extended key (get_or shift_keys key no)

-- The first rows of `ctlmap`, from scan code 0 on.
abbrev ctl_keys : List ℕ
ctl_keys =
    no
    ∷ no
    ∷ no
    ∷ no
    ∷ no
    ∷ no
    ∷ no
    ∷ no
    ∷ no
    ∷ no
    ∷ no
    ∷ no
    ∷ no
    ∷ no
    ∷ no
    ∷ no
    ∷ (ctrl b'Q')
    ∷ (ctrl b'W')
    ∷ (ctrl b'E')
    ∷ (ctrl b'R')
    ∷ (ctrl b'T')
    ∷ (ctrl b'Y')
    ∷ (ctrl b'U')
    ∷ (ctrl b'I')
    ∷ (ctrl b'O')
    ∷ (ctrl b'P')
    ∷ no
    ∷ no
    ∷ 0x0d
    ∷ no
    ∷ (ctrl b'A')
    ∷ (ctrl b'S')
    ∷ (ctrl b'D')
    ∷ (ctrl b'F')
    ∷ (ctrl b'G')
    ∷ (ctrl b'H')
    ∷ (ctrl b'J')
    ∷ (ctrl b'K')
    ∷ (ctrl b'L')
    ∷ no
    ∷ no
    ∷ no
    ∷ no
    ∷ (ctrl 0x5c)
    ∷ (ctrl b'Z')
    ∷ (ctrl b'X')
    ∷ (ctrl b'C')
    ∷ (ctrl b'V')
    ∷ (ctrl b'B')
    ∷ (ctrl b'N')
    ∷ (ctrl b'M')
    ∷ no
    ∷ no
    ∷ (ctrl b'/')
    ∷ no
    ∷ no
    ∷ []

unfoldable pub ctlmap : ℕ → ℕ
unfolding extended
ctlmap key =
    if key == 0x9c
    then 0x0d
    else if key == 0xb5
    then (ctrl b'/')
    else extended key (get_or ctl_keys key no)

-- `qwerty_to_dvorak_char` from the blank on; the entries below it are 0.
abbrev dvorak_keys : List ℕ
dvorak_keys =
    0 ∷ b'!' ∷ b'_' ∷ b'#' ∷ b'$' ∷ b'%' ∷ b'&' ∷ b'-' ∷ b'(' ∷ b')' ∷ b'*' ∷ b'}' ∷ b'w' ∷ b'['
    ∷ b'v' ∷ b'z' ∷ b'0' ∷ b'1' ∷ b'2' ∷ b'3' ∷ b'4' ∷ b'5' ∷ b'6' ∷ b'7' ∷ b'8' ∷ b'9' ∷ b'S'
    ∷ b's' ∷ b'W' ∷ b']' ∷ b'V' ∷ b'Z' ∷ b'@' ∷ b'A' ∷ b'X' ∷ b'J' ∷ b'E' ∷ b'>' ∷ b'U' ∷ b'I'
    ∷ b'D' ∷ b'C' ∷ b'H' ∷ b'T' ∷ b'N' ∷ b'M' ∷ b'B' ∷ b'R' ∷ b'L' ∷ b'"' ∷ b'P' ∷ b'O' ∷ b'Y'
    ∷ b'G' ∷ b'K' ∷ b'<' ∷ b'Q' ∷ b'F' ∷ b':' ∷ b'/' ∷ 0x5c ∷ b'=' ∷ b'^' ∷ b'{' ∷ 0 ∷ b'a' ∷ b'x'
    ∷ b'j' ∷ b'e' ∷ b'.' ∷ b'u' ∷ b'i' ∷ b'd' ∷ b'c' ∷ b'h' ∷ b't' ∷ b'n' ∷ b'm' ∷ b'b' ∷ b'r'
    ∷ b'l' ∷ 0x27 ∷ b'p' ∷ b'o' ∷ b'y' ∷ b'g' ∷ b'k' ∷ b',' ∷ b'q' ∷ b'f' ∷ b';' ∷ b'?' ∷ b'|'
    ∷ b'+' ∷ 0 ∷ 0 ∷ []

unfoldable pub qwerty_to_dvorak_char : ℕ → ℕ
qwerty_to_dvorak_char c = if ltb c 0x20 then 0 else get_or dvorak_keys (c - 0x20) 0
