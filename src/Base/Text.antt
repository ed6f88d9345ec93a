-- ===== src/Base/Text.antt =====
-- Text as the bytes of a C string, its NUL left off.
use Prim.Native.Nat.{ℕ, ◌-◌, ◌+◌, ◌%◌}
use Prim.Native.Char.{code}
use Prim.Native.String.{String}
use mathlib.Core.Bool.{Bool, ◌&&◌}
use mathlib.Core.List.{List, [], ◌∷◌}
use os_project.Base.Tests.{leb}

abbrev pub codes : String → List ℕ
codes String.[] = []
codes (String.◌∷◌ c s) = code c ∷ codes s

abbrev pub newline : ℕ
newline = 10

-- `'a' <= c && c <= 'z'`
abbrev pub is_lower : ℕ → Bool
is_lower c = leb b'a' c && leb c b'z'

abbrev pub is_upper : ℕ → Bool
is_upper c = leb b'A' c && leb c b'Z'

-- `C(x)`, control-x, as a byte.
abbrev pub ctrl : ℕ → ℕ
ctrl x = (x + 256 - b'@') % 256
