-- ===== src/Base/Text.antt =====
-- The functions of Go's `strings` package that server/internal/platform calls: `ReplaceAll(s, " ",
-- "")` and `TrimSpace`, on texts of code points.
use Prim.Native.Nat.{ℕ}
use Prim.Native.Char.{code}
use Prim.Native.String.{String}
use mathlib.Core.Bool.{Bool, true, false, ◌&&◌, ◌||◌}
use mathlib.Core.Path.{◌≡◌, refl}
use native.Mathlib.Omega.{arith}
use multi_desk.Base.Tests.{num_eq, leb, if◌then◌else◌}

-- `strings.ReplaceAll(s, " ", "")`
unfoldable pub strip_spaces : String → String
strip_spaces String.[] = String.[]
strip_spaces (String.◌∷◌ c s) =
    let rest = strip_spaces s in if num_eq (code c) 0x20 then rest else String.◌∷◌ c rest

-- `unicode.IsSpace`
unfoldable pub is_space : ℕ → Bool
is_space c =
    num_eq c 0x20
    || num_eq c 0x85
    || num_eq c 0xA0
    || (leb 9 c && leb c 13)
    || num_eq c 0x1680
    || (leb 0x2000 c && leb c 0x200A)
    || num_eq c 0x2028
    || num_eq c 0x2029
    || num_eq c 0x202F
    || num_eq c 0x205F
    || num_eq c 0x3000

trim_left : String → String
unfolding is_space
trim_left String.[] = String.[]
trim_left (String.◌∷◌ c s) =
    let rest = trim_left s in if is_space (code c) then rest else String.◌∷◌ c s

is_blank : String → Bool
unfolding is_space
is_blank String.[] = true
is_blank (String.◌∷◌ c s) = is_space (code c) && is_blank s

trim_right : String → String
unfolding is_blank
trim_right String.[] = String.[]
trim_right (String.◌∷◌ c s) =
    if is_blank (String.◌∷◌ c s) then String.[] else String.◌∷◌ c (trim_right s)

-- `strings.TrimSpace(s)`
unfoldable pub trim_space : String → String
unfolding trim_left trim_right
trim_space s = trim_right (trim_left s)

unfoldable pub has_space : String → Bool
has_space String.[] = false
has_space (String.◌∷◌ c s) = is_space (code c) || has_space s

trim_left-no_space : (s : String) → has_space s ≡ false → trim_left s ≡ s
unfolding trim_left has_space
trim_left-no_space String.[] h = refl
trim_left-no_space (String.◌∷◌ c s) h = ground arith

trim_right-no_space : (s : String) → has_space s ≡ false → trim_right s ≡ s
unfolding trim_right has_space is_blank
trim_right-no_space String.[] h = refl
trim_right-no_space (String.◌∷◌ c s) h = ground (arith, trim_right-no_space s)

pub trim_space-no_space : (s : String) → has_space s ≡ false → trim_space s ≡ s
unfolding trim_space
trim_space-no_space s h = rw (trim_left-no_space s h) (trim_right-no_space s h)

trim_space_test : trim_space "  a b " ≡ "a b"
unfolding trim_space
trim_space_test = refl

strip_spaces_test : strip_spaces " 12 34" ≡ "1234"
unfolding strip_spaces
strip_spaces_test = refl
