-- ===== src/Security/Token/Split.antt =====
-- `strings.Split(token, ".")`, and how it takes apart what `Sign` puts together.
use Prim.Native.Char.{Char, code}
use Prim.Native.String.{◌++◌}
use text.Mathlib.TextLemmas.{nil-append, cons-append}
use multi_desk.Base.{
  String, List, [], ◌∷◌, Bool, false, ◌||◌, ◌≡◌, refl, num_eq, if◌then◌else◌, arith, ◌∙◌, ap,
}

abbrev is_dot : Char → Bool
is_dot c = num_eq (code c) 0x2E

-- A character before the rest of the first part; `Split` returns at least one part.
abbrev pub put_front : Char → List String → List String
put_front c [] = String.◌∷◌ c String.[] ∷ []
put_front c (p ∷ ps) = String.◌∷◌ c p ∷ ps

unfoldable pub split_dots : String → List String
split_dots String.[] = String.[] ∷ []
split_dots (String.◌∷◌ c s) =
    let rest = split_dots s in if is_dot c then String.[] ∷ rest else put_front c rest

unfoldable pub has_dot : String → Bool
has_dot String.[] = false
has_dot (String.◌∷◌ c s) = is_dot c || has_dot s

pub split_dots-dotless : (s : String) → has_dot s ≡ false → split_dots s ≡ s ∷ []
unfolding split_dots has_dot
split_dots-dotless String.[] h = refl
split_dots-dotless (String.◌∷◌ c s) h = ground (arith, split_dots-dotless s)

abbrev dot : Char
dot = "."

dot-append : (t : String) → "." ++ t ≡ String.◌∷◌ dot t
dot-append t = cons-append dot String.[] t ∙ ap (String.◌∷◌ dot) (nil-append t)

split_dots-dot : (t : String) → split_dots ("." ++ t) ≡ String.[] ∷ split_dots t
unfolding split_dots
split_dots-dot t = ap split_dots (dot-append t)

-- A part without dots is split off at the dot behind it.
pub split_dots-append :
    (s t : String) → has_dot s ≡ false → split_dots (s ++ ("." ++ t)) ≡ s ∷ split_dots t
unfolding split_dots has_dot
split_dots-append String.[] t h = ap split_dots (nil-append ("." ++ t)) ∙ split_dots-dot t
split_dots-append (String.◌∷◌ c s) t h =
    rw (cons-append c s ("." ++ t)) (ground (arith, split_dots-append s t))
