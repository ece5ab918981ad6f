-- ===== src/Platform/Permissions/Valid.antt =====
-- `validPermissions` of server/internal/platform/service.go against a description without its map of
-- seen permissions and its test of the length.
use multi_desk.Base.{
  suc, ◌≤◌, String, List, [], ◌∷◌, Bool, true, false, not, ◌&&◌, ◌==◌, ◌≡◌, refl, eq_iff, arith,
  length, if◌then◌else◌,
}
use multi_desk.Platform.Permissions.{
  view, permissions, contains, all_new, valid_permissions, subset,
}

-- No text stands twice in the list.
abbrev pub is_distinct : List String → Bool
is_distinct [] = true
is_distinct (x ∷ xs) = not (contains xs x) && is_distinct xs

-- No text of the first list stands in the second.
abbrev is_apart : List String → List String → Bool
is_apart [] seen = true
is_apart (x ∷ xs) seen = not (contains seen x) && is_apart xs seen

abbrev without : String → List String → List String
without x [] = []
without x (y ∷ ys) = if y == x then ys else y ∷ without x ys

is_apart-cons :
    (x : String) (xs seen : List String)
    → is_apart xs (x ∷ seen) ≡ (not (contains xs x) && is_apart xs seen)
unfolding contains
is_apart-cons x [] seen = refl
is_apart-cons x (y ∷ ys) seen = ground (arith, is_apart-cons x ys seen, eq_iff x y, eq_iff y x)

is_apart-empty : (xs : List String) → is_apart xs [] ≡ true
unfolding contains
is_apart-empty [] = refl
is_apart-empty (x ∷ xs) = is_apart-empty xs

all_new_lem :
    (seen xs : List String)
    → all_new seen xs ≡ (subset xs permissions && is_distinct xs && is_apart xs seen)
unfolding all_new subset
all_new_lem seen [] = refl
all_new_lem seen (x ∷ xs) = ground (arith, all_new_lem (x ∷ seen) xs, is_apart-cons x xs seen)

length-without :
    (x : String) (ys : List String) → contains ys x ≡ true → length ys ≡ suc (length (without x ys))
unfolding contains
length-without x [] h = cc
length-without x (y ∷ ys) h = ground (arith, length-without x ys)

contains-without :
    (x z : String) (ys : List String) → (x == z) ≡ false → contains (without x ys) z ≡ contains ys z
unfolding contains
contains-without x z [] other = refl
contains-without x z (y ∷ ys) other =
    ground (arith, contains-without x z ys other, eq_iff y x, eq_iff y z, eq_iff x z)

subset-without :
    (x : String) (xs ys : List String)
    → contains xs x ≡ false
    → subset xs (without x ys) ≡ subset xs ys
unfolding subset contains
subset-without x [] ys h = refl
subset-without x (z ∷ xs) ys h =
    ground (arith, subset-without x xs ys, contains-without x z ys, eq_iff x z, eq_iff z x)

-- Distinct texts out of a list are no more than the list has.
length-subset :
    (xs ys : List String) → is_distinct xs ≡ true → subset xs ys ≡ true → length xs ≤ length ys
unfolding subset
length-subset [] ys d h = ground arith
length-subset (x ∷ xs) ys d h =
    ground (arith, length-subset xs (without x ys), subset-without x xs ys, length-without x ys)

-- A list of permissions is valid exactly if it asks to view, names known permissions only, and none
-- of them twice.
pub valid_permissions_lem :
    (p : List String)
    → valid_permissions p ≡ (contains p view && subset p permissions && is_distinct p)
unfolding valid_permissions contains
valid_permissions_lem [] = refl
valid_permissions_lem (x ∷ xs) =
    ground
      (arith, all_new_lem [] (x ∷ xs), is_apart-empty (x ∷ xs), length-subset (x ∷ xs) permissions)
