-- ===== src/Dict.antt =====
-- A Go `map[string]V` as an association list. The order of the list stands for the order in which
-- a `range` loop happens to visit the map; a key is written in place, so no key is listed twice.
pub mod Laws
pub mod Every
pub mod Counts
pub mod Retained
use multi_desk.Base.{
  String, Option, none, some, List, [], ◌∷◌, Bool, true, false, ◌||◌, ◌==◌, ℕ, suc, if◌then◌else◌,
}

abbrev pub Dict {ℓ} : Type ℓ → Type ℓ
Dict V = List (String × V)

module _ {ℓ} {V : Type ℓ} where
  -- `m[k]`, with `none` where Go gives the zero value
  unfoldable pub lookup : String → Dict V → Option V
  lookup k [] = none
  lookup k ((j, v) ∷ m) = if j == k then some v else lookup k m

  -- `m[k] = v`
  unfoldable pub insert : String → V → Dict V → Dict V
  insert k v [] = (k, v) ∷ []
  insert k v ((key, old) ∷ rest) = if key == k then (k, v) ∷ rest else (key, old) ∷ insert k v rest

  -- `delete(m, k)`
  unfoldable pub delete : String → Dict V → Dict V
  delete k [] = []
  delete k ((j, v) ∷ m) = let rest = delete k m in if j == k then rest else (j, v) ∷ rest

  -- a write through the pointer `m[k]`, where the map holds pointers
  unfoldable pub adjust : (V → V) → String → Dict V → Dict V
  adjust f k [] = []
  adjust f k ((j, v) ∷ m) = (if j == k then (j, f v) else (j, v)) ∷ adjust f k m

  -- a loop that writes through every pointer of the map
  unfoldable pub map_values : (V → V) → Dict V → Dict V
  map_values f [] = []
  map_values f ((j, v) ∷ m) = (j, f v) ∷ map_values f m

  -- a loop that deletes the entries which fail a test
  unfoldable pub retain : (V → Bool) → Dict V → Dict V
  retain p [] = []
  retain p ((j, v) ∷ m) = let rest = retain p m in if p v then (j, v) ∷ rest else rest

  -- a loop that returns at the first value which passes a test
  unfoldable pub any_value : (V → Bool) → Dict V → Bool
  any_value p [] = false
  any_value p ((j, v) ∷ m) = p v || any_value p m

  unfoldable pub find_value : (V → Bool) → Dict V → Option V
  find_value p [] = none
  find_value p ((j, v) ∷ m) = if p v then some v else find_value p m

  -- a loop that counts
  unfoldable pub count_values : (V → Bool) → Dict V → ℕ
  count_values p [] = 0
  count_values p ((j, v) ∷ m) = let n = count_values p m in if p v then suc n else n

  -- a loop that collects
  unfoldable pub select_values : (V → Bool) → Dict V → List V
  select_values p [] = []
  select_values p ((j, v) ∷ m) = let rest = select_values p m in if p v then v ∷ rest else rest

  -- a loop that writes through the first pointer which passes a test, and returns
  unfoldable pub adjust_first : (V → Bool) → (V → V) → Dict V → Dict V
  adjust_first p f [] = []
  adjust_first p f ((j, v) ∷ m) =
      let rest = adjust_first p f m in if p v then (j, f v) ∷ m else (j, v) ∷ rest
