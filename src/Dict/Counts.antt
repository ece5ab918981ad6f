-- ===== src/Dict/Counts.antt =====
-- How the operations on a map change the number of values that pass a test.
use multi_desk.Base.{suc, ◌≤◌, String, some, [], ◌∷◌, Bool, true, false, ◌≡◌, arith}
use multi_desk.Dict.{Dict, lookup, insert, adjust, map_values, any_value, count_values}

module _ {ℓ} {V : Type ℓ} (p : V → Bool) where
  pub count_values-any : (m : Dict V) → any_value p m ≡ false → count_values p m ≡ 0
  unfolding any_value count_values
  count_values-any [] h = ground arith
  count_values-any ((j, v) ∷ m) h = ground (arith, count_values-any m)

  -- A write adds one at most.
  pub count_values-insert :
      (k : String) (v : V) (m : Dict V) → count_values p (insert k v m) ≤ suc (count_values p m)
  unfolding insert count_values
  count_values-insert k v [] = ground arith
  count_values-insert k v ((j, u) ∷ m) = ground (arith, count_values-insert k v m)

  -- A value that fails the test adds nothing.
  pub count_values-insert_other :
      (k : String) (v : V) (m : Dict V)
      → p v ≡ false
      → count_values p (insert k v m) ≤ count_values p m
  unfolding insert count_values
  count_values-insert_other k v [] h = ground arith
  count_values-insert_other k v ((j, u) ∷ m) h = ground (arith, count_values-insert_other k v m h)

  -- A value that takes the place of one that passes as well adds nothing.
  pub count_values-insert_over :
      (k : String) (v old : V) (m : Dict V)
      → lookup k m ≡ some old
      → (p v ≡ true → p old ≡ true)
      → count_values p (insert k v m) ≤ count_values p m
  unfolding insert count_values lookup
  count_values-insert_over k v old [] found h = cc
  count_values-insert_over k v old ((j, u) ∷ m) found h =
      ground (arith, count_values-insert_over k v old m)

  module _ (f : V → V) (back : (v : V) → p (f v) ≡ true → p v ≡ true) where
    pub count_values-map_values : (m : Dict V) → count_values p (map_values f m) ≤ count_values p m
    unfolding map_values count_values
    count_values-map_values [] = ground arith
    count_values-map_values ((j, v) ∷ m) = ground (arith, count_values-map_values m, back v)

    pub count_values-adjust :
        (k : String) (m : Dict V) → count_values p (adjust f k m) ≤ count_values p m
    unfolding adjust count_values
    count_values-adjust k [] = ground arith
    count_values-adjust k ((j, v) ∷ m) = ground (arith, count_values-adjust k m, back v)
