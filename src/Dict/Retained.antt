-- ===== src/Dict/Retained.antt =====
-- A deleting loop followed by others.
use multi_desk.Base.{String, [], ◌∷◌, Bool, true, ◌&&◌, ◌≡◌, refl, arith, eq_iff, eq_refl}
use multi_desk.Dict.{Dict, insert, retain, count_values}

module _ {ℓ} {V : Type ℓ} (p : V → Bool) where
  -- Every value of the list passes the test.
  abbrev pub all_values : Dict V → Bool
  all_values [] = true
  all_values ((j, v) ∷ m) = p v && all_values m

  pub all_values-retain : (m : Dict V) → all_values (retain p m) ≡ true
  unfolding retain
  all_values-retain [] = refl
  all_values-retain ((j, v) ∷ m) = ground (arith, all_values-retain m)

  pub all_values-insert :
      (k : String) (v : V) (m : Dict V)
      → p v ≡ true
      → all_values m ≡ true
      → all_values (insert k v m) ≡ true
  unfolding insert
  all_values-insert k v [] h all = ground arith
  all_values-insert k v ((j, u) ∷ m) h all = ground (arith, all_values-insert k v m h)

  -- Where all pass, nothing is deleted.
  pub retain-all : (m : Dict V) → all_values m ≡ true → retain p m ≡ m
  unfolding retain
  retain-all [] all = refl
  retain-all ((j, v) ∷ m) all = ground (arith, retain-all m)

  -- Counting what is left by a weaker test counts the values that passed.
  pub count_values-retain :
      (q : V → Bool) (m : Dict V)
      → ((v : V) → p v ≡ true → q v ≡ true)
      → count_values q (retain p m) ≡ count_values p m
  unfolding retain count_values
  count_values-retain q [] weaker = refl
  count_values-retain q ((j, v) ∷ m) weaker =
      ground (arith, count_values-retain q m weaker, weaker v)

-- A second write of the same value changes nothing.
pub insert-insert {ℓ} :
    {V : Type ℓ} (k : String) (v : V) (m : Dict V) → insert k v (insert k v m) ≡ insert k v m
unfolding insert
insert-insert k v [] = ground (arith, eq_refl k)
insert-insert k v ((j, u) ∷ m) = ground (arith, insert-insert k v m, eq_refl k, eq_iff j k)
