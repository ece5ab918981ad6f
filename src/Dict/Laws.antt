-- ===== src/Dict/Laws.antt =====
-- What a lookup sees after each write, and what the loops see of the values that a lookup finds.
use mathlib.Core.Option
use multi_desk.Base.{
  String, none, some, [], ◌∷◌, Bool, true, false, ◌==◌, if◌then◌else◌, ◌≡◌, ◌≢◌, refl, eq_iff,
  eq_refl, arith,
}
use multi_desk.Dict.{
  Dict, lookup, insert, delete, adjust, adjust_first, map_values, retain, any_value,
}

module _ {ℓ} {V : Type ℓ} where
  pub lookup-insert :
      (k j : String) (v : V) (m : Dict V)
      → lookup j (insert k v m) ≡ (if k == j then some v else lookup j m)
  unfolding lookup insert
  lookup-insert k j v [] = refl
  lookup-insert k j v ((key, old) ∷ rest) =
      ground (arith, lookup-insert k j v rest, eq_iff key j, eq_iff key k, eq_iff k j)

  pub lookup-insert_self : (k : String) (v : V) (m : Dict V) → lookup k (insert k v m) ≡ some v
  lookup-insert_self k v m = simp (lookup-insert, eq_refl)

  pub lookup-insert_other :
      (k j : String) (v : V) (m : Dict V) → k ≢ j → lookup j (insert k v m) ≡ lookup j m
  lookup-insert_other k j v m other = ground (arith, lookup-insert k j v m, eq_iff k j)

  pub lookup-delete :
      (k j : String) (m : Dict V) → lookup j (delete k m) ≡ (if k == j then none else lookup j m)
  unfolding lookup delete
  lookup-delete k j [] = ground arith
  lookup-delete k j ((key, old) ∷ rest) =
      ground (arith, lookup-delete k j rest, eq_iff key j, eq_iff key k, eq_iff k j)

  pub lookup-delete_self : (k : String) (m : Dict V) → lookup k (delete k m) ≡ none
  lookup-delete_self k m = simp (lookup-delete, eq_refl)

  pub lookup-adjust :
      (f : V → V) (k j : String) (m : Dict V)
      → lookup j (adjust f k m) ≡ (if k == j then Option.map f (lookup j m) else lookup j m)
  unfolding lookup adjust
  lookup-adjust f k j [] = ground arith
  lookup-adjust f k j ((key, old) ∷ rest) =
      ground (arith, lookup-adjust f k j rest, eq_iff key j, eq_iff key k, eq_iff k j)

  pub lookup-adjust_self :
      (f : V → V) (k : String) (m : Dict V) → lookup k (adjust f k m) ≡ Option.map f (lookup k m)
  lookup-adjust_self f k m = simp (lookup-adjust, eq_refl)

  pub lookup-map_values :
      (f : V → V) (j : String) (m : Dict V) → lookup j (map_values f m) ≡ Option.map f (lookup j m)
  unfolding lookup map_values
  lookup-map_values f j [] = refl
  lookup-map_values f j ((key, old) ∷ rest) = ground (arith, lookup-map_values f j rest)

  -- What a deleting loop leaves passed the test.
  pub lookup-retain :
      (p : V → Bool) (j : String) (m : Dict V) (v : V) → lookup j (retain p m) ≡ some v → p v ≡ true
  unfolding lookup retain
  lookup-retain p j [] v h = cc
  lookup-retain p j ((key, old) ∷ rest) v h = ground (arith, lookup-retain p j rest v)

  pub any_value-lookup :
      (p : V → Bool) (k : String) (m : Dict V) (v : V)
      → lookup k m ≡ some v
      → any_value p m ≡ false
      → p v ≡ false
  unfolding lookup any_value
  any_value-lookup p k [] v e h = cc
  any_value-lookup p k ((key, old) ∷ rest) v e h = ground (arith, any_value-lookup p k rest v)

-- Every value that a lookup finds has the property.
abbrev pub Every {ℓ κ} : {V : Type ℓ} → (String → V → Type κ) → Dict V → Type (ℓ ⊔ κ)
Every {V} P m = (k : String) (v : V) → lookup k m ≡ some v → P k v

-- A write through the first pointer that passes a test changes no view that the write respects.
pub lookup-adjust_first {ℓ κ} :
    {V : Type ℓ} {B : Type κ} (g : V → B) (p : V → Bool) (f : V → V) (j : String) (m : Dict V)
    → ((v : V) → g (f v) ≡ g v)
    → Option.map g (lookup j (adjust_first p f m)) ≡ Option.map g (lookup j m)
unfolding lookup adjust_first
lookup-adjust_first g p f j [] same = refl
lookup-adjust_first g p f j ((key, old) ∷ rest) same =
    ground (arith, lookup-adjust_first g p f j rest same, same old)
