-- ===== src/Dict/Every.antt =====
-- How the writes to a map keep a property of all the values that a lookup finds.
use mathlib.Core.Option
use multi_desk.Base.{
  String, Option, none, some, ◌==◌, ◌≡◌, ◌≢◌, ◌⊎◌, refl, sym, ◌∙◌, arith, eq_iff, Bool-cases, inl,
  inr,
}
use multi_desk.Dict.{Dict, lookup, insert, adjust, map_values, delete}
use multi_desk.Dict.Laws.{lookup-insert, lookup-adjust, lookup-map_values, lookup-delete, Every}

pub map-eq-some {ℓ} :
    {A : Type ℓ} {B : Type ℓ} (f : A → B) (o : Option A) (b : B)
    → Option.map f o ≡ some b
    → (a : A) × (o ≡ some a) × (f a ≡ b)
map-eq-some f none b h = cc
map-eq-some f (some a) b h = (a, refl, ground arith)

module _ {ℓ} {V : Type ℓ} where
  -- A lookup behind an insertion finds the new value, or what was there.
  pub lookup-insert_cases :
      (k j : String) (v : V) (m : Dict V) (u : V)
      → lookup j (insert k v m) ≡ some u
      → ((k ≡ j) × (v ≡ u)) ⊎ ((k ≢ j) × (lookup j m ≡ some u))
  lookup-insert_cases k j v m u h = ground (arith, lookup-insert k j v m, eq_iff k j)

  pub lookup-map_values_cases :
      (f : V → V) (j : String) (m : Dict V) (u : V)
      → lookup j (map_values f m) ≡ some u
      → (v : V) × (lookup j m ≡ some v) × (f v ≡ u)
  lookup-map_values_cases f j m u h =
      map-eq-some f (lookup j m) u (sym (lookup-map_values f j m) ∙ h)

  pub lookup-adjust_cases :
      (f : V → V) (k j : String) (m : Dict V) (u : V)
      → lookup j (adjust f k m) ≡ some u
      → ((k ≡ j) × ((v : V) × (lookup j m ≡ some v) × (f v ≡ u)))
        ⊎ ((k ≢ j) × (lookup j m ≡ some u))
  lookup-adjust_cases f k j m u h = elim (Bool-cases (k == j)) [
    | inl e ↦ inl (
      (eq_iff k j).0 e,
      map-eq-some f (lookup j m) u (rw (← h) (rw (lookup-adjust f k j m) (rw e refl))),
    )
    | inr e ↦ inr (λ same. ground (arith, eq_iff k j), ground (arith, lookup-adjust f k j m))
  ]

  module _ {κ} (P : String → V → Type κ) where
    pub Every-insert :
        (k : String) (v : V) (m : Dict V) → Every P m → P k v → Every P (insert k v m)
    Every-insert k v m all p j u h = elim (lookup-insert_cases k j v m u h) [
      | inl (same, value) ↦ rw (← same, ← value) p
      | inr (other, found) ↦ all j u found
    ]

    pub Every-map_values :
        (f : V → V) (m : Dict V)
        → ((k : String) (v : V) → P k v → P k (f v))
        → Every P m
        → Every P (map_values f m)
    Every-map_values f m keep all j u h =
        let (v, found, value) = lookup-map_values_cases f j m u h in
        rw (← value) (keep j v (all j v found))

    pub Every-adjust :
        (f : V → V) (k : String) (m : Dict V)
        → ((v : V) → P k v → P k (f v))
        → Every P m
        → Every P (adjust f k m)
    Every-adjust f k m keep all j u h = elim (lookup-adjust_cases f k j m u h) [
      | inl (same, (v, found, value)) ↦ rw (← same, ← value) (keep v (all k v (rw same found)))
      | inr (other, found) ↦ all j u found
    ]

    Every-delete : (k : String) (m : Dict V) → Every P m → Every P (delete k m)
    Every-delete k m all j u h = all j u (ground (arith, lookup-delete k j m))
