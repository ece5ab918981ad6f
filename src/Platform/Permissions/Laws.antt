-- ===== src/Platform/Permissions/Laws.antt =====
-- Membership, inclusion and control of permission lists.
use multi_desk.Base.{
  String, List, [], ◌∷◌, ◌++◌, true, false, not, ◌&&◌, ◌||◌, ◌==◌, ◌≡◌, refl, ap, eq_iff, arith,
  inl, inr, Bool-cases,
}
use multi_desk.Platform.Permissions.{
  mouse, keyboard, contains, controls, subset, drop_control, add_requested, take_control,
}

contains-append :
    (xs ys : List String) (v : String) → contains (xs ++ ys) v ≡ (contains xs v || contains ys v)
unfolding contains
contains-append [] ys v = refl
contains-append (x ∷ xs) ys v = ground (arith, contains-append xs ys v)

subset-contains :
    (a b : List String) (v : String) → subset a b ≡ true → contains a v ≡ true → contains b v ≡ true
unfolding contains subset
subset-contains [] b v h c = cc
subset-contains (x ∷ a) b v h c = elim (Bool-cases (x == v)) [
  | inl e ↦ let same = (eq_iff x v).0 e in ground (arith, ap (contains b) same)
  | inr e ↦ ground (arith, subset-contains a b v)
]

subset-append :
    (a c b : List String) → subset a b ≡ true → subset c b ≡ true → subset (a ++ c) b ≡ true
unfolding subset
subset-append [] c b h k = k
subset-append (x ∷ a) c b h k = ground (arith, subset-append a c b)

pub subset-drop_control : (a b : List String) → subset a b ≡ true → subset (drop_control a) b ≡ true
unfolding subset drop_control
subset-drop_control [] b h = refl
subset-drop_control (x ∷ a) b h = ground (arith, subset-drop_control a b)

-- Taking the controls away leaves none.
pub controls-drop_control : (a : List String) → controls (drop_control a) ≡ false
unfolding controls contains drop_control
controls-drop_control [] = refl
controls-drop_control (x ∷ a) = ground (arith, controls-drop_control a)

subset-add_requested :
    (r g : List String) (p : String) → subset g r ≡ true → subset (add_requested r g p) r ≡ true
unfolding add_requested subset
subset-add_requested r g p h = elim (Bool-cases (contains r p && not (contains g p))) [
  | inl t ↦ rw t (subset-append g (p ∷ []) r h (ground arith))
  | inr t ↦ rw t h
]

pub subset-take_control :
    (r g : List String) → subset g r ≡ true → subset (take_control r g) r ≡ true
unfolding take_control
subset-take_control r g h =
    subset-add_requested r (add_requested r g mouse) keyboard (subset-add_requested r g mouse h)

contains-add_requested :
    (r g : List String) (p q : String)
    → contains (add_requested r g p) q
      ≡ (contains g q || (contains r p && not (contains g p) && (p == q)))
unfolding add_requested
contains-add_requested r g p q = elim (Bool-cases (contains r p && not (contains g p))) [
  | inl t ↦ rw t (rw (contains-append g (p ∷ []) q) (unfold contains in ground arith))
  | inr t ↦ rw t (ground arith)
]

-- Where control was requested, both rounds of the loop of `handover` leave the session in control.
pub controls-take_control :
    (r g : List String) → controls r ≡ true → controls (take_control r g) ≡ true
unfolding controls take_control
controls-take_control r g h = ground (
  arith,
  contains-add_requested r (add_requested r g mouse) keyboard mouse,
  contains-add_requested r (add_requested r g mouse) keyboard keyboard,
  contains-add_requested r g mouse mouse,
)
