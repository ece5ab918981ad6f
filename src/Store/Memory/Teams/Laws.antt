-- ===== src/Store/Memory/Teams/Laws.antt =====
-- Memberships of the store.

use multi_desk.Base.{
  String, Option, ◌==◌, if◌then◌else◌, ◌≡◌, refl, arith, ℕ, Option-cases, inl, inr,
}
use multi_desk.Dict.{lookup}
use multi_desk.Dict.Laws.{lookup-delete_self, lookup-insert}
use multi_desk.Store.Types.{ok, err, not_found, ok-injective}
use multi_desk.Store.Memory.{Memory, modify}
use multi_desk.Store.Memory.Teams.{
  member_key, create_membership, get_membership, update_member_role, remove_membership,
}

-- A look-up after a membership was created finds it under its own key, and under every other key
-- what was there before.
create_membership-get_membership :
    (org user role org' user' : String) (expires : Option ℕ) (m : Memory)
    → get_membership org' user' (create_membership org user role expires m) ≡ (
        if member_key org user == member_key org' user'
        then ok
            (record { organization_id = org; user_id = user; role = role; expires_at = expires })
        else get_membership org' user' m)
unfolding create_membership get_membership
create_membership-get_membership org user role org' user' expires m = ground (
  arith,
  lookup-insert (member_key org user) (member_key org' user')
      (record { organization_id = org; user_id = user; role = role; expires_at = expires })
      m.memberships,
)

-- A membership that was removed is not found any more, and is no longer there to remove or to change.
pub remove_membership-get_membership :
    (org user role : String) (m t : Memory)
    → remove_membership org user m ≡ ok t
    → (get_membership org user t ≡ err not_found)
      × ((remove_membership org user t ≡ err not_found)
          × (update_member_role org user role t ≡ err not_found))
unfolding remove_membership get_membership update_member_role modify
remove_membership-get_membership org user role m t =
    elim (Option-cases (lookup (member_key org user) m.memberships)) [
      | inl e ↦ rw (e, remove_membership) (λ h. cc)
      | inr (x, e) ↦
          rw (e, remove_membership)
            (λ h. rw (← ok-injective _ t h) (
              rw
                (
                  lookup-delete_self (member_key org user) m.memberships,
                  get_membership,
                  remove_membership,
                  update_member_role,
                  modify,
                )
                (refl, (refl, refl))))
    ]
