-- ===== src/Store/Memory/Teams.antt =====
-- Organizations, memberships and invites of server/internal/store/memory.go.
pub mod Laws
use Prim.Native.String.{◌++◌}
use multi_desk.Base.{ℕ, String, Option, none, some, List, [], ◌∷◌, Bool, ◌==◌}
use multi_desk.Dict.{Dict, lookup, insert, delete, select_values}
use multi_desk.Store.Types.{
  Organization, Membership, OrgInvite, Result, ok, err, ◌>>=◌, not_found, or_not_found,
}
use multi_desk.Store.Memory.{Memory, create, modify}

-- `memberKey(orgID, userID)`
unfoldable pub member_key : String → String → String
member_key org user = org ++ (":" ++ user)

unfoldable pub create_organization : Organization → Memory → Result Memory
create_organization o m = do orgs ← create o.id o m.orgs; ok (record m { orgs = orgs })

unfoldable pub get_organization : String → Memory → Result Organization
get_organization id m = or_not_found (lookup id m.orgs)

-- the loop of `ListUserOrganizations` over the memberships of the user
unfoldable pub orgs_of : Dict Organization → List Membership → List Organization
orgs_of orgs [] = []
orgs_of orgs (x ∷ xs) =
    let rest = orgs_of orgs xs in
    elim (lookup x.organization_id orgs) [ none ↦ rest | some o ↦ o ∷ rest ]

unfoldable pub list_user_organizations : String → Memory → List Organization
list_user_organizations user m =
    orgs_of m.orgs (select_values (λ x. x.user_id == user) m.memberships)

unfoldable pub create_membership : String → String → String → Option ℕ → Memory → Memory
create_membership org user role expires m = record m {
  memberships =
      insert (member_key org user)
        (record { organization_id = org; user_id = user; role = role; expires_at = expires })
        m.memberships;
}

unfoldable pub get_membership : String → String → Memory → Result Membership
get_membership org user m = or_not_found (lookup (member_key org user) m.memberships)

unfoldable pub list_members : String → Memory → List Membership
list_members org m = select_values (λ x. x.organization_id == org) m.memberships

unfoldable pub update_member_role : String → String → String → Memory → Result Memory
update_member_role org user role m = do
  memberships ←
      modify (λ (x : Membership). record x { role = role }) (member_key org user) m.memberships
  ok (record m { memberships = memberships })

unfoldable pub remove_membership : String → String → Memory → Result Memory
remove_membership org user m = elim (lookup (member_key org user) m.memberships) [
  | none ↦ err not_found
  | some x ↦ ok (record m { memberships = delete (member_key org user) m.memberships })
]

unfoldable pub create_invite : OrgInvite → Memory → Memory
create_invite i m = record m { invites = insert i.token_hash i m.invites }

unfoldable pub get_invite_by_token : String → Memory → Result OrgInvite
get_invite_by_token token_hash m = or_not_found (lookup token_hash m.invites)

unfoldable pub accept_invite : String → ℕ → Memory → Result Memory
accept_invite token_hash at m = do
  invites ← modify (λ (i : OrgInvite). record i { accepted_at = some at }) token_hash m.invites
  ok (record m { invites = invites })
