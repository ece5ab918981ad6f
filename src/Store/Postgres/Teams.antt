-- ===== src/Store/Postgres/Teams.antt =====
-- Organizations, memberships and invites of `PostgresStore` in server/internal/store/postgres.go. The texts of the statements are the
-- source's, with single blanks.
use multi_desk.Base.{ℕ, String, Option, none, some, List, [], ◌∷◌}
use multi_desk.Store.Types.{Organization, Membership, OrgInvite, Error, Result}
use multi_desk.Store.Postgres.Database.{
  Database, text, instant, run, or_conflict, or_none_affected, or_plain, scanned, collected,
}
use multi_desk.Store.Postgres.Transactions.{with_tx}
use multi_desk.Store.Postgres.Rows.{of_time, organization_row, membership_row, invite_row}

module _ {D : Type 0} (db : Database D) where
  -- the function that `CreateOrganization` runs in a transaction: the owner becomes a member
  unfoldable pub insert_organization : Organization → D → D × Option Error
  insert_organization o d =
      let (t, e) =
        run db or_conflict
          "INSERT INTO organizations (id, name, owner_id, created_at) VALUES ($1,$2,$3,$4)"
          (text o.id ∷ text o.name ∷ text o.owner_id ∷ instant o.created_at ∷ []) d in
      elim e [
        | some e ↦ (t, some e)
        | none ↦
            run db or_plain
              "INSERT INTO memberships (organization_id, user_id, role) VALUES ($1,$2,'owner') ON CONFLICT (organization_id, user_id) DO NOTHING"
              (text o.id ∷ text o.owner_id ∷ []) t
      ]

  unfoldable pub create_organization : Organization → D → D × Option Error
  create_organization o d = with_tx db (insert_organization o) d

  unfoldable pub get_organization : String → D → Result Organization
  get_organization id d = scanned organization_row (
      db.query_row "SELECT id, name, owner_id, created_at FROM organizations WHERE id = $1"
        (text id ∷ []) d)

  unfoldable pub list_user_organizations : String → D → Result (List Organization)
  list_user_organizations user d = collected organization_row (
      db.query
        "SELECT o.id, o.name, o.owner_id, o.created_at FROM organizations o JOIN memberships m ON m.organization_id = o.id WHERE m.user_id = $1 ORDER BY o.name"
        (text user ∷ []) d)

  unfoldable pub create_membership : String → String → String → Option ℕ → D → D × Option Error
  create_membership org user role expires d =
      run db or_plain
        "INSERT INTO memberships (organization_id, user_id, role, expires_at) VALUES ($1,$2,$3,$4) ON CONFLICT (organization_id, user_id) DO UPDATE SET role = EXCLUDED.role, expires_at = EXCLUDED.expires_at"
        (text org ∷ text user ∷ text role ∷ of_time expires ∷ []) d

  unfoldable pub get_membership : String → String → D → Result Membership
  get_membership org user d = scanned membership_row (
      db.query_row
        "SELECT organization_id, user_id, role, expires_at FROM memberships WHERE organization_id = $1 AND user_id = $2"
        (text org ∷ text user ∷ []) d)

  unfoldable pub list_members : String → D → Result (List Membership)
  list_members org d = collected membership_row (
      db.query
        "SELECT organization_id, user_id, role, expires_at FROM memberships WHERE organization_id = $1 ORDER BY role, user_id"
        (text org ∷ []) d)

  unfoldable pub update_member_role : String → String → String → D → D × Option Error
  update_member_role org user role d =
      run db or_none_affected
        "UPDATE memberships SET role = $1 WHERE organization_id = $2 AND user_id = $3"
        (text role ∷ text org ∷ text user ∷ []) d

  unfoldable pub remove_membership : String → String → D → D × Option Error
  remove_membership org user d =
      run db or_none_affected "DELETE FROM memberships WHERE organization_id = $1 AND user_id = $2"
        (text org ∷ text user ∷ []) d

  unfoldable pub create_invite : OrgInvite → D → D × Option Error
  create_invite i d =
      run db or_conflict
        "INSERT INTO org_invites (id, org_id, email, role, token_hash, expires_at) VALUES ($1,$2,$3,$4,$5,$6)"
        (text i.id
          ∷ text i.org_id
          ∷ text i.email
          ∷ text i.role
          ∷ text i.token_hash
          ∷ instant i.expires_at
          ∷ [])
        d

  unfoldable pub get_invite_by_token : String → D → Result OrgInvite
  get_invite_by_token hash d = scanned invite_row (
      db.query_row
        "SELECT id, org_id, email, role, token_hash, expires_at, accepted_at FROM org_invites WHERE token_hash = $1"
        (text hash ∷ []) d)

  unfoldable pub accept_invite : String → ℕ → D → D × Option Error
  accept_invite hash at d =
      run db or_none_affected
        "UPDATE org_invites SET accepted_at = $1 WHERE token_hash = $2 AND accepted_at IS NULL"
        (instant at ∷ text hash ∷ []) d
