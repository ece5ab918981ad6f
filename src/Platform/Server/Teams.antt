-- ===== src/Platform/Server/Teams.antt =====
-- server/internal/platform/teams.go: organizations, their members and invites.
use Prim.Native.String.{◌++◌, len}
use multi_desk.Base.{ℕ, ◌+◌, ◌*◌, String, none, [], Bool, not, ◌||◌, ◌==◌, ltb, if◌then◌else◌}
use multi_desk.Base.Text.{trim_space}
use multi_desk.Security.{hour}
use multi_desk.Store.Types.{Organization, ok, err}
use multi_desk.Store.Interface.{Backend}
use multi_desk.Platform.World.{World, random_id}
use multi_desk.Platform.State.{Reply, failed, sent, Body, Decoded, malformed, trailing, body}
use multi_desk.Platform.Session.Handlers.{bad_body, two_bodies}
use multi_desk.Platform.Server.{Server, or_keep, draw_of, draws, with_store, recorded}

pub record Invitation : Type 0 where
  pub email : String
  pub role : String

-- `q.Role != "administrator" && ...`, negated
unfoldable pub is_role : String → Bool
is_role r = r == "administrator" || r == "operator" || r == "viewer" || r == "guest"

module _ {S : Type 0} (b : Backend S) (w : World) (now : ℕ) where
  -- `createOrganization` for the trimmed name
  unfoldable pub create_named : String → String → Server S → Server S × Reply
  create_named user name s =
      if ltb (len name) 2 || ltb 80 (len name)
      then (s, failed 400 "organization name between 2 and 80 characters required")
      else let org : Organization = record {
        id = random_id w (draw_of s) 16;
        name = name;
        owner_id = user;
        created_at = now;
      } in
        let t = draws 1 s in
        elim (b.create_organization org t.store) [
          | err e ↦ (t, failed 500 "failed to create organization")
          | ok st ↦ (
            recorded w now user "org.created" org.id
                (with_store t (or_keep st (b.create_membership org.id user "owner" none st))),
            sent 201 (Body.organization org),
          )
        ]

  unfoldable pub create_organization : String → Decoded String → Server S → Server S × Reply
  create_organization user malformed s = (s, bad_body)
  create_organization user trailing s = (s, two_bodies)
  create_organization user (body name) s = create_named user (trim_space name) s

  unfoldable pub list_organizations : String → Server S → Server S × Reply
  list_organizations user s = elim (b.list_user_organizations user s.store) [
    | err e ↦ (s, sent 200 (Body.organizations []))
    | ok orgs ↦ (s, sent 200 (Body.organizations orgs))
  ]

  unfoldable pub list_members : String → Server S → Server S × Reply
  list_members org s =
      if org == ""
      then (s, failed 400 "organization ID required")
      else elim (b.list_members org s.store) [
        | err e ↦ (s, sent 200 (Body.members []))
        | ok members ↦ (s, sent 200 (Body.members members))
      ]

  -- `inviteMember` for the normalized address; reads of the random source: the token, the identifier
  unfoldable pub invite_as : String → String → String → String → Server S → Server S × Reply
  invite_as user org email role s =
      if email == "" || not (is_role role)
      then (s, failed 400 "valid email and role required")
      else let raw = random_id w (draw_of s) 32 in
        let id = random_id w (draw_of s + 1) 16 in
        let t = draws 2 s in
        (
          recorded w now user "org.member_invited" id (
              with_store t (
                or_keep t.store (
                  b.create_invite
                    (record {
                      id = id;
                      org_id = org;
                      email = email;
                      role = role;
                      token_hash = w.sha256_hex raw;
                      expires_at = now + 7 * 24 * hour;
                      accepted_at = none;
                    })
                    t.store))),
          sent 201 (Body.invited id ("https://muiltdesk.app/invite/" ++ raw)),
        )

  unfoldable pub invite_member : String → String → Decoded Invitation → Server S → Server S × Reply
  invite_member user org malformed s = (s, bad_body)
  invite_member user org trailing s = (s, two_bodies)
  invite_member user org (body q) s = invite_as user org (w.to_lower (trim_space q.email)) q.role s

  unfoldable pub change_role :
      String → String → String → Decoded String → Server S → Server S × Reply
  change_role user org member malformed s = (s, bad_body)
  change_role user org member trailing s = (s, two_bodies)
  change_role user org member (body role) s = (
    recorded w now user "org.role_changed" (org ++ ("/" ++ member))
        (with_store s (or_keep s.store (b.update_member_role org member role s.store))),
    sent 200 Body.done,
  )

  unfoldable pub remove_member : String → String → String → Server S → Server S × Reply
  remove_member user org member s = (
    recorded w now user "org.member_removed" (org ++ ("/" ++ member))
        (with_store s (or_keep s.store (b.remove_membership org member s.store))),
    sent 200 Body.done,
  )
