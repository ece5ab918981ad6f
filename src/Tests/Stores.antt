-- ===== src/Tests/Stores.antt =====
-- The theorems on the store in memory, applied to a store with one account and one membership.
use multi_desk.Store.Memory.Accounts.{create_account, get_account_by_email}
use multi_desk.Dict.{delete, insert, lookup}
use multi_desk.Base.{none, [], ◌∷◌, ◌==◌, ◌≡◌, refl, ltb, if◌then◌else◌}
use multi_desk.Store.Types.{Account, AuditEvent, ok, err, conflict, not_found}
use multi_desk.Store.Memory.{Memory, new_memory}
use multi_desk.Store.Memory.Accounts.Laws.{
  IsIndexed, create_account-get_account_by_email, create_account-IsIndexed,
}
use multi_desk.Store.Memory.Log.{set_online, is_online}
use multi_desk.Store.Memory.Log.Laws.{set_online-is_online}
use multi_desk.Store.Memory.Teams.{
  create_membership, get_membership, member_key, remove_membership, update_member_role,
}
use multi_desk.Store.Memory.Teams.Laws.{remove_membership-get_membership}

abbrev carol : Account
carol = record {
  id = "c";
  email = "carol";
  name = "Carol";
  password_hash = [];
  token_version = 0;
  email_verified_at = none;
  created_at = 5;
}

abbrev empty : Memory
empty = new_memory

abbrev with_carol : Memory
with_carol = record empty { accounts = ("c", carol) ∷ []; emails = ("carol", "c") ∷ [] }

carol_created : create_account 5 "c" "carol" "Carol" [] empty ≡ ok with_carol
unfolding create_account new_memory lookup insert
carol_created = refl

create_account-get_account_by_email_example :
    (get_account_by_email "carol" with_carol ≡ ok carol)
    × (create_account 6 "d" "carol" "Other" [] with_carol ≡ err conflict)
create_account-get_account_by_email_example =
    create_account-get_account_by_email 5 6 "c" "d" "carol" "Carol" "Other" [] [] empty with_carol
      carol_created

empty-IsIndexed : IsIndexed empty
unfolding new_memory lookup
empty-IsIndexed email id h = cc

c_free : lookup "c" empty.accounts ≡ none
unfolding new_memory lookup
c_free = refl

create_account-IsIndexed_example : IsIndexed with_carol
create_account-IsIndexed_example =
    create_account-IsIndexed 5 "c" "carol" "Carol" [] empty with_carol empty-IsIndexed c_free
      carol_created

abbrev event : AuditEvent
event = record {
  id = "e";
  actor_id = "c";
  organization_id = none;
  action = "account.login";
  resource_id = "c";
  metadata = [];
  occurred_at = 5;
}

set_online-is_online_example :
    is_online 12 "desk" (set_online 5 "desk" 10 empty)
    ≡ (if "desk" == "desk" then ltb 12 15 else is_online 12 "desk" empty)
set_online-is_online_example = set_online-is_online 5 10 12 "desk" "desk" empty

membership_removed :
    remove_membership "o" "u" (create_membership "o" "u" "owner" none empty) ≡ ok empty
unfolding new_memory remove_membership create_membership member_key lookup insert delete
membership_removed = refl

remove_membership-get_membership_example :
    (get_membership "o" "u" empty ≡ err not_found)
    × ((remove_membership "o" "u" empty ≡ err not_found)
        × (update_member_role "o" "u" "admin" empty ≡ err not_found))
remove_membership-get_membership_example =
    remove_membership-get_membership "o" "u" "admin" (create_membership "o" "u" "owner" none empty)
      empty membership_removed
