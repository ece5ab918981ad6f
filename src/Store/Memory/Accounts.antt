-- ===== src/Store/Memory/Accounts.antt =====
-- Accounts and refresh tokens of server/internal/store/memory.go.
pub mod Laws
use multi_desk.Base.{ℕ, String, Option, none, some, List, Bool, ◌==◌, if◌then◌else◌}
use multi_desk.Dict.{Dict, lookup, insert, map_values}
use multi_desk.Platform.World.{next_u64}
use multi_desk.Store.Types.{
  Account, RefreshToken, Result, ok, err, ◌>>=◌, or_not_found, conflict, not_found, nil_pointer,
}
use multi_desk.Store.Memory.{Memory, modify}

unfoldable pub create_account : ℕ → String → String → String → List ℕ → Memory → Result Memory
create_account now id email name password_hash m = elim (lookup email m.emails) [
  | some taken ↦ err conflict
  | none ↦ ok (record m {
    accounts =
        insert id
          (record {
            id = id;
            email = email;
            name = name;
            password_hash = password_hash;
            token_version = 0;
            email_verified_at = none;
            created_at = now;
          })
          m.accounts;
    emails = insert email id m.emails;
  })
]

unfoldable pub get_account_by_id : String → Memory → Result Account
get_account_by_id id m = or_not_found (lookup id m.accounts)

-- `cloneAccount(m.accounts[id])` panics where the index names no account.
unfoldable pub get_account_by_email : String → Memory → Result Account
get_account_by_email email m = elim (lookup email m.emails) [
  | none ↦ err not_found
  | some id ↦ elim (lookup id m.accounts) [ none ↦ err nil_pointer | some a ↦ ok a ]
]

unfoldable pub update_account_version : String → Memory → Result Memory
update_account_version id m = do
  accounts ←
      modify (λ (a : Account). record a { token_version = next_u64 a.token_version }) id m.accounts
  ok (record m { accounts = accounts })

unfoldable pub set_email_verified : String → ℕ → Memory → Result Memory
set_email_verified id t m = do
  accounts ← modify (λ (a : Account). record a { email_verified_at = some t }) id m.accounts
  ok (record m { accounts = accounts })

unfoldable pub update_password : String → List ℕ → Memory → Result Memory
update_password id password_hash m = do
  accounts ←
      modify
        (λ (a : Account). record a {
          password_hash = password_hash;
          token_version = next_u64 a.token_version;
        })
        id m.accounts
  ok (record m { accounts = accounts })

unfoldable pub create_refresh_token : String → String → String → ℕ → Memory → Memory
create_refresh_token hash user_id family_id expires m = record m {
  refresh =
      insert hash
        (record {
          hash = hash;
          user_id = user_id;
          family_id = family_id;
          expires_at = expires;
          used_at = none;
          revoked_at = none;
        })
        m.refresh;
}

unfoldable pub get_refresh_token : String → Memory → Result RefreshToken
get_refresh_token hash m = or_not_found (lookup hash m.refresh)

unfoldable pub mark_refresh_token_used : String → ℕ → Memory → Result Memory
mark_refresh_token_used hash at m = do
  refresh ← modify (λ (t : RefreshToken). record t { used_at = some at }) hash m.refresh
  ok (record m { refresh = refresh })

unfoldable pub revoke_token : ℕ → RefreshToken → RefreshToken
revoke_token now t = record t { used_at = some now; revoked_at = some now }

unfoldable pub revoke_family : ℕ → String → Memory → Memory
revoke_family now family_id m = record m {
  refresh = map_values (λ t. if t.family_id == family_id then revoke_token now t else t) m.refresh;
}
