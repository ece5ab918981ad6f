-- ===== src/Store/Memory/Factors.antt =====
-- Second factors and email tokens of server/internal/store/memory.go.
use multi_desk.Base.{ℕ, String, none, some, List, ◌==◌}
use multi_desk.Dict.{lookup, insert, delete, find_value, adjust_first}
use multi_desk.Store.Types.{SecondFactor, EmailToken, Result, ok, err, not_found, or_not_found}
use multi_desk.Store.Memory.{Memory}

unfoldable pub create_second_factor : String → String → String → List ℕ → Memory → Memory
create_second_factor id user_id kind secret m = record m {
  second_factor =
      insert user_id
        (record {
          id = id;
          user_id = user_id;
          kind = kind;
          encrypted_secret = secret;
          verified_at = none;
        })
        m.second_factor;
}

unfoldable pub get_second_factor : String → Memory → Result SecondFactor
get_second_factor user_id m = or_not_found (lookup user_id m.second_factor)

-- The first factor with the identifier, in the order of the loop.
unfoldable pub verify_second_factor : String → ℕ → Memory → Result Memory
verify_second_factor id at m = elim (find_value (λ f. f.id == id) m.second_factor) [
  | none ↦ err not_found
  | some f ↦ ok (record m {
    second_factor =
        adjust_first (λ f. f.id == id) (λ f. record f { verified_at = some at }) m.second_factor;
  })
]

unfoldable pub delete_second_factor : String → Memory → Result Memory
delete_second_factor user_id m = elim (lookup user_id m.second_factor) [
  | none ↦ err not_found
  | some f ↦ ok (record m { second_factor = delete user_id m.second_factor })
]

unfoldable pub create_email_token : String → String → String → ℕ → Memory → Memory
create_email_token token_hash user_id kind expires m = record m {
  email_tokens =
      insert token_hash
        (record { token_hash = token_hash; user_id = user_id; kind = kind; expires_at = expires })
        m.email_tokens;
}

unfoldable pub get_email_token : String → Memory → Result EmailToken
get_email_token token_hash m = or_not_found (lookup token_hash m.email_tokens)

unfoldable pub delete_email_token : String → Memory → Memory
delete_email_token token_hash m = record m { email_tokens = delete token_hash m.email_tokens }
