-- ===== src/Store/Memory/Accounts/Laws.antt =====
-- The accounts of the store: an account that was created is found by its address, and the writes to
-- accounts and refresh tokens.

use multi_desk.Base.{
  ℕ, String, none, some, List, ◌≡◌, refl, ◌∙◌, ap, arith, Option-cases, inl, inr, eq_iff,
}
use multi_desk.Dict.{lookup, insert}
use multi_desk.Dict.Laws.{lookup-insert_self, lookup-insert}
use multi_desk.Dict.Every.{lookup-insert_cases}
use multi_desk.Store.Types.{ok-injective, Account, ok, err, conflict}
use multi_desk.Store.Memory.{Memory}
use multi_desk.Store.Memory.Accounts.{create_account, get_account_by_email}

-- The index of addresses names accounts that exist, with the address that it lists.
abbrev pub IsIndexed : Memory → Type 0
IsIndexed m =
    (email id : String)
    → lookup email m.emails ≡ some id
    → (a : Account) × (lookup id m.accounts ≡ some a) × (a.email ≡ email)

-- Where an account was created, a look-up by its address finds it with exactly its fields, and a
-- second creation for the address is refused.
pub create_account-get_account_by_email :
    (now later : ℕ) (id id' email name name' : String) (hash hash' : List ℕ) (m t : Memory)
    → create_account now id email name hash m ≡ ok t
    → (get_account_by_email email t
        ≡ ok (record {
          id = id;
          email = email;
          name = name;
          password_hash = hash;
          token_version = 0;
          email_verified_at = none;
          created_at = now;
        }))
      × (create_account later id' email name' hash' t ≡ err conflict)
unfolding create_account get_account_by_email
create_account-get_account_by_email now later id id' email name name' hash hash' m t =
    elim (Option-cases (lookup email m.emails)) [
      | inr (old, e) ↦ rw (e, create_account) (λ h. cc)
      | inl e ↦
          rw (e, create_account)
            (λ h. rw (← ok-injective _ t h) (
              rw (lookup-insert_self email id m.emails, get_account_by_email, create_account)
                (rw (lookup-insert_self id _ m.accounts, get_account_by_email) (refl, refl))))
    ]

created-indexed :
    (a : Account) (id email : String) (m : Memory)
    → IsIndexed m
    → lookup id m.accounts ≡ none
    → a.email ≡ email
    → (k j : String) → lookup k (insert email id m.emails) ≡ some j
    → (b : Account) × (lookup j (insert id a m.accounts) ≡ some b) × (b.email ≡ k)
created-indexed a id email m i fresh e k j f = elim (lookup-insert_cases email k id m.emails j f) [
  | inl (same, value) ↦ (a, rw (← value) (lookup-insert_self id a m.accounts), e ∙ same)
  | inr (other, found) ↦
      let (b, g, h) = i k j found in
      (
        b,
        ground (arith, lookup-insert id j a m.accounts, eq_iff id j, ap (λ x. lookup x m.accounts)),
        h,
      )
]

-- Creating an account, where it succeeds and no account has the identifier, keeps the index of
-- addresses right.
pub create_account-IsIndexed :
    (now : ℕ) (id email name : String) (hash : List ℕ) (m t : Memory)
    → IsIndexed m
    → lookup id m.accounts ≡ none
    → create_account now id email name hash m ≡ ok t
    → IsIndexed t
unfolding create_account
create_account-IsIndexed now id email name hash m t i fresh =
    elim (Option-cases (lookup email m.emails)) [
      | inr (old, e) ↦ rw (e, create_account) (λ h. cc)
      | inl e ↦
          rw (e, create_account)
            (λ h.
              rw (← ok-injective _ t h) (λ k j f. created-indexed _ id email m i fresh refl k j f))
    ]
