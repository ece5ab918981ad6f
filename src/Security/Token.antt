-- ===== src/Security/Token.antt =====
-- `Sign` and `Verify` of server/internal/security/token.go.
pub mod Split
pub mod RoundTrip
pub mod Sound
use Prim.Native.String.{◌++◌, len}
use multi_desk.Base.{
  ℕ, ◌*◌, ◌+◌, String, Option, none, some, List, [], ◌∷◌, Bool, true, false, not, ◌||◌, ◌==◌, ltb,
  if◌then◌else◌,
}
use multi_desk.Base.Int.{leb_ℤ, ltb_ℤ}
use multi_desk.Security.{Claims, Crypto, minute, unix}
use Split.{split_dots}

abbrev pub header : String
header = "{\"alg\":\"HS256\",\"typ\":\"JWT\"}"

-- `now.Add(10 * time.Minute)` and `now.Add(11 * time.Minute)`
abbrev pub claims_of : String → ℕ → ℕ → Claims
claims_of user version now = record {
  subject = user;
  expires = unix (now + 10 * minute);
  issuer = "muiltdesk";
  audience = "muiltdesk-api";
  version = version;
}

-- the last test of `Verify`
unfoldable pub acceptable : Claims → ℕ → Bool
acceptable c now = not (
    c.subject == ""
    || not (c.issuer == "muiltdesk")
    || not (c.audience == "muiltdesk-api")
    || leb_ℤ c.expires (unix now)
    || ltb_ℤ (unix (now + 11 * minute)) c.expires)

module _ (c : Crypto) (key : List ℕ) where
  open c use {
    url_encode, url_decode, bytes, hmac_sha256, bytes_equal, marshal_claims, unmarshal_claims,
  }

  unfoldable pub sign : String → ℕ → ℕ → String
  sign user version now =
      let h : String = url_encode (bytes header) in
      let payload : String =
        h ++ ("." ++ url_encode (marshal_claims (claims_of user version now))) in
      payload ++ ("." ++ url_encode (hmac_sha256 key payload))

  -- `Verify` from the decoding of the claims on
  unfoldable pub check_claims : String → ℕ → Option Claims
  check_claims body now = elim (url_decode body) [
    | none ↦ none
    | some raw ↦ elim (unmarshal_claims raw) [
      | none ↦ none
      | some claims ↦ if acceptable claims now then some claims else none
    ]
  ]

  -- `Verify` from the decoding of the signature on
  unfoldable pub check_signature : String → String → String → ℕ → Option Claims
  check_signature head body tail now = elim (url_decode tail) [
    | none ↦ none
    | some signature ↦
        if bytes_equal signature (hmac_sha256 key (head ++ ("." ++ body)))
        then check_claims body now
        else none
  ]

  -- `Verify` from the decoding of the header on
  unfoldable pub check_header : String → String → String → ℕ → Option Claims
  check_header head body tail now = elim (url_decode head) [
    | none ↦ none
    | some h ↦ if bytes_equal h (bytes header) then check_signature head body tail now else none
  ]

  unfoldable pub check_parts : List String → ℕ → Option Claims
  check_parts (head ∷ body ∷ tail ∷ []) now = check_header head body tail now
  check_parts _ now = none

  -- `none` where `Verify` returns an error
  unfoldable pub verify : String → ℕ → Option Claims
  verify token now = if ltb 4096 (len token) then none else check_parts (split_dots token) now
