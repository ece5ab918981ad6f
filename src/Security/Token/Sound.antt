-- ===== src/Security/Token/Sound.antt =====
-- What an accepted token has passed.
use Prim.Native.String.{◌++◌, len}
use multi_desk.Base.{
  ℕ, ◌≤◌, String, some, List, [], ◌∷◌, true, ◌≡◌, refl, ◌≢◌, ltb, arith, eq_iff, ltb-false→le,
  Bool-cases, inl, inr,
}
use multi_desk.Base.Int.{ltb_ℤ}
use multi_desk.Security.{Claims, Crypto, unix}
use multi_desk.Security.Token.{
  acceptable, verify, check_parts, check_header, check_signature, check_claims,
}
use multi_desk.Security.Token.Split.{split_dots}

-- What `Verify` has checked of a token when it returns claims.
pub record IsAccepted (c : Crypto) (key : List ℕ) (token : String) (now : ℕ) (claims : Claims)
    : Type 0 where
  pub head : String
  pub payload : String
  pub tail : String
  pub signature : List ℕ
  pub raw : List ℕ
  pub three_parts : split_dots token ≡ head ∷ payload ∷ tail ∷ []
  pub not_long : len token ≤ 4096
  pub decoded_tail : c.url_decode tail ≡ some signature
  pub signed : c.bytes_equal signature (c.hmac_sha256 key (head ++ ("." ++ payload))) ≡ true
  pub decoded_payload : c.url_decode payload ≡ some raw
  pub unmarshalled : c.unmarshal_claims raw ≡ some claims
  pub named : claims.subject ≢ ""
  pub issued_here : claims.issuer ≡ "muiltdesk"
  pub meant_here : claims.audience ≡ "muiltdesk-api"
  pub unexpired : ltb_ℤ (unix now) claims.expires ≡ true

acceptable_sound :
    (claims : Claims) (now : ℕ)
    → acceptable claims now ≡ true
    → (claims.subject ≢ "")
      × (claims.issuer ≡ "muiltdesk")
      × (claims.audience ≡ "muiltdesk-api")
      × (ltb_ℤ (unix now) claims.expires ≡ true)
unfolding acceptable
acceptable_sound claims now h = ground (
  arith,
  eq_iff claims.subject "",
  eq_iff claims.issuer "muiltdesk",
  eq_iff claims.audience "muiltdesk-api",
)

check_claims_sound :
    (c : Crypto) (key : List ℕ) (payload : String) (now : ℕ) (claims : Claims)
    → check_claims c key payload now ≡ some claims
    → (raw : List ℕ) × (c.url_decode payload ≡ some raw)
      × (c.unmarshal_claims raw ≡ some claims)
      × (acceptable claims now ≡ true)
unfolding check_claims
check_claims_sound c key payload now claims h = ground arith

module _ (c : Crypto) (key : List ℕ) where
  check_signature_sound :
      (head payload tail : String) (now : ℕ) (claims : Claims)
      → check_signature c key head payload tail now ≡ some claims
      → (signature : List ℕ) × (c.url_decode tail ≡ some signature)
        × (c.bytes_equal signature (c.hmac_sha256 key (head ++ ("." ++ payload))) ≡ true)
        × (check_claims c key payload now ≡ some claims)
  unfolding check_signature
  check_signature_sound head payload tail now claims h = ground arith

  check_header_sound :
      (head payload tail : String) (now : ℕ) (claims : Claims)
      → check_header c key head payload tail now ≡ some claims
      → check_signature c key head payload tail now ≡ some claims
  unfolding check_header
  check_header_sound head payload tail now claims h = ground arith

  module _ (token : String) (now : ℕ) (claims : Claims) where
    check_parts_sound :
        (parts : List String)
        → split_dots token ≡ parts
        → len token ≤ 4096
        → check_parts c key parts now ≡ some claims
        → IsAccepted c key token now claims
    unfolding check_parts
    check_parts_sound (head ∷ payload ∷ tail ∷ []) e short h =
        let (signature, decoded_tail, signed, rest) =
          check_signature_sound head payload tail now claims
            (check_header_sound head payload tail now claims h) in
        let (raw, decoded_payload, unmarshalled, good) =
          check_claims_sound c key payload now claims rest in
        let (named, issued_here, meant_here, unexpired) = acceptable_sound claims now good in
        record {
          head = head;
          payload = payload;
          tail = tail;
          signature = signature;
          raw = raw;
          three_parts = e;
          not_long = short;
          decoded_tail = decoded_tail;
          signed = signed;
          decoded_payload = decoded_payload;
          unmarshalled = unmarshalled;
          named = named;
          issued_here = issued_here;
          meant_here = meant_here;
          unexpired = unexpired;
        }
    check_parts_sound [] e short h = cc
    check_parts_sound _ e short h = cc

    -- A token that `Verify` accepts has three parts and at most 4096 bytes, carries the server's
    -- HMAC of its first two parts, and holds claims with a subject, with the issuer and the audience
    -- of this server, that expire after the present second.
    pub verify_sound : verify c key token now ≡ some claims → IsAccepted c key token now claims
    unfolding verify
    verify_sound h = elim (Bool-cases (ltb 4096 (len token))) [
      | inl long ↦ ground arith
      | inr short ↦
          check_parts_sound (split_dots token) refl (ltb-false→le _ _ short) (ground arith)
    ]
