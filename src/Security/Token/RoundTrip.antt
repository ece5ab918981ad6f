-- ===== src/Security/Token/RoundTrip.antt =====
-- A token that `Sign` makes is accepted by `Verify` under the same key for ten minutes, and by no
-- `Verify` from then on.
use Prim.Native.String.{◌++◌, len}
use text.Mathlib.TextLemmas.{append_assoc}
use multi_desk.Base.{
  ℕ, ◌/◌, ◌+◌, ◌≤◌, String, none, some, List, [], ◌∷◌, true, false, ◌≡◌, refl, ◌≢◌, ltb,
  if◌then◌else◌, arith, ◌∙◌, ap, eq_iff, le→ltb-false,
}
use multi_desk.Security.{Claims, Crypto, second, unix}
use multi_desk.Security.Token.{
  header, claims_of, acceptable, sign, verify, check_parts, check_header, check_signature,
  check_claims,
}
use multi_desk.Security.Token.Split.{split_dots, has_dot, split_dots-append, split_dots-dotless}

-- What the encodings promise: base64 for URLs uses no dot and decodes what it encodes, JSON reads
-- back the claims that it wrote, and a byte string equals itself.
pub record IsFaithful (c : Crypto) : Type 0 where
  pub dotless : (bs : List ℕ) → has_dot (c.url_encode bs) ≡ false
  pub decodes : (bs : List ℕ) → c.url_decode (c.url_encode bs) ≡ some bs
  pub unmarshals : (claims : Claims) → c.unmarshal_claims (c.marshal_claims claims) ≡ some claims
  pub equal_self : (bs : List ℕ) → c.bytes_equal bs bs ≡ true

-- The claims of a signed token pass the last test of `Verify` until their second has come.
acceptable-claims_of :
    (user : String) (version t now : ℕ)
    → user ≢ ""
    → t ≤ now
    → acceptable (claims_of user version t) now ≡ ltb (now / second) (t / second + 600)
unfolding acceptable unix
acceptable-claims_of user version t now named from = ground (arith, eq_iff user "")

regroup : (h b t : String) → (h ++ ("." ++ b)) ++ ("." ++ t) ≡ h ++ ("." ++ (b ++ ("." ++ t)))
regroup h b t = append_assoc h ("." ++ b) ("." ++ t) ∙ ap (◌++◌ h) (append_assoc "." b ("." ++ t))

split_parts :
    (h b t : String)
    → has_dot h ≡ false
    → has_dot b ≡ false
    → has_dot t ≡ false
    → split_dots ((h ++ ("." ++ b)) ++ ("." ++ t)) ≡ h ∷ b ∷ t ∷ []
split_parts h b t p q r =
    ap split_dots (regroup h b t)
    ∙ split_dots-append h (b ++ ("." ++ t)) p
    ∙ ap (◌∷◌ h) (split_dots-append b t q ∙ ap (◌∷◌ b) (split_dots-dotless t r))

module _ (c : Crypto) (key : List ℕ) (f : IsFaithful c) where
  check_claims-marshal :
      (claims : Claims) (now : ℕ)
      → check_claims c key (c.url_encode (c.marshal_claims claims)) now
        ≡ (if acceptable claims now then some claims else none)
  unfolding check_claims
  check_claims-marshal claims now =
      rw (f.decodes (c.marshal_claims claims), check_claims)
        (rw (f.unmarshals claims, check_claims) refl)

  check_signature-hmac :
      (h b : String) (now : ℕ)
      → check_signature c key h b (c.url_encode (c.hmac_sha256 key (h ++ ("." ++ b)))) now
        ≡ check_claims c key b now
  unfolding check_signature
  check_signature-hmac h b now =
      rw (f.decodes (c.hmac_sha256 key (h ++ ("." ++ b))), check_signature)
        (rw (f.equal_self (c.hmac_sha256 key (h ++ ("." ++ b)))) refl)

  check_header-header :
      (b t : String) (now : ℕ)
      → check_header c key (c.url_encode (c.bytes header)) b t now
        ≡ check_signature c key (c.url_encode (c.bytes header)) b t now
  unfolding check_header
  check_header-header b t now =
      rw (f.decodes (c.bytes header), check_header) (rw (f.equal_self (c.bytes header)) refl)

  verify-short :
      (token : String) (now : ℕ)
      → len token ≤ 4096
      → verify c key token now ≡ check_parts c key (split_dots token) now
  unfolding verify
  verify-short token now short = rw (le→ltb-false 4096 (len token) short) refl

  split_dots-sign :
      (user : String) (version t : ℕ)
      → split_dots (sign c key user version t)
        ≡ c.url_encode (c.bytes header)
          ∷ c.url_encode (c.marshal_claims (claims_of user version t))
          ∷ c.url_encode (
              c.hmac_sha256 key (
                c.url_encode (c.bytes header)
                ++ ("." ++ c.url_encode (c.marshal_claims (claims_of user version t)))))
          ∷ []
  unfolding sign
  split_dots-sign user version t = split_parts _ _ _ (f.dotless _) (f.dotless _) (f.dotless _)

  -- `Verify` of a signed token passes the tests of header and signature, and comes down to the test
  -- of the claims.
  verify-sign :
      (user : String) (version t now : ℕ)
      → len (sign c key user version t) ≤ 4096
      → verify c key (sign c key user version t) now ≡ (
          if acceptable (claims_of user version t) now
          then some (claims_of user version t)
          else none)
  unfolding check_parts
  verify-sign user version t now short =
      verify-short (sign c key user version t) now short
      ∙ rw (split_dots-sign user version t) (
          check_header-header _ _ now
          ∙ check_signature-hmac _ _ now
          ∙ check_claims-marshal (claims_of user version t) now)

  -- Where base64 uses no dot and decodes what it encodes, JSON reads back the claims that it wrote and
  -- a byte string equals itself, a token that `Sign` made at time t for a named user, no longer than 4096 bytes, is accepted at
  -- a later time with its user and version, if fewer than 600 whole seconds of the clock have passed,
  -- and is refused from then on.
  pub verify-sign_window :
      (user : String) (version t now : ℕ)
      → len (sign c key user version t) ≤ 4096
      → user ≢ ""
      → t ≤ now
      → verify c key (sign c key user version t) now
        ≡ (if ltb (now / second) (t / second + 600) then some (claims_of user version t) else none)
  verify-sign_window user version t now short named from =
      verify-sign user version t now short
      ∙ rw (acceptable-claims_of user version t now named from) refl
