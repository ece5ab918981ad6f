-- ===== src/Security.antt =====
-- server/internal/security: what its code takes from the standard library's encodings and
-- cryptography, the clock's units, and the device proofs of token.go and credentials of turn.go.
pub mod Token
use Prim.Native.String.{◌++◌}
use multi_desk.Base.{
  ℕ, ◌*◌, ◌/◌, ◌+◌, String, Option, none, some, List, Bool, false, ◌&&◌, num_eq, length,
  if◌then◌else◌,
}
use multi_desk.Base.Int.{ℤ, sub_ℕ}

abbrev pub second : ℕ
second = 1000000000

abbrev pub minute : ℕ
minute = 60 * second

abbrev pub hour : ℕ
hour = 60 * minute

-- `t.Unix()`: whole seconds since 1970, which is 62135596800 seconds after Go's zero time
unfoldable pub unix : ℕ → ℤ
unix t = sub_ℕ (t / second) 62135596800

pub record Claims : Type 0 where
  pub subject : String
  pub expires : ℤ
  pub issuer : String
  pub audience : String
  pub version : ℕ

-- Byte slices are lists of numbers; where Go converts a text to bytes only to hash or to encode
-- it, the parameter takes the text.
pub record Crypto : Type 0 where
  -- `base64.RawURLEncoding`
  pub url_encode : List ℕ → String
  pub url_decode : String → Option (List ℕ)
  -- `base64.StdEncoding`
  pub std_encode : List ℕ → String
  pub std_decode : String → Option (List ℕ)
  -- `[]byte(s)`
  pub bytes : String → List ℕ
  -- `hmac.New(sha256.New, key)`, `hmac.New(sha1.New, []byte(secret))`
  pub hmac_sha256 : List ℕ → String → List ℕ
  pub hmac_sha1 : String → String → List ℕ
  -- `hmac.Equal` and the comparison of two byte strings
  pub bytes_equal : List ℕ → List ℕ → Bool
  -- `ed25519.Verify(key, []byte(message), signature)`
  pub ed25519_verify : List ℕ → String → List ℕ → Bool
  -- `json.Marshal` and `json.Unmarshal` of the claims
  pub marshal_claims : Claims → List ℕ
  pub unmarshal_claims : List ℕ → Option Claims
  -- `strconv.FormatInt(n, 10)`
  pub format_int : ℤ → String

unfoldable pub device_message : String → String → String → String
device_message method path nonce =
    "MuiltDesk/v1\n" ++ (method ++ ("\n" ++ (path ++ ("\n" ++ nonce))))

module _ (c : Crypto) where
  open c use {std_encode, std_decode, ed25519_verify, hmac_sha1, format_int}

  -- `ed25519.PublicKeySize` is 32.
  unfoldable pub verify_device : String → String → String → String → String → Bool
  verify_device public_key signature method path nonce = elim (std_decode public_key) [
    | none ↦ false
    | some key ↦
        if num_eq (length key) 32
        then elim (std_decode signature) [
          | none ↦ false
          | some sig ↦ ed25519_verify key (device_message method path nonce) sig
        ]
        else false
  ]

  -- user name and password of a relay
  unfoldable pub turn_credential : String → String → ℕ → String × String
  turn_credential secret subject expires =
      let username : String = format_int (unix expires) ++ (":" ++ subject) in
      (username, std_encode (hmac_sha1 secret username))
