-- ===== src/Platform/World.antt =====
-- What server/internal/platform takes from the random source, from password hashing and from the
-- Unicode tables, beside the cryptography of `Security`: parameters of the model.
use multi_desk.Base.{ℕ, ◌+◌, ◌%◌, String, Option, List}
use multi_desk.Security.{Crypto}

pub record World : Type 0 where
  pub crypto : Crypto
  pub open crypto use *
  -- `rand.Read` of so many bytes; the first argument numbers the reads
  pub random : ℕ → ℕ → List ℕ
  -- `hex.EncodeToString(sha256.Sum256([]byte(raw)))`
  pub sha256_hex : String → String
  -- `argon2.IDKey([]byte(raw), salt, 3, 64*1024, 2, 32)`
  pub argon2 : String → List ℕ → List ℕ
  -- `strings.ToLower`
  pub to_lower : String → String
  -- the `Address` of `mail.ParseAddress`, `none` where it returns an error
  pub parse_address : String → Option String
  -- `fmt.Sprintf("%08X", buf)`, and base32 without padding
  pub hex_upper : List ℕ → String
  pub base32 : List ℕ → String
  -- `Seal` and `Open` of AES-GCM under the first 32 bytes of a key, with a nonce of 12 bytes
  pub seal : List ℕ → List ℕ → String → List ℕ
  pub unseal : List ℕ → List ℕ → List ℕ → Option String
  -- `t.UTC().Format(time.RFC3339)`
  pub rfc3339 : ℕ → String

-- `x++` on a `uint64`
unfoldable pub next_u64 : ℕ → ℕ
next_u64 n = (n + 1) % 18446744073709551616

-- `randomID(n)`, at the given read of the random source
unfoldable pub random_id : World → ℕ → ℕ → String
random_id w draw n = w.url_encode (w.random draw n)
