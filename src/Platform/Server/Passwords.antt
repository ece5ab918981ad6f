-- ===== src/Platform/Server/Passwords.antt =====
-- `encodePassword` and `decodePassword` of server/internal/platform/email.go: a salt of 16 bytes and a
-- hash of 32 in one byte string.
use multi_desk.Base.{
  ℕ, Option, none, some, List, ◌++◌, ltb, length, take, drop, if◌then◌else◌, ◌≡◌, refl, arith,
  length-append, take-append, drop-append, take-all, false,
}
use multi_desk.Platform.State.{Password}

unfoldable pub encode_password : Password → List ℕ
encode_password p = p.salt ++ p.hash

-- `none` where it returns an error
unfoldable pub decode_password : List ℕ → Option Password
decode_password b =
    if ltb (length b) 48
    then none
    else some (record { salt = take 16 b; hash = take 32 (drop 16 b) })

long :
    (p : Password)
    → length p.salt ≡ 16
    → length p.hash ≡ 32
    → ltb (length (p.salt ++ p.hash)) 48 ≡ false
long p salted hashed = ground (arith, length-append p.salt p.hash)

-- A password with a salt of 16 and a hash of 32 bytes is read back from its encoding.
pub decode_password-encode_password :
    (p : Password)
    → length p.salt ≡ 16
    → length p.hash ≡ 32
    → decode_password (encode_password p) ≡ some p
unfolding decode_password encode_password
decode_password-encode_password p salted hashed = rw (long p salted hashed) (
    rw (← salted, ← hashed)
      (rw (take-append p.salt p.hash, drop-append p.salt p.hash, take-all p.hash) refl))
