-- ===== src/Platform/Proof/Laws.antt =====
-- A challenge serves one proof, of the account that asked for it, and for a minute.
use multi_desk.Base.{ℕ, String, some, false, ◌&&◌, ltb, ◌≡◌, refl, ◌==◌, arith}
use multi_desk.Dict.{lookup}
use multi_desk.Dict.Laws.{lookup-delete_self}
use multi_desk.Security.{verify_device}
use multi_desk.Platform.World.{World}
use multi_desk.Platform.State.{Service, Challenge, Request}
use multi_desk.Platform.Proof.{fits, proof}

module _ (w : World) where
  -- A nonce that one proof has named, successful or not, proves nothing in the next call, at any
  -- time, for any user, key, method and path.
  pub proof-replay :
      (now later : ℕ) (r r' : Request) (user user' key key' : String) (s : Service)
      → r'.nonce ≡ r.nonce
      → (proof w later r' user' key' (proof w now r user key s).0).1 ≡ false
  unfolding proof fits
  proof-replay now later r r' user user' key key' s e =
      rw e (ground (arith, lookup-delete_self r.nonce s.challenges))

  -- A proof succeeds exactly if its nonce is a stored challenge of this user that has not expired,
  -- and the device's signature of method, path and nonce verifies under the key.
  proof_iff :
      (now : ℕ) (r : Request) (user key : String) (s : Service) (c : Challenge)
      → lookup r.nonce s.challenges ≡ some c
      → (proof w now r user key s).1 ≡ (
          c.user == user
          && ltb now c.expires
          && verify_device w.crypto key r.signature r.method r.path r.nonce)
  unfolding proof fits
  proof_iff now r user key s c e = rw e refl
