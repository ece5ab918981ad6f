-- ===== src/Platform/Proof.antt =====
-- `newChallenge` and `proof` of server/internal/platform/service.go: one-time challenges that a
-- device signs.
pub mod Laws
use multi_desk.Base.{
  ℕ, ◌+◌, String, Option, none, some, Bool, true, false, not, ◌&&◌, ◌||◌, ◌==◌, ltb, if◌then◌else◌,
}
use multi_desk.Dict.{Dict, lookup, insert, delete}
use multi_desk.Security.{minute, verify_device}
use multi_desk.Platform.World.{World, random_id}
use multi_desk.Platform.State.{Service, Wire, Challenge, Request, Reply, sent, nonce}

module _ (w : World) (now : ℕ) where
  unfoldable pub new_challenge : String → Service → Service × Reply
  new_challenge user s =
      let draws = s.wire.draws in
      let fresh = random_id w draws 32 in
      (
        record s {
          challenges = insert fresh (record { user = user; expires = now + minute }) s.challenges;
          wire = record (s.wire) { draws = draws + 1 };
        },
        sent 201 (nonce fresh),
      )

  -- the test of the challenge that was found
  unfoldable pub fits : String → Option Challenge → Bool
  fits user none = false
  fits user (some c) = c.user == user && ltb now c.expires

  -- `proof(r, user, key)`, true where it returns no error; the challenge is gone in any case
  unfoldable pub proof : Request → String → String → Service → Service × Bool
  proof r user key s = (
    record s { challenges = delete r.nonce s.challenges },
    fits user (lookup r.nonce s.challenges)
        && verify_device w.crypto key r.signature r.method r.path r.nonce,
  )
