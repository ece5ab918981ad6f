-- ===== src/Platform/Auth.antt =====
-- server/internal/platform/auth.go, and the account handlers of service.go: `register`, `login`,
-- `rotate`, `logout`, `invalidate`, `me` and the middleware `auth`.
pub mod Handlers
pub mod Preserved
pub mod Laws
pub mod Rotation
pub mod Login
use Prim.Native.String.{len, slice}
use text.Mathlib.Text.{starts_with}
use multi_desk.Base.{
  ℕ, ◌+◌, ◌*◌, String, Option, none, some, List, [], ◌∷◌, ◌++◌, Bool, true, false, not, ◌&&◌, ◌||◌,
  ◌==◌, ltb, num_eq, if◌then◌else◌,
}
use multi_desk.Base.Text.{trim_space}
use multi_desk.Dict.{Dict, lookup, insert, adjust, map_values}
use multi_desk.Security.{second, minute, hour, Claims}
use multi_desk.Security.Token.{sign, verify}
use multi_desk.Platform.World.{World, next_u64, random_id}
use multi_desk.Platform.State.{
  Account, Password, RefreshToken, Tokens, Device, Session, closed, Peer, Wire, Service, Reply,
  failed, sent, crashed, Body, Decoded, malformed, trailing, body,
}
use multi_desk.Platform.Wire.{record_audit}
use multi_desk.Platform.Session.{present, is_open, visible, end_where}
use multi_desk.Platform.Session.Handlers.{bad_body, two_bodies}

-- the draws of the random source that a handler makes besides those of `record`
abbrev pub drawn : ℕ → Service → Service
drawn n s = record s { wire = record (s.wire) { draws = s.wire.draws + n } }

-- a single write through `s.record`
abbrev pub logged : World → ℕ → String → String → String → Service → Service
logged w now user action resource s = record s {
  wire = record_audit w now user action resource s.wire;
}

unfoldable pub mark_used : RefreshToken → RefreshToken
mark_used t = record t { used = true }

unfoldable pub bump_version : Account → Account
bump_version a = record a { version = next_u64 a.version }

-- the loop of `invalidate` over the peers; true where a peer's device is not registered, on which
-- the handler panics
unfoldable pub close_owned : Dict Device → String → Dict Peer → Wire → Wire × Bool
close_owned devices user [] s = (s, false)
close_owned devices user ((id, p) ∷ rest) s = elim (lookup id devices) [
  | none ↦ (s, true)
  | some d ↦ close_owned devices user rest (
      if d.owner_id == user && present p.socket
      then record s { closing = s.closing ++ (p.socket, "account access revoked") ∷ [] }
      else s)
]

-- `hashPassword(raw)`, at the given read of the random source
unfoldable pub hash_password : World → ℕ → String → Password
hash_password w draws raw =
    let salt = w.random draws 16 in record { salt = salt; hash = w.argon2 raw salt }

unfoldable pub matches : World → Password → String → Bool
matches w p raw = w.bytes_equal (w.argon2 raw p.salt) p.hash

module _ (w : World) (now : ℕ) where
  -- `issue` for a given family: the refresh token is stored, and the access token is signed;
  -- `none` where the account is missing, on which `signAccess` panics
  unfoldable pub issue_in : String → String → Service → Service × Option Tokens
  issue_in user family s =
      let raw = random_id w s.wire.draws 32 in
      (
        record (drawn 1 s) {
          refresh =
              insert (w.sha256_hex raw)
                (record {
                  user_id = user;
                  family = family;
                  expires = now + 7 * 24 * hour;
                  used = false;
                })
                s.refresh;
        },
        elim (lookup user s.accounts) [
          | none ↦ none
          | some a ↦ some (record {
            access_token = sign w.crypto s.key user a.version now;
            refresh_token = raw;
            expires_in = 600;
            token_type = "Bearer";
          })
        ],
      )

  -- `issue(user, family)`
  unfoldable pub issue : String → String → Service → Service × Option Tokens
  issue user family s =
      if family == ""
      then issue_in user (random_id w s.wire.draws 24) (drawn 1 s)
      else issue_in user family s

  -- the reply with the tokens
  abbrev pub reply_tokens : ℕ → Service × Option Tokens → Service × Reply
  reply_tokens status (s, none) = (s, crashed)
  reply_tokens status (s, some t) = (s, sent status (Body.issued t))

  -- `invalidate(user)` where the account exists
  unfoldable pub invalidate_known : String → Service → Service × Bool
  invalidate_known user s =
      let cut =
        end_where w now (λ v. visible s v user && is_open v.state) closed user
          (record s {
            accounts = adjust bump_version user s.accounts;
            refresh = map_values (λ t. if t.user_id == user then mark_used t else t) s.refresh;
          }) in
      let (x, lost) = close_owned s.devices user s.wire.peers cut.wire in
      (record cut { wire = x }, lost)

  -- `invalidate(user)`; true where it panics
  unfoldable pub invalidate : String → Service → Service × Bool
  invalidate user s = elim (lookup user s.accounts) [
    | none ↦ (s, true)
    | some a ↦ invalidate_known user s
  ]
