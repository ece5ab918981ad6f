-- ===== src/Platform/Ice.antt =====
-- server/internal/platform/ice.go: `ConfigureICE` and `iceConfiguration`.
pub mod Laws
use Prim.Native.String.{len}
use Prim.Native.Char.{code}
use text.Mathlib.Text.{starts_with, find?}
use multi_desk.Base.{
  ℕ, ◌+◌, ◌*◌, String, Option, none, some, List, [], ◌∷◌, Bool, true, false, not, ◌&&◌, ◌||◌, ltb,
  num_eq, if◌then◌else◌,
}
use multi_desk.Dict.{lookup}
use multi_desk.Security.{minute, turn_credential}
use multi_desk.Platform.World.{World}
use multi_desk.Platform.State.{Session, Service, Reply, failed, sent, Body}
use multi_desk.Platform.Session.{is_active, visible, present}

-- `strings.ContainsAny(url, " \n\r@")`
unfoldable pub has_forbidden : String → Bool
has_forbidden String.[] = false
has_forbidden (String.◌∷◌ c s) =
    num_eq (code c) 0x20
    || num_eq (code c) 0x0A
    || num_eq (code c) 0x0D
    || num_eq (code c) 0x40
    || has_forbidden s

unfoldable pub is_relay : String → Bool
is_relay url = starts_with url "turn:" || starts_with url "turns:"

unfoldable pub is_ice_url : String → Bool
is_ice_url url =
    (starts_with url "stun:" || starts_with url "stuns:" || is_relay url) && not (has_forbidden url)

-- `len(secret) < 32 || strings.Contains(secret, "REPLACE")`
unfoldable pub is_weak : String → Bool
unfolding present
is_weak secret = ltb (len secret) 32 || present (find? secret "REPLACE")

unfoldable pub ice_error : List String → String → Option String
ice_error [] secret = none
ice_error (url ∷ urls) secret =
    if not (is_ice_url url)
    then some "invalid STUN/TURN URL"
    else if is_relay url && is_weak secret
    then some "TURN requires a random shared secret of at least 32 bytes"
    else ice_error urls secret

-- `ConfigureICE(urls, secret)`; the error is `none` where Go returns nil
unfoldable pub configure_ice : List String → String → Service → Service × Option String
configure_ice urls secret s = elim (ice_error urls secret) [
  | some e ↦ (s, some e)
  | none ↦ (record s { ice_urls = urls; turn_secret = secret }, none)
]

-- one server of the answer, with user name and password for a relay only
unfoldable pub ice_entries :
    String × String → List String → List (String × Option (String × String))
ice_entries credential [] = []
ice_entries credential (url ∷ urls) =
    (url, if is_relay url then some credential else none) ∷ ice_entries credential urls

-- the end of the credential: ten minutes, or the end of the session
unfoldable pub credential_end : ℕ → Session → ℕ
credential_end now v = if ltb v.expires (now + 10 * minute) then v.expires else now + 10 * minute

module _ (w : World) (now : ℕ) where
  unfoldable pub ice_for : String → Session → Service → Reply
  ice_for user v s =
      if not (is_active v.state) || not (ltb now v.expires)
      then failed 403 "an active approved session is required"
      else elim s.ice_urls [
        | [] ↦ failed 503 "STUN/TURN endpoints are not configured"
        | url ∷ urls ↦ sent 200 (
            Body.ice
              (ice_entries (turn_credential w.crypto s.turn_secret user (credential_end now v))
                s.ice_urls)
              (credential_end now v))
      ]

  unfoldable pub ice_configuration : String → String → Service → Service × Reply
  ice_configuration user id s = elim (lookup id s.sessions) [
    | none ↦ (s, failed 404 "session not found")
    | some v ↦
        if not (visible s v user)
        then (s, failed 404 "session not found")
        else (s, ice_for user v s)
  ]
