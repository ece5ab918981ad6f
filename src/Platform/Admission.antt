-- ===== src/Platform/Admission.antt =====
-- What server/internal/platform/service.go does before every handler: `expire`, and the rate limit
-- of the function that `Handler` returns.
pub mod Preserved
pub mod Laws
use Prim.Native.String.{◌++◌}
use text.Mathlib.Text.{starts_with}
use multi_desk.Base.{
  ℕ, ◌+◌, String, Option, none, some, Bool, true, false, not, ◌&&◌, ltb, if◌then◌else◌,
}
use multi_desk.Dict.{Dict, lookup, insert, retain}
use multi_desk.Security.{minute}
use multi_desk.Platform.World.{World}
use multi_desk.Platform.State.{Service, Session, expired, Rate, Reply, failed}
use multi_desk.Platform.Session.{is_open, end_where}

-- the test of the first loop of `expire`
unfoldable pub is_overdue : ℕ → Session → Bool
is_overdue now v = is_open v.state && not (ltb now v.expires)

unfoldable pub expire : World → ℕ → Service → Service
expire w now s =
    let t = end_where w now (is_overdue now) expired "system" s in
    record t {
      challenges = retain (λ c. ltb now c.expires) t.challenges;
      rates = retain (λ r. ltb now r.until) t.rates;
      refresh = retain (λ r. ltb now r.expires) t.refresh;
    }

-- key and limit of a request from a host to a path
unfoldable pub rate_key : String → String → String
rate_key host path = if starts_with path "/v1/auth/" then host ++ "/auth" else host

unfoldable pub rate_limit : String → ℕ
rate_limit path = if starts_with path "/v1/auth/" then 15 else 300

-- `v := s.rates[key]`, started anew where its window has ended, and counted up
unfoldable pub counted : ℕ → Option Rate → Rate
counted now none = record { count = 1; until = now + minute }
counted now (some v) =
    if ltb now v.until
    then record v { count = v.count + 1 }
    else record { count = 1; until = now + minute }

-- The count of the request, and whether it goes on to its handler or gets the status 429.
unfoldable pub admit : World → ℕ → String → String → Service → Service × Bool
admit w now host path s =
    let t = expire w now s in
    let v = counted now (lookup (rate_key host path) t.rates) in
    (
      record t { rates = insert (rate_key host path) v t.rates },
      not (ltb (rate_limit path) v.count),
    )
