-- ===== src/Store/Redis/Limiter.antt =====
-- `CheckSlidingRateLimit` of server/internal/store/redis.go.
pub mod Laws
use Prim.Native.String.{◌++◌}
use multi_desk.Base.{
  ℕ, ◌+◌, ◌-◌, ◌*◌, ◌/◌, String, Option, none, some, List, [], ◌∷◌, Bool, true, false, leb,
  if◌then◌else◌,
}
use multi_desk.Base.Int.{ℤ, sub_ℕ}
use multi_desk.Security.{second}
use multi_desk.Store.Types.{other, Result, ok, err}
use multi_desk.Store.Redis.{
  Client, Command, z_rem_range_by_score, z_count, z_add, expire, rate_limit_prefix,
}

pub record RateLimitResult : Type 0 where
  pub allowed : Bool
  pub remaining : ℕ
  pub reset_at : ℕ

-- whole milliseconds since Go's zero time
abbrev pub millis : ℕ → ℕ
millis now = now / 1000000

-- `now.UnixMilli()`: 1970 is 62135596800000 milliseconds after the zero time.
unfoldable pub unix_milli : ℕ → ℤ
unix_milli now = sub_ℕ (millis now) 62135596800000

-- `nowMS - windowSec*1000`
unfoldable pub window_start : ℕ → ℕ → ℤ
window_start now window_sec = sub_ℕ (millis now) (62135596800000 + window_sec * 1000)

-- `countCmd.Val()`: what the second command of the pipeline answered, zero where it did not
abbrev pub second_answer : List ℕ → ℕ
second_answer (a ∷ b ∷ rest) = b
second_answer _ = 0

-- the decision on a count of requests
unfoldable pub verdict : ℕ → ℕ → ℕ → ℕ → RateLimitResult
verdict now limit window_sec count =
    if leb limit count
    then record { allowed = false; remaining = 0; reset_at = now + window_sec * second }
    else record {
      allowed = true;
      remaining = limit - count - 1;
      reset_at = now + window_sec * second;
    }

-- what the function returns behind the pipeline, whose error is `none`
unfoldable pub judged : ℕ → ℕ → ℕ → Option (List ℕ) → Result RateLimitResult
judged now limit window_sec none = err (other "store/redis: rate limit pipeline")
judged now limit window_sec (some answers) =
    ok (verdict now limit window_sec (second_answer answers))

module _ {R : Type 0} (c : Client R) (format_int : ℤ → String) where
  unfoldable pub pipeline : ℕ → String → ℕ → List Command
  pipeline now key window_sec =
      let rkey : String = rate_limit_prefix ++ key in
      z_rem_range_by_score rkey (window_start now window_sec)
      ∷ z_count rkey (window_start now window_sec)
      ∷ z_add rkey (unix_milli now) (format_int (unix_milli now))
      ∷ expire rkey (window_sec * second * 2)
      ∷ []

  unfoldable pub check_sliding_rate_limit : ℕ → String → ℕ → ℕ → R → R × Result RateLimitResult
  check_sliding_rate_limit now key limit window_sec r =
      let (after, answers) = c.exec (pipeline now key window_sec) r in
      (after, judged now limit window_sec answers)
