-- ===== src/Store/Redis.antt =====
-- `RedisStore` of server/internal/store/redis.go: presence, the sliding rate limit and the channel of
-- session updates over a Redis client, which is a parameter.
pub mod Limiter
pub mod Decorated
use Prim.Native.String.{◌++◌}
use multi_desk.Base.{ℕ, ◌*◌, String, Option, none, some, List, [], ◌∷◌, Bool, ltb, ◌⊎◌, inl, inr}
use multi_desk.Base.Int.{ℤ}
use multi_desk.Security.{second}
use multi_desk.Store.Types.{Error, other, Result, ok, err}

abbrev pub presence_prefix : String
presence_prefix = "device:online:"

abbrev session_updated_chan : String
session_updated_chan = "session.updated"

abbrev pub rate_limit_prefix : String
rate_limit_prefix = "ratelimit:"

-- The commands of a pipeline. Where Go writes a number as text for Redis to read, the number stands.
pub data Command : Type 0 where
  -- `ZRemRangeByScore(key, "-inf", to)`
  z_rem_range_by_score : (key : String) → (to : ℤ) → Command
  -- `ZCount(key, from, "+inf")`
  z_count : (key : String) → (from : ℤ) → Command
  z_add : (key : String) → (score : ℤ) → (member : String) → Command
  expire : (key : String) → (ttl : ℕ) → Command

-- The calls that the code makes of `redis.Client`, each with the error that it may give. The numbers
-- that a pipeline answers are those of its commands in their order.
pub record Client (R : Type 0) : Type 0 where
  pub ping : R → Option String
  pub set : String → String → ℕ → R → R × Option String
  pub exists_count : String → R → String ⊎ ℕ
  pub exec : List Command → R → R × Option (List ℕ)
  pub publish : String → List ℕ → R → R × Option String
  pub close : R → R × Option String

-- what the subscription's loop meets in its select
pub data Arrival : Type 0 where
  done : Arrival
  closed : Arrival
  message : List ℕ → Arrival

-- The loop of `SubscribeSessionUpdated` over what arrives. A handler that panics, which is `true`, is
-- recovered from, and the loop goes on.
unfoldable pub subscribe_session_updated :
    {H : Type 0} → (List ℕ → H → H × Bool) → List Arrival → H → H
subscribe_session_updated handler [] h = h
subscribe_session_updated handler (done ∷ rest) h = h
subscribe_session_updated handler (closed ∷ rest) h = h
subscribe_session_updated handler (message payload ∷ rest) h =
    subscribe_session_updated handler rest (handler payload h).0

module _ {R : Type 0} (c : Client R) where
  -- what `NewRedisStore` returns besides the store
  unfoldable pub new_redis_store : R → Option Error
  new_redis_store r = elim (c.ping r) [
    | none ↦ none
    | some e ↦ some (other ("store/redis: ping: " ++ e))
  ]

  unfoldable pub set_online : String → ℕ → R → R × Option String
  set_online device_id ttl r = c.set (presence_prefix ++ device_id) "1" ttl r

  unfoldable pub is_online : String → R → Result Bool
  is_online device_id r = elim (c.exists_count (presence_prefix ++ device_id) r) [
    | inl e ↦ err (other ("store/redis: is_online: " ++ e))
    | inr n ↦ ok (ltb 0 n)
  ]

  unfoldable pub publish_session_updated : List ℕ → R → R × Option String
  publish_session_updated payload r = c.publish session_updated_chan payload r
