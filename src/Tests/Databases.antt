-- ===== src/Tests/Databases.antt =====
-- The theorems on the database, on Redis and on the start of the server, applied at concrete clients.
use multi_desk.Base.{
  Bool, ℕ, zero, suc, ◌+◌, ◌*◌, String, Option, none, some, List, [], ◌∷◌, true, false, ◌≡◌, refl,
  sym, ap, inr, arith, ◌==◌, if◌then◌else◌,
}
use multi_desk.Base.Int.{ℤ}
use multi_desk.Security.{second}
use multi_desk.Dict.{Dict, insert, retain, count_values}
use multi_desk.Store.Types.{Error, Result, ok}
use multi_desk.Store.Postgres.Database.{Database, affected, missed, unread, no_rows}
use multi_desk.Store.Postgres.Base64.{public_key_bytes, to_base64}
use multi_desk.Store.Postgres.Base64.RoundTrip.{public_key_bytes-to_base64}
use multi_desk.Store.Postgres.Transactions.{with_tx}
use multi_desk.Store.Postgres.Transactions.Laws.{IsTransactional, IsSettled, with_tx-IsSettled}
use multi_desk.Store.Redis.{Client}
use multi_desk.Store.Redis.Limiter.{
  RateLimitResult, unix_milli, window_start, judged, verdict, pipeline, check_sliding_rate_limit,
}
use multi_desk.Store.Redis.Limiter.Laws.{effects, KeepsSortedSets, check_sliding_rate_limit-burst}
use multi_desk.Start.{
  Outside, serves, start, Running, in_memory, with_key, serve_with_key, new_with_store, configured,
  ice_urls, trimmed, split_commas, serve, listen_address, opens_redis,
}
use multi_desk.Base.Text.{trim_space}
use multi_desk.Platform.Ice.{configure_ice, ice_error, is_ice_url, has_forbidden, is_relay}
use multi_desk.Start.Laws.{IsStarted, start-IsStarted}
use multi_desk.Platform.Step.{init}

-- A number that is committed, the number that an open transaction works on, how many commits fail, and
-- whether a transaction is open.
pub record Counter : Type 0 where
  pub committed : ℕ
  pub working : ℕ
  pub failures : ℕ
  pub busy : Bool

-- A commit with so many that still fail; a commit that fails leaves the transaction open.
abbrev commit_at : ℕ → Counter → Counter × Option String
commit_at zero d = (record d { committed = d.working; busy = false }, none)
commit_at (suc n) d = (record d { failures = n }, some "serialization failure")

abbrev counting : Database Counter
counting = record {
  exec = λ sql args d. (d, affected 0);
  query_row = λ sql args d. missed no_rows;
  query = λ sql args d. unread no_rows;
  begin = λ d. (record d { working = d.committed; busy = true }, none);
  commit = λ d. commit_at d.failures d;
  rollback = λ d. record d { working = d.committed; busy = false };
}

-- Outside of a transaction the increment is committed at once.
abbrev increment : Counter → Counter × Option Error
increment d =
    if d.busy
    then (record d { working = d.working + 1 }, none)
    else (record d { committed = d.committed + 1 }, none)

commit_at-busy : (n : ℕ) (d : Counter) → (commit_at n d).1 ≡ none → (commit_at n d).0.busy ≡ false
commit_at-busy zero d h = refl
commit_at-busy (suc n) d h = cc

counting-IsTransactional : IsTransactional counting (λ d. d.committed) (λ d. d.busy) increment
counting-IsTransactional = record {
  begins = λ d. refl;
  opens = λ d h. refl;
  stays_out = λ d e h out. cc;
  runs = λ d busy. rw busy refl;
  rolls_back = λ d. refl;
  drops = λ d. refl;
  commits = λ d h. commit_at-busy d.failures d h;
}

abbrev five : Counter
five = record { committed = 5; working = 0; failures = 1; busy = false }

with_tx-IsSettled_example :
    IsSettled counting
      (λ d. d.committed)
      (λ d. d.busy)
      increment
      3
      five
      (with_tx counting increment five)
with_tx-IsSettled_example =
    with_tx-IsSettled counting (λ d. d.committed) (λ d. d.busy) increment counting-IsTransactional
      five refl

abbrev key : List ℕ
key =
    1 ∷ 2 ∷ 3 ∷ 4 ∷ 5 ∷ 6 ∷ 7 ∷ 8 ∷ 250 ∷ 251 ∷ 252 ∷ 253 ∷ 254 ∷ 255 ∷ 0 ∷ 16 ∷ 17 ∷ 18 ∷ 19 ∷ 20
    ∷ 21 ∷ 22 ∷ 23 ∷ 24 ∷ 25 ∷ 26 ∷ 27 ∷ 28 ∷ 29 ∷ 30 ∷ 31 ∷ 32 ∷ []

public_key_bytes-to_base64_example : public_key_bytes (to_base64 key) ≡ some key
public_key_bytes-to_base64_example = public_key_bytes-to_base64 key refl refl

-- One sorted set under every key, and pipelines that never fail.
abbrev redis : Client (Dict ℤ)
redis = record {
  ping = λ d. none;
  set = λ key value ttl d. (d, none);
  exists_count = λ key d. inr 0;
  exec = λ cs d. ((effects cs d).0, some (effects cs d).1);
  publish = λ channel payload d. (d, none);
  close = λ d. (d, none);
}

redis-KeepsSortedSets : KeepsSortedSets redis (λ key d. d)
redis-KeepsSortedSets key cs d answers fits h =
    ap (λ a. ((effects cs d).0, a)) (sym (answers_of _ answers h))
  where
    answers_of : (a c : List ℕ) → some a ≡ some c → a ≡ c
    answers_of a c h = cc

-- 62135596805000 milliseconds after the zero time
abbrev five_seconds : ℕ
five_seconds = 62135596805000 * 1000000

abbrev numeral : ℤ → String
numeral n = "5000"

abbrev check : ℕ → Dict ℤ → Dict ℤ × Result RateLimitResult
check now d = check_sliding_rate_limit redis numeral now "host" 3 10 d

abbrev left : ℕ → ℕ → RateLimitResult
left now n = record { allowed = true; remaining = n; reset_at = now + 10 * second }

-- two more instants of the same millisecond
abbrev soon : ℕ
soon = five_seconds + 1000

abbrev later : ℕ
later = five_seconds + 999999

check_first : (check five_seconds []).1 ≡ ok (left five_seconds 2)
unfolding check_sliding_rate_limit judged verdict pipeline retain count_values
check_first = refl

check_second : (check soon (check five_seconds []).0).1 ≡ ok (left soon 1)
unfolding check_sliding_rate_limit judged verdict pipeline retain count_values insert unix_milli
    window_start
check_second = refl

check_third : (check later (check soon (check five_seconds []).0).0).1 ≡ ok (left later 1)
unfolding check_sliding_rate_limit judged verdict pipeline retain count_values insert unix_milli
    window_start
check_third = refl

check_sliding_rate_limit-burst_example :
    ((left soon 1).allowed ≡ (left later 1).allowed)
    × ((left soon 1).remaining ≡ (left later 1).remaining)
check_sliding_rate_limit-burst_example =
    check_sliding_rate_limit-burst redis (λ key d. d) redis-KeepsSortedSets numeral five_seconds
      soon later "host" 3 10 [] (left five_seconds 2) (left soon 1) (left later 1) (omega arith)
      refl refl check_first check_second check_third

-- an environment with a signing key, and a STUN server behind a blank
abbrev variable : String → String
variable name =
    if name == "MUILTDESK_JWT_KEY"
    then "key"
    else if name == "MUILTDESK_ICE_URLS"
    then "stun:one, stun:two"
    else ""

abbrev outside : Outside
outside = record {
  getenv = variable;
  std_decode = λ s. some key;
  read_random = λ n. none;
  new_postgres_store = λ url. none;
  parse_redis_url = λ url. none;
  new_redis_store = λ url. none;
  split_host_port = λ address. some "0.0.0.0";
  is_loopback = λ host. false;
}

abbrev running : Running
running = record {
  address = "0.0.0.0:8080";
  base = in_memory;
  with_redis = false;
  service = record (init key) { ice_urls = "stun:one" ∷ "stun:two" ∷ []; turn_secret = "" };
  warned = true;
  tls = none;
}

outside-starts : start outside ≡ serves running
unfolding start with_key serve_with_key new_with_store configured ice_urls trimmed split_commas
    trim_space configure_ice ice_error is_ice_url has_forbidden is_relay serve listen_address
    opens_redis
outside-starts = refl

start-IsStarted_example : IsStarted outside running
start-IsStarted_example = start-IsStarted outside running outside-starts
