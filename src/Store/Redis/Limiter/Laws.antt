-- ===== src/Store/Redis/Limiter/Laws.antt =====
-- What the sliding rate limit decides, given that Redis keeps sorted sets as it documents them.
use Prim.Native.String.{◌++◌}
use multi_desk.Base.{
  ℕ, suc, ◌+◌, ◌*◌, ◌<◌, String, Option, none, some, List, [], ◌∷◌, Bool, true, false, ◌==◌, ◌≡◌,
  refl, sym, ap, ◌∙◌, ◌↔◌, arith, eq_refl, num_eq, length, all, if◌then◌else◌,
}
use multi_desk.Base.Int.{ℤ, sub_ℕ, ltb_ℤ, leb_ℤ}
use multi_desk.Dict.{Dict, lookup, insert, retain, count_values}
use multi_desk.Dict.Retained.{
  all_values-retain, all_values-insert, retain-all, count_values-retain, insert-insert,
}
use multi_desk.Platform.Session.{present}
use multi_desk.Store.Types.{Result, ok, ok-injective}
use multi_desk.Store.Redis.{
  Client, Command, z_rem_range_by_score, z_count, z_add, expire, rate_limit_prefix,
}
use multi_desk.Store.Redis.Limiter.{
  RateLimitResult, millis, second_answer, unix_milli, window_start, verdict, judged, pipeline,
  check_sliding_rate_limit,
}

-- A sorted set gives each member its score. What the commands of a pipeline do to it and answer:
-- https://redis.io/docs says so of ZREMRANGEBYSCORE, ZCOUNT, ZADD and EXPIRE.
abbrev pub effects : List Command → Dict ℤ → Dict ℤ × List ℕ
effects [] d = (d, [])
effects (z_rem_range_by_score key to ∷ cs) d =
    let (e, answers) = effects cs (retain (λ x. ltb_ℤ to x) d) in
    (e, count_values (λ x. leb_ℤ x to) d ∷ answers)
effects (z_count key from ∷ cs) d =
    let (e, answers) = effects cs d in (e, count_values (λ x. leb_ℤ from x) d ∷ answers)
effects (z_add key score member ∷ cs) d =
    let (e, answers) = effects cs (insert member score d) in
    (e, (if present (lookup member d) then 0 else 1) ∷ answers)
effects (expire key ttl ∷ cs) d =
    let (e, answers) = effects cs (if num_eq ttl 0 then [] else d) in
    (e, (if num_eq (length d) 0 then 0 else 1) ∷ answers)

abbrev key_of : Command → String
key_of (z_rem_range_by_score key to) = key
key_of (z_count key from) = key
key_of (z_add key score member) = key
key_of (expire key ttl) = key

-- Where the first argument shows the sorted set under each key, a pipeline of commands for one key
-- that gives no error has their effect on it, and answers what they answer.
abbrev pub KeepsSortedSets : {R : Type 0} → Client R → (String → R → Dict ℤ) → Type 0
KeepsSortedSets {R} c set =
    (key : String) (cs : List Command) (r : R) (answers : List ℕ)
    → all (λ x. key_of x == key) cs ≡ true
    → (c.exec cs r).1 ≡ some answers
    → (set key (c.exec cs r).0, answers) ≡ effects cs (set key r)

-- what a pipeline leaves of the set, and the number of entries in the window before it
abbrev pub slid : (ℤ → String) → ℕ → ℕ → Dict ℤ → Dict ℤ
slid format_int now window_sec d =
    insert (format_int (unix_milli now)) (unix_milli now)
      (retain (λ x. ltb_ℤ (window_start now window_sec) x) d)

abbrev pub in_window : ℕ → ℕ → Dict ℤ → ℕ
in_window now window_sec d = count_values (λ x. ltb_ℤ (window_start now window_sec) x) d

-- Of a decision: it is right for the number of entries in the window.
pub record IsDecided (limit n : ℕ) (x : RateLimitResult) : Type 0 where
  pub allowed : (x.allowed ≡ true) ↔ (n < limit)
  pub remaining : x.allowed ≡ true → x.remaining + suc n ≡ limit
  pub exhausted : x.allowed ≡ false → x.remaining ≡ 0

judged-ok :
    (now limit window_sec : ℕ) (answers : Option (List ℕ)) (x : RateLimitResult)
    → judged now limit window_sec answers ≡ ok x
    → (given : List ℕ) × (answers ≡ some given)
      × (verdict now limit window_sec (second_answer given) ≡ x)
unfolding judged
judged-ok now limit window_sec none x h = cc
judged-ok now limit window_sec (some given) x h = (given, refl, ok-injective _ x h)

-- A decision reads the count, and what a pipeline does reads the millisecond.
verdict-allowed :
    (u v limit window_sec m n : ℕ)
    → m ≡ n
    → (verdict u limit window_sec m).allowed ≡ (verdict v limit window_sec n).allowed
unfolding verdict
verdict-allowed u v limit window_sec m n h = rw h (ground arith)

verdict-remaining :
    (u v limit window_sec m n : ℕ)
    → m ≡ n
    → (verdict u limit window_sec m).remaining ≡ (verdict v limit window_sec n).remaining
unfolding verdict
verdict-remaining u v limit window_sec m n h = rw h (ground arith)

slid-millis :
    (format_int : ℤ → String) (u v window_sec : ℕ) (d : Dict ℤ)
    → millis u ≡ millis v
    → slid format_int u window_sec d ≡ slid format_int v window_sec d
unfolding unix_milli window_start
slid-millis format_int u v window_sec d h =
    ap
      (λ m.
        insert (format_int (sub_ℕ m 62135596800000)) (sub_ℕ m 62135596800000)
          (retain (λ x. ltb_ℤ (sub_ℕ m (62135596800000 + window_sec * 1000)) x) d))
      h

in_window-millis :
    (u v window_sec : ℕ) (d : Dict ℤ)
    → millis u ≡ millis v
    → in_window u window_sec d ≡ in_window v window_sec d
unfolding window_start
in_window-millis u v window_sec d h =
    ap (λ m. count_values (λ x. ltb_ℤ (sub_ℕ m (62135596800000 + window_sec * 1000)) x) d) h

in_window-now :
    (now window_sec : ℕ)
    → 0 < window_sec
    → ltb_ℤ (window_start now window_sec) (unix_milli now) ≡ true
unfolding window_start unix_milli
in_window-now now window_sec wide = ground arith

-- In one millisecond a second pipeline leaves what the first did.
slid-slid :
    (format_int : ℤ → String) (now window_sec : ℕ) (d : Dict ℤ)
    → 0 < window_sec
    → slid format_int now window_sec (slid format_int now window_sec d)
      ≡ slid format_int now window_sec d
slid-slid format_int now window_sec d wide =
    let p : ℤ → Bool = λ x. ltb_ℤ (window_start now window_sec) x in
    let member = format_int (unix_milli now) in
    let kept = retain p d in
    ap (insert member (unix_milli now)) (
      retain-all p (insert member (unix_milli now) kept) (
        all_values-insert p member (unix_milli now) kept (in_window-now now window_sec wide)
          (all_values-retain p d)))
    ∙ insert-insert member (unix_milli now) kept

-- the two halves of what the pipeline does to a set
module _ {R : Type 0} (c : Client R) (format_int : ℤ → String) where
  pipeline_set :
      (now : ℕ) (key : String) (window_sec : ℕ) (d : Dict ℤ)
      → 0 < window_sec
      → (effects (pipeline c format_int now key window_sec) d).0 ≡ slid format_int now window_sec d
  unfolding pipeline
  pipeline_set now key window_sec d wide = ground arith

  pipeline_count :
      (now : ℕ) (key : String) (window_sec : ℕ) (d : Dict ℤ)
      → second_answer (effects (pipeline c format_int now key window_sec) d).1
        ≡ in_window now window_sec d
  unfolding pipeline
  pipeline_count now key window_sec d =
      count_values-retain (λ x. ltb_ℤ (window_start now window_sec) x)
        (λ x. leb_ℤ (window_start now window_sec) x) d (λ v h. ground arith)

module _ {R : Type 0} (c : Client R) (set : String → R → Dict ℤ) (sorted : KeepsSortedSets c set)
    (format_int : ℤ → String) where
  exec_pipeline :
      (now : ℕ) (key : String) (window_sec : ℕ) (r : R) (answers : List ℕ)
      → 0 < window_sec
      → (c.exec (pipeline c format_int now key window_sec) r).1 ≡ some answers
      → (set (rate_limit_prefix ++ key) (c.exec (pipeline c format_int now key window_sec) r).0
          ≡ slid format_int now window_sec (set (rate_limit_prefix ++ key) r))
        × (second_answer answers ≡ in_window now window_sec (set (rate_limit_prefix ++ key) r))
  unfolding pipeline
  exec_pipeline now key window_sec r answers wide h =
      let rkey : String = rate_limit_prefix ++ key in
      let d = set rkey r in
      let e = sorted rkey (pipeline c format_int now key window_sec) r answers (simp eq_refl) h in
      (
        ap (λ x. x.0) e ∙ pipeline_set c format_int now key window_sec d wide,
        ap (λ x. second_answer x.1) e ∙ pipeline_count c format_int now key window_sec d,
      )

  abbrev check : ℕ → String → ℕ → ℕ → R → R × Result RateLimitResult
  check now key limit window_sec r =
      check_sliding_rate_limit c format_int now key limit window_sec r

  -- With a client that keeps sorted sets, and for a window of at least a second: when a check under a
  -- key has given no error, a second and a third in the same millisecond that give none either decide
  -- alike, with as many left, so after the second request no other of that millisecond counts.
  pub check_sliding_rate_limit-burst :
      (now soon later : ℕ) (key : String) (limit window_sec : ℕ) (r : R) (x y z : RateLimitResult)
      → 0 < window_sec
      → millis soon ≡ millis now
      → millis later ≡ millis now
      → (check now key limit window_sec r).1 ≡ ok x
      → (check soon key limit window_sec (check now key limit window_sec r).0).1 ≡ ok y
      → (check later key limit window_sec
          (check soon key limit window_sec (check now key limit window_sec r).0).0).1
        ≡ ok z
      → (y.allowed ≡ z.allowed) × (y.remaining ≡ z.remaining)
  unfolding check_sliding_rate_limit
  check_sliding_rate_limit-burst now soon later key limit window_sec r x y z wide es el h k l =
      let after = check now key limit window_sec r in
      let (a, answered_a, ea) = judged-ok now limit window_sec _ x h in
      let (b, answered_b, eb) = judged-ok soon limit window_sec _ y k in
      let (d, answered_d, ed) = judged-ok later limit window_sec _ z l in
      let one = exec_pipeline now key window_sec r a wide answered_a in
      let two = exec_pipeline soon key window_sec after.0 b wide answered_b in
      let three =
        exec_pipeline later key window_sec (check soon key limit window_sec after.0).0 d wide
          answered_d in
      let same =
        two.0
        ∙ ap (slid format_int soon window_sec) one.0
        ∙ slid-millis format_int soon now window_sec _ es
        ∙ slid-slid format_int now window_sec (set (rate_limit_prefix ++ key) r) wide
        ∙ sym one.0 in
      let count =
        two.1
        ∙ in_window-millis soon later window_sec _ (es ∙ sym el)
        ∙ ap (in_window later window_sec) (sym same)
        ∙ sym three.1 in
      (
        ap (λ (v : RateLimitResult). v.allowed) (sym eb)
            ∙ verdict-allowed soon later limit window_sec _ _ count
            ∙ ap (λ (v : RateLimitResult). v.allowed) ed,
        ap (λ (v : RateLimitResult). v.remaining) (sym eb)
            ∙ verdict-remaining soon later limit window_sec _ _ count
            ∙ ap (λ (v : RateLimitResult). v.remaining) ed,
      )
