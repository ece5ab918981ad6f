-- ===== src/Platform/Moves/Limit.antt =====
-- The limits of `requestSession` of server/internal/platform/service.go, over all events.
use multi_desk.Base.{
  ◌≤◌, ◌<◌, String, some, Bool, true, false, ◌&&◌, ◌==◌, ◌≡◌, refl, sym, arith, eq_iff, eq_refl,
  if◌then◌else◌, Bool-cases, inl, inr,
}
use multi_desk.Dict.{Dict, lookup, insert, adjust, map_values, any_value, count_values}
use multi_desk.Dict.Laws.{lookup-map_values}
use multi_desk.Dict.Counts.{
  count_values-any, count_values-insert, count_values-insert_other, count_values-insert_over,
  count_values-map_values, count_values-adjust,
}
use multi_desk.Platform.State.{Session, SessionState}
use multi_desk.Platform.Session.{is_open, ended}
use multi_desk.Platform.Session.Handlers.{
  is_open_of, activated, regranted, in_command, is_rival, disarmed,
}
use multi_desk.Platform.Moves.{
  Board, Move, Moves, here, next, ends, ends_one, starts, activates, regrants, commands, registers,
  renames, revokes,
}

-- a session of the operator with the target that is pending or active
abbrev pub is_open_with : String → String → Session → Bool
is_open_with user target v = is_open_of user v && v.target_id == target

-- No operator has more than ten open sessions, nor two with one target.
pub record IsLimited (m : Dict Session) : Type 0 where
  pub ten : (user : String) → count_values (is_open_of user) m ≤ 10
  pub single : (user target : String) → count_values (is_open_with user target) m ≤ 1

-- Of a change of a session: it opens none for any operator and target.
abbrev OpensNone : (Session → Session) → Type 0
OpensNone f =
    ((user : String) (v : Session) → is_open_of user (f v) ≡ true → is_open_of user v ≡ true)
    × ((user target : String) (v : Session)
        → is_open_with user target (f v) ≡ true
        → is_open_with user target v ≡ true)

over-OpensNone :
    (test : Session → Bool) (state : SessionState)
    → is_open state ≡ false
    → OpensNone (λ v. if test v then ended state v else v)
unfolding ended is_open_of
over-OpensNone test state over = ((λ user v h. ground arith), (λ user target v h. ground arith))

ended-OpensNone : (state : SessionState) → is_open state ≡ false → OpensNone (ended state)
unfolding ended is_open_of
ended-OpensNone state over = ((λ user v h. ground arith), (λ user target v h. ground arith))

disarmed-OpensNone : (v : Session) → OpensNone (λ u. if is_rival v u then disarmed u else u)
unfolding disarmed is_open_of
disarmed-OpensNone v = ((λ user v h. ground arith), (λ user target v h. ground arith))

map_values-IsLimited :
    (f : Session → Session) (m : Dict Session)
    → OpensNone f
    → IsLimited m
    → IsLimited (map_values f m)
map_values-IsLimited f m (one, two) l = record {
  ten = λ user. omega (arith, l.ten user, count_values-map_values (is_open_of user) f (one user) m);
  single = λ user target. omega (
    arith,
    l.single user target,
    count_values-map_values (is_open_with user target) f (two user target) m,
  );
}

adjust-IsLimited :
    (f : Session → Session) (id : String) (m : Dict Session)
    → OpensNone f
    → IsLimited m
    → IsLimited (adjust f id m)
adjust-IsLimited f id m (one, two) l = record {
  ten = λ user. omega (arith, l.ten user, count_values-adjust (is_open_of user) f (one user) id m);
  single = λ user target. omega (
    arith,
    l.single user target,
    count_values-adjust (is_open_with user target) f (two user target) id m,
  );
}

-- A session takes the place of an open one of the same parties.
replaced_IsLimited :
    (id : String) (u v : Session) (m : Dict Session)
    → lookup id m ≡ some v
    → is_open v.state ≡ true
    → u.operator_id ≡ v.operator_id
    → u.target_id ≡ v.target_id
    → IsLimited m
    → IsLimited (insert id u m)
unfolding is_open_of
replaced_IsLimited id u v m found open_before operator target l = record {
  ten = λ user. omega (
    arith,
    l.ten user,
    count_values-insert_over (is_open_of user) id u v m found (λ h. ground arith),
  );
  single = λ user t. omega (
    arith,
    l.single user t,
    count_values-insert_over (is_open_with user t) id u v m found (λ h. ground arith),
  );
}

started_ten :
    (v : Session) (m : Dict Session)
    → count_values (is_open_of v.operator_id) m < 10
    → (user : String) → count_values (is_open_of user) m ≤ 10
    → count_values (is_open_of user) (insert v.id v m) ≤ 10
unfolding is_open_of
started_ten v m few user l = elim (Bool-cases (is_open_of user v)) [
  | inr other ↦ omega (arith, l, count_values-insert_other (is_open_of user) v.id v m other)
  | inl own ↦
      let same : v.operator_id ≡ user = ground (arith, eq_iff v.operator_id user) in
      let few_of : count_values (is_open_of user) m < 10 = rw (sym same) few in
      omega (arith, few_of, count_values-insert (is_open_of user) v.id v m)
]

started_single :
    (v : Session) (m : Dict Session)
    → any_value (is_open_with v.operator_id v.target_id) m ≡ false
    → (user target : String) → count_values (is_open_with user target) m ≤ 1
    → count_values (is_open_with user target) (insert v.id v m) ≤ 1
unfolding is_open_of
started_single v m alone user target l = elim (Bool-cases (is_open_with user target v)) [
  | inr other ↦
      omega (arith, l, count_values-insert_other (is_open_with user target) v.id v m other)
  | inl own ↦
      let same : v.operator_id ≡ user = ground (arith, eq_iff v.operator_id user) in
      let at : v.target_id ≡ target = ground (arith, eq_iff v.target_id target) in
      let alone_of : any_value (is_open_with user target) m ≡ false = rw (sym same, sym at) alone in
      omega (
        arith,
        count_values-any (is_open_with user target) m alone_of,
        count_values-insert (is_open_with user target) v.id v m,
      )
]

-- A session is no rival of its own.
own_undisarmed :
    (id : String) (v : Session) (m : Dict Session)
    → lookup id m ≡ some v
    → lookup id (map_values (λ u. if is_rival v u then disarmed u else u) m) ≡ some v
unfolding is_rival
own_undisarmed id v m found = ground (
  arith,
  found,
  eq_refl v.id,
  lookup-map_values (λ u. if is_rival v u then disarmed u else u) id m,
)

Move-IsLimited : {a b : Board} → Move a b → IsLimited a.sessions → IsLimited b.sessions
Move-IsLimited {a} (ends test state over e) l =
    rw e (map_values-IsLimited _ a.sessions (over-OpensNone test state over) l)
Move-IsLimited {a} (ends_one id state over e) l =
    rw e (adjust-IsLimited (ended state) id a.sessions (ended-OpensNone state over) l)
Move-IsLimited {a} (starts v p g q alone few e) l = rw e (record {
  ten = λ user. started_ten v a.sessions few user (l.ten user);
  single = λ user target. started_single v a.sessions alone user target (l.single user target);
})
Move-IsLimited {a} (activates id v now ps f waits w e) l =
    rw e (replaced_IsLimited id (activated now ps v) v a.sessions f (rw waits refl) refl refl l)
Move-IsLimited {a} (regrants id v ps f runs w e) l =
    rw e (replaced_IsLimited id (regranted ps v) v a.sessions f (ground (arith, runs)) refl refl l)
Move-IsLimited {a} (commands id v f runs e) l = rw e (
    replaced_IsLimited id (in_command v) v _ (own_undisarmed id v a.sessions f)
      (ground (arith, runs)) refl refl (map_values-IsLimited _ a.sessions (disarmed-OpensNone v) l))
Move-IsLimited (registers d seen e) l = rw e l
Move-IsLimited (renames test q e) l = rw e l
Move-IsLimited (revokes id e) l = rw e l

pub Moves-IsLimited : {a b : Board} → Moves a b → IsLimited a.sessions → IsLimited b.sessions
Moves-IsLimited (here e) l = rw e l
Moves-IsLimited (next m x) l = Move-IsLimited x (Moves-IsLimited m l)
