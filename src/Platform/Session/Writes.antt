-- ===== src/Platform/Session/Writes.antt =====
-- The writes that the session handlers are made of keep the invariant of the sessions.
use multi_desk.Base.{
  ℕ, String, some, Bool, true, false, not, ◌&&◌, ◌==◌, ◌≡◌, ◌≢◌, refl, sym, ◌∙◌, ap, arith, eq_iff,
  if◌then◌else◌, Bool-cases, inl, inr,
}
use multi_desk.Dict.{lookup, insert}
use multi_desk.Dict.Laws.{any_value-lookup}
use multi_desk.Dict.Every.{Every-insert, Every-map_values, Every-adjust, lookup-map_values_cases}
use multi_desk.Platform.World.{World}
use multi_desk.Platform.State.{Session, Service, SessionState}
use multi_desk.Platform.Permissions.{controls, subset, drop_control, contains}
use multi_desk.Platform.Permissions.Laws.{subset-drop_control, controls-drop_control}
use multi_desk.Platform.Session.{is_active, ended, end_session, end_where}
use multi_desk.Platform.Session.Handlers.{
  controller_busy, change_session, is_rival, disarmed, disarm_rivals,
}
use multi_desk.Platform.Session.Invariant.{
  Inv, IsOrderly, IsSound, IsTame, IsFree, in_control, IsSound-tame, IsExclusive-map_values,
  IsExclusive-adjust, IsExclusive-insert,
}

ended-IsTame : (state : SessionState) → is_active state ≡ false → IsTame (ended state)
unfolding ended subset controls contains
ended-IsTame state idle = record {
  same_id = λ v. refl;
  same_target = λ v. refl;
  same_source = λ v. refl;
  same_requested = λ v. refl;
  shrinks = λ v h. refl;
  stays_idle = λ v h i. refl;
  gains_no_control = λ v h. ground arith;
}

disarmed-IsTame : IsTame disarmed
unfolding disarmed
disarmed-IsTame = record {
  same_id = λ v. refl;
  same_target = λ v. refl;
  same_source = λ v. refl;
  same_requested = λ v. refl;
  shrinks = λ v h. subset-drop_control v.granted v.requested h;
  stays_idle = λ v h i. rw (h i) (unfold drop_control in refl);
  gains_no_control = λ v h. ground (arith, controls-drop_control v.granted);
}

-- A loop that changes some of the sessions in a tame way is tame.
IsTame-if :
    (test : Session → Bool) (f : Session → Session)
    → IsTame f
    → IsTame (λ v. if test v then f v else v)
IsTame-if test f tame = record {
  same_id = λ v. ground (arith, tame.same_id v);
  same_target = λ v. ground (arith, tame.same_target v);
  same_source = λ v. ground (arith, tame.same_source v);
  same_requested = λ v. ground (arith, tame.same_requested v);
  shrinks = λ v h. elim (Bool-cases (test v)) [ inl e ↦ rw e (tame.shrinks v h) | inr e ↦ rw e h ];
  stays_idle = λ v h i. elim (Bool-cases (test v)) [
    | inl e ↦ rw e (tame.stays_idle v h (rw e at i))
    | inr e ↦ rw e (h (rw e at i))
  ];
  gains_no_control = λ v h. elim (Bool-cases (test v)) [
    | inl e ↦ tame.gains_no_control v (rw e at h)
    | inr e ↦ rw e at h
  ];
}

-- A session written under its key.
pub inserted-Inv :
    (id : String) (v : Session) (s : Service)
    → Inv s
    → IsSound s.devices id v
    → (in_control v ≡ true → IsFree s.sessions id v)
    → IsOrderly s.devices (insert id v s.sessions)
inserted-Inv id v s i sound free = record {
  sound = Every-insert (IsSound s.devices) id v s.sessions i.sound sound;
  exclusive = IsExclusive-insert id v s.sessions i.exclusive free;
  devices_keyed = i.devices_keyed;
}

module _ (w : World) (now : ℕ) where
  pub end_session-Inv :
      (key : String) (v : Session) (state : SessionState) (actor : String) (s : Service)
      → is_active state ≡ false
      → Inv s
      → Inv (end_session w now key v state actor s)
  unfolding end_session
  end_session-Inv key v state actor s idle i = record {
    sound =
        Every-adjust (IsSound s.devices) (ended state) key s.sessions
          (λ u. IsSound-tame (ended state) (ended-IsTame state idle) s.devices key u) i.sound;
    exclusive =
        IsExclusive-adjust (ended state) key s.sessions (ended-IsTame state idle) i.exclusive;
    devices_keyed = i.devices_keyed;
  }

  pub change_session-Inv :
      (id : String) (v : Session) (user action : String) (s : Service)
      → Inv s
      → IsSound s.devices id v
      → (in_control v ≡ true → IsFree s.sessions id v)
      → Inv (change_session w now id v user action s).0
  unfolding change_session
  change_session-Inv id v user action s i sound free = inserted-Inv id v s i sound free

  -- Where no other controller was found, the target is free.
  pub controller_busy-IsFree :
      (id : String) (v v' : Session) (s : Service)
      → Inv s
      → lookup id s.sessions ≡ some v
      → v'.target_id ≡ v.target_id
      → controller_busy v s ≡ false
      → IsFree s.sessions id v'
  unfolding controller_busy
  controller_busy-IsFree id v v' s i found same quiet j u h c t = ground (
    arith,
    any_value-lookup
        (λ (o : Session).
          not (o.id == v.id)
          && o.target_id == v.target_id
          && is_active o.state
          && controls o.granted)
        j s.sessions u h quiet,
    eq_iff u.id v.id,
    eq_iff u.target_id v.target_id,
    (i.sound j u h).keyed,
    (i.sound id v found).keyed,
  )

  -- A loop that ends sessions.
  pub end_where-Inv :
      (test : Session → Bool) (state : SessionState) (actor : String) (s : Service)
      → is_active state ≡ false
      → Inv s
      → Inv (end_where w now test state actor s)
  unfolding end_where
  end_where-Inv test state actor s idle i =
      let tame = IsTame-if test (ended state) (ended-IsTame state idle) in
      record {
        sound =
            Every-map_values (IsSound s.devices) _ s.sessions
              (λ k v. IsSound-tame _ tame s.devices k v) i.sound;
        exclusive = IsExclusive-map_values _ tame s.sessions i.exclusive;
        devices_keyed = i.devices_keyed;
      }

-- The loop of `handover`.
pub disarm_rivals-Inv : (v : Session) (s : Service) → Inv s → Inv (disarm_rivals v s)
unfolding disarm_rivals
disarm_rivals-Inv v s i =
    let tame = IsTame-if (is_rival v) disarmed disarmed-IsTame in
    record {
      sound =
          Every-map_values (IsSound s.devices) _ s.sessions
            (λ k u. IsSound-tame _ tame s.devices k u) i.sound;
      exclusive = IsExclusive-map_values _ tame s.sessions i.exclusive;
      devices_keyed = i.devices_keyed;
    }

pub true-ne-false : true ≢ false
true-ne-false h = cc

in_control-disarmed : (o : Session) → in_control (disarmed o) ≡ false
unfolding disarmed
in_control-disarmed o = ground (arith, controls-drop_control o.granted)

-- A controller of the target that the loop passes over is the session itself.
same_of_not_rival :
    (v o : Session)
    → is_rival v o ≡ false
    → in_control o ≡ true
    → o.target_id ≡ v.target_id
    → o.id ≡ v.id
unfolding is_rival
same_of_not_rival v o h c t = ground (arith, eq_iff o.id v.id, eq_iff o.target_id v.target_id)

-- After the loop the target is free for the session that takes the control over.
pub disarm_rivals-IsFree :
    (id : String) (v v' : Session) (s : Service)
    → Inv s
    → v.id ≡ id
    → v'.target_id ≡ v.target_id
    → IsFree (disarm_rivals v s).sessions id v'
unfolding disarm_rivals
disarm_rivals-IsFree id v v' s i named same j u h c t =
    let (o, found, value) =
      lookup-map_values_cases (λ old. if is_rival v old then disarmed old else old) j s.sessions u
        h in
    elim (Bool-cases (is_rival v o)) [
      | inl e ↦
          let gone : disarmed o ≡ u = rw e at value in
          absurd (true-ne-false (sym (rw (← gone) at c) ∙ in_control-disarmed o))
      | inr e ↦
          let kept : o ≡ u = rw e at value in
          sym (i.sound j o found).keyed
          ∙ same_of_not_rival v o e (rw kept c) (ap (λ (x : Session). x.target_id) kept ∙ t ∙ same)
          ∙ named
    ]
