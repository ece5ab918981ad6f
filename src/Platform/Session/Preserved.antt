-- ===== src/Platform/Session/Preserved.antt =====
-- Every session handler keeps the invariant of the sessions.
use multi_desk.Base.{
  ℕ, String, some, List, true, false, ◌≡◌, ◌≢◌, refl, sym, ◌∙◌, arith, Option-cases, inl, inr,
}
use multi_desk.Dict.{Dict, lookup}
use multi_desk.Platform.World.{World, random_id}
use multi_desk.Platform.State.{
  Device, Session, Service, SessionState, active, rejected, revoked, closed, Request, Reply,
  Decoded, malformed, trailing, body,
}
use multi_desk.Platform.Permissions.{controls, subset, valid_permissions, take_control}
use multi_desk.Platform.Permissions.Laws.{subset-take_control}
use multi_desk.Platform.Session.{is_active, present}
use multi_desk.Platform.Session.Handlers.{
  Decision, SessionQuery, decide_found, change_found, handover_found, disarm_rivals, with_target,
  target_session, decide_session, change_permissions, activated, regranted, in_command, handover,
  stop_session, start_session, new_session, request_session,
}
use multi_desk.Platform.Session.Invariant.{Inv, IsSound, IsFree, in_control}
use multi_desk.Platform.Session.Cases.{
  IsGrant-free, spent, target_session_rule, decide_found_rule, change_found_rule,
  handover_found_rule, stop_session_rule,
}
use multi_desk.Platform.Session.RequestCases.{request_proved_rule, request_query_rule}
use multi_desk.Platform.Session.Writes.{
  inserted-Inv, true-ne-false, end_session-Inv, change_session-Inv, controller_busy-IsFree,
  disarm_rivals-Inv, disarm_rivals-IsFree,
}

-- The challenges are no concern of the invariant.
spent-Inv : (r : Request) (s : Service) → Inv s → Inv (spent r s)
spent-Inv r s i = record {
  sound = i.sound;
  exclusive = i.exclusive;
  devices_keyed = i.devices_keyed;
}

-- The permissions that the target's owner grants keep a session sound.
granted-IsSound :
    (devices : Dict Device) (k : String) (v : Session) (permissions : List String) (until : ℕ)
    (state : SessionState) (epoch : ℕ)
    → IsSound devices k v
    → subset permissions v.requested ≡ true
    → is_active state ≡ true
    → IsSound devices k
        (record v { granted = permissions; state = state; expires = until; epoch = epoch })
granted-IsSound devices k v permissions until state epoch i within runs = record {
  keyed = i.keyed;
  known = i.known;
  apart = i.apart;
  valid = i.valid;
  within = within;
  idle = λ h. cc;
}

control_of :
    (v : Session) (permissions : List String)
    → in_control (regranted permissions v) ≡ true
    → controls permissions ≡ true
control_of v permissions c = ground arith

module _ (w : World) (now : ℕ) where
  decide_found-Inv :
      (id user : String) (q : Decision) (v : Session) (s : Service)
      → Inv s
      → lookup id s.sessions ≡ some v
      → Inv (decide_found w now id user q v s).0
  decide_found-Inv id user q v s i found =
      decide_found_rule w now (λ r. Inv r.0) id user q v s (λ n text. i)
        (λ _ _. end_session-Inv w now id v rejected user s refl i)
        (λ _ _ g.
          change_session-Inv w now id _ user "session.approved" s i
            (granted-IsSound s.devices id v q.permissions _ active _ (i.sound id v found) g.within
              refl)
            (λ c.
              controller_busy-IsFree w now id v (activated now q.permissions v) s i found refl
                (IsGrant-free w now s v q.permissions g c)))

  change_found-Inv :
      (id user : String) (permissions : List String) (v : Session) (s : Service)
      → Inv s
      → lookup id s.sessions ≡ some v
      → Inv (change_found w now id user permissions v s).0
  change_found-Inv id user permissions v s i found =
      change_found_rule w now (λ r. Inv r.0) id user permissions v s (λ n text. i)
        (λ _ _. end_session-Inv w now id v revoked user s refl i)
        (λ runs g.
          change_session-Inv w now id _ user "session.permissions_changed" s i
            (granted-IsSound s.devices id v permissions _ v.state _ (i.sound id v found) g.within
              runs)
            (λ c.
              controller_busy-IsFree w now id v (regranted permissions v) s i found refl
                (IsGrant-free w now s v permissions g (control_of v permissions c))))

  handover_found-Inv :
      (id user : String) (v : Session) (s : Service)
      → Inv s
      → lookup id s.sessions ≡ some v
      → Inv (handover_found w now id user v s).0
  unfolding disarm_rivals
  handover_found-Inv id user v s i found =
      handover_found_rule w now (λ r. Inv r.0) id user v s (λ n text. i)
        (λ runs asked.
          change_session-Inv w now id _ user "session.control_handover" (disarm_rivals v s)
            (disarm_rivals-Inv v s i)
            (granted-IsSound s.devices id v (take_control v.requested v.granted) _ v.state _
              (i.sound id v found)
              (subset-take_control v.requested v.granted (i.sound id v found).within) runs)
            (λ c. disarm_rivals-IsFree id v (in_command v) s i (i.sound id v found).keyed refl))

  -- The three handlers that act for the target's owner.
  with_target-Inv :
      (next : Session → Service → Service × Reply) (r : Request) (user id : String) (s : Service)
      → ((v : Session) → lookup id s.sessions ≡ some v → Inv (next v (spent r s)).0)
      → Inv s
      → Inv (with_target next (target_session w now r user id s)).0
  unfolding with_target
  with_target-Inv next r user id s keep i =
      target_session_rule w now (λ t. Inv (with_target next t).0) r user id s (λ n text. i)
        (λ n text. spent-Inv r s i) (λ v found lost. i) (λ v a. keep v a.found)

  pub decide_session-Inv :
      (r : Request) (user id : String) (q : Decoded Decision) (s : Service)
      → Inv s
      → Inv (decide_session w now r user id q s).0
  unfolding decide_session
  decide_session-Inv r user id malformed s i = i
  decide_session-Inv r user id trailing s i = i
  decide_session-Inv r user id (body q) s i =
      with_target-Inv (decide_found w now id user q) r user id s
        (λ v found. decide_found-Inv id user q v (spent r s) (spent-Inv r s i) found) i

  pub change_permissions-Inv :
      (r : Request) (user id : String) (q : Decoded (List String)) (s : Service)
      → Inv s
      → Inv (change_permissions w now r user id q s).0
  unfolding change_permissions
  change_permissions-Inv r user id malformed s i = i
  change_permissions-Inv r user id trailing s i = i
  change_permissions-Inv r user id (body q) s i =
      with_target-Inv (change_found w now id user q) r user id s
        (λ v found. change_found-Inv id user q v (spent r s) (spent-Inv r s i) found) i

  pub handover-Inv :
      (r : Request) (user id : String) (s : Service) → Inv s → Inv (handover w now r user id s).0
  unfolding handover
  handover-Inv r user id s i =
      with_target-Inv (handover_found w now id user) r user id s
        (λ v found. handover_found-Inv id user v (spent r s) (spent-Inv r s i) found) i

  pub stop_session-Inv :
      (user id : String) (s : Service) → Inv s → Inv (stop_session w now user id s).0
  stop_session-Inv user id s i =
      stop_session_rule w now (λ r. Inv r.0) user id s i
        (λ v _ _ _. end_session-Inv w now id v closed user s refl i) (λ v _ _ _. i)

  new_session-IsSound :
      (draws : ℕ) (user : String) (source target : Device) (permissions : List String) (s : Service)
      → present (lookup target.id s.devices) ≡ true
      → source.id ≢ target.id
      → valid_permissions permissions ≡ true
      → IsSound s.devices
          (random_id w draws 18)
          (new_session w now draws user source target permissions)
  unfolding new_session subset
  new_session-IsSound draws user source target permissions s known apart valid = record {
    keyed = refl;
    known = known;
    apart = apart;
    valid = valid;
    within = refl;
    idle = λ h. refl;
  }

  new_session-idle :
      (draws : ℕ) (user : String) (source target : Device) (permissions : List String)
      → in_control (new_session w now draws user source target permissions) ≡ false
  unfolding new_session
  new_session-idle draws user source target permissions = refl

  start_session-Inv :
      (user : String) (source target : Device) (permissions : List String) (s : Service)
      → Inv s
      → present (lookup target.id s.devices) ≡ true
      → source.id ≢ target.id
      → valid_permissions permissions ≡ true
      → Inv (start_session w now user source target permissions s).0
  unfolding start_session new_session
  start_session-Inv user source target permissions s i known apart valid =
      elim (Option-cases (lookup user s.accounts)) [
        | inl e ↦ rw (e, start_session) (inserted-Inv _ _ s i sound idle)
        | inr (a, e) ↦ rw (e, start_session) (inserted-Inv _ _ s i sound idle)
      ]
    where
      sound :
          IsSound s.devices
            (random_id w s.wire.draws 18)
            (new_session w now s.wire.draws user source target permissions)
      sound = new_session-IsSound s.wire.draws user source target permissions s known apart valid

      idle :
          in_control (new_session w now s.wire.draws user source target permissions) ≡ true
          → IsFree s.sessions
              (random_id w s.wire.draws 18)
              (new_session w now s.wire.draws user source target permissions)
      idle c =
          absurd
            (true-ne-false (sym c ∙ new_session-idle s.wire.draws user source target permissions))

  pub request_session-Inv :
      (r : Request) (user : String) (q : Decoded SessionQuery) (s : Service)
      → Inv s
      → Inv (request_session w now r user q s).0
  unfolding request_session
  request_session-Inv r user malformed s i = i
  request_session-Inv r user trailing s i = i
  request_session-Inv r user (body q) s i =
      request_query_rule w now (λ r. Inv r.0) r user q s i
        λ source target p.
          request_proved_rule w now (λ r. Inv r.0) r user source target q.permissions s
            (λ n text. spent-Inv r s i)
            (λ g.
              start_session-Inv user source target q.permissions (spent r s) (spent-Inv r s i)
                (rw (i.devices_keyed q.target_id target p.target_found, p.target_found)
                  (unfold present in refl))
                (rw
                  (
                    i.devices_keyed q.source_id source p.source_found,
                    i.devices_keyed q.target_id target p.target_found,
                  )
                  p.apart)
                g.valid)
