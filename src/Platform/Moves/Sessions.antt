-- ===== src/Platform/Moves/Sessions.antt =====
-- The session handlers as moves.
use multi_desk.Base.{ℕ, String, some, List, Bool, false, ◌≡◌, refl, Option-cases, inl, inr}
use multi_desk.Dict.{lookup}
use multi_desk.Platform.World.{World}
use multi_desk.Platform.State.{
  Service, Session, SessionState, Device, Request, Reply, Decoded, malformed, trailing, body,
  closed, rejected, revoked,
}
use multi_desk.Platform.Session.{is_open, end_where, end_session}
use multi_desk.Platform.Session.Handlers.{
  SessionQuery, Decision, request_session, start_session, new_session, decide_session, decide_found,
  change_permissions, change_found, handover, handover_found, stop_session, with_target,
  target_session, change_session, disarm_rivals,
}
use multi_desk.Platform.Session.Cases.{
  spent, target_session_rule, decide_found_rule, change_found_rule, handover_found_rule,
  stop_session_rule,
}
use multi_desk.Platform.Session.RequestCases.{IsRequest, request_query_rule, request_proved_rule}
use multi_desk.Platform.Moves.{
  Board, board, Moves, next, ends, ends_one, starts, activates, regrants, commands,
}

module _ (w : World) (now : ℕ) (a : Board) where
  pub end_where-Moves :
      (test : Session → Bool) (state : SessionState) (actor : String) (s : Service)
      → is_open state ≡ false
      → Moves a (board s)
      → Moves a (board (end_where w now test state actor s))
  unfolding end_where
  end_where-Moves test state actor s over m = next m (ends test state over refl)

  end_session-Moves :
      (id : String) (v : Session) (state : SessionState) (actor : String) (s : Service)
      → is_open state ≡ false
      → Moves a (board s)
      → Moves a (board (end_session w now id v state actor s))
  unfolding end_session
  end_session-Moves id v state actor s over m = next m (ends_one id state over refl)

  decide_found-Moves :
      (id user : String) (q : Decision) (v : Session) (s : Service)
      → lookup id s.sessions ≡ some v
      → Moves a (board s)
      → Moves a (board (decide_found w now id user q v s).0)
  unfolding change_session
  decide_found-Moves id user q v s found m =
      decide_found_rule w now (λ o. Moves a (board o.0)) id user q v s (λ n text. m)
        (λ waits refusal. end_session-Moves id v rejected user s refl m)
        (λ waits agreed g. next m (activates id v now q.permissions found waits g.within refl))

  change_found-Moves :
      (id user : String) (permissions : List String) (v : Session) (s : Service)
      → lookup id s.sessions ≡ some v
      → Moves a (board s)
      → Moves a (board (change_found w now id user permissions v s).0)
  unfolding change_session
  change_found-Moves id user permissions v s found m =
      change_found_rule w now (λ o. Moves a (board o.0)) id user permissions v s (λ n text. m)
        (λ runs none_left. end_session-Moves id v revoked user s refl m)
        (λ runs g. next m (regrants id v permissions found runs g.within refl))

  handover_found-Moves :
      (id user : String) (v : Session) (s : Service)
      → lookup id s.sessions ≡ some v
      → Moves a (board s)
      → Moves a (board (handover_found w now id user v s).0)
  unfolding change_session disarm_rivals
  handover_found-Moves id user v s found m =
      handover_found_rule w now (λ o. Moves a (board o.0)) id user v s (λ n text. m)
        (λ runs asked. next m (commands id v found runs refl))

  with_target-Moves :
      (act : Session → Service → Service × Reply) (r : Request) (user id : String) (s : Service)
      → ((v : Session) → lookup id s.sessions ≡ some v → Moves a (board (act v (spent r s)).0))
      → Moves a (board s)
      → Moves a (board (with_target act (target_session w now r user id s)).0)
  unfolding with_target
  with_target-Moves act r user id s keep m =
      target_session_rule w now (λ t. Moves a (board (with_target act t).0)) r user id s
        (λ n text. m) (λ n text. m) (λ v found lost. m) (λ v i. keep v i.found)

  pub decide_session-Moves :
      (r : Request) (user id : String) (q : Decoded Decision) (s : Service)
      → Moves a (board s)
      → Moves a (board (decide_session w now r user id q s).0)
  unfolding decide_session
  decide_session-Moves r user id malformed s m = m
  decide_session-Moves r user id trailing s m = m
  decide_session-Moves r user id (body q) s m =
      with_target-Moves (decide_found w now id user q) r user id s
        (λ v found. decide_found-Moves id user q v (spent r s) found m) m

  pub change_permissions-Moves :
      (r : Request) (user id : String) (q : Decoded (List String)) (s : Service)
      → Moves a (board s)
      → Moves a (board (change_permissions w now r user id q s).0)
  unfolding change_permissions
  change_permissions-Moves r user id malformed s m = m
  change_permissions-Moves r user id trailing s m = m
  change_permissions-Moves r user id (body q) s m =
      with_target-Moves (change_found w now id user q) r user id s
        (λ v found. change_found-Moves id user q v (spent r s) found m) m

  pub handover-Moves :
      (r : Request) (user id : String) (s : Service)
      → Moves a (board s)
      → Moves a (board (handover w now r user id s).0)
  unfolding handover
  handover-Moves r user id s m =
      with_target-Moves (handover_found w now id user) r user id s
        (λ v found. handover_found-Moves id user v (spent r s) found m) m

  pub stop_session-Moves :
      (user id : String) (s : Service)
      → Moves a (board s)
      → Moves a (board (stop_session w now user id s).0)
  stop_session-Moves user id s m =
      stop_session_rule w now (λ o. Moves a (board o.0)) user id s m
        (λ v _ _ _. end_session-Moves id v closed user s refl m) (λ v _ _ _. m)

  start_session-Moves :
      (r : Request) (user : String) (source target : Device) (permissions : List String)
      (s : Service)
      → IsRequest w now r user source target permissions s
      → Moves a (board s)
      → Moves a (board (start_session w now user source target permissions (spent r s)).0)
  unfolding start_session new_session
  start_session-Moves r user source target permissions s i m =
      elim (Option-cases (lookup user s.accounts)) [
        | inl e ↦
            rw (e, start_session)
              (next m (
                starts (new_session w now s.wire.draws user source target permissions) refl refl
                  i.valid i.single i.below_ten refl))
        | inr (x, e) ↦
            rw (e, start_session)
              (next m (
                starts (new_session w now s.wire.draws user source target permissions) refl refl
                  i.valid i.single i.below_ten refl))
      ]

  pub request_session-Moves :
      (r : Request) (user : String) (q : Decoded SessionQuery) (s : Service)
      → Moves a (board s)
      → Moves a (board (request_session w now r user q s).0)
  unfolding request_session
  request_session-Moves r user malformed s m = m
  request_session-Moves r user trailing s m = m
  request_session-Moves r user (body q) s m =
      request_query_rule w now (λ o. Moves a (board o.0)) r user q s m
        (λ source target p.
          request_proved_rule w now (λ o. Moves a (board o.0)) r user source target q.permissions s
            (λ n text. m) (λ i. start_session-Moves r user source target q.permissions s i m))
