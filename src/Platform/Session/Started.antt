-- ===== src/Platform/Session/Started.antt =====
-- What `requestSession` and `stopSession` have done when they answer with success.

use multi_desk.Base.{ℕ, String, some, true, false, ◌≡◌, refl, arith, Option-cases, inl, inr}
use multi_desk.Dict.{lookup, insert}
use multi_desk.Dict.Laws.{lookup-adjust_self}
use multi_desk.Platform.World.{World}
use multi_desk.Platform.State.{Device, Session, Service, closed, Request, Reply, sent, body, Body}
use multi_desk.Platform.Session.{is_open, visible, ended, end_session}
use multi_desk.Platform.Session.Handlers.{
  SessionQuery, request_session, start_session, new_session, stop_session,
}
use multi_desk.Platform.Session.Cases.{spent, stop_session_rule}
use multi_desk.Platform.Session.RequestCases.{
  IsRequest, IsPair, request_query_rule, request_proved_rule,
}
use multi_desk.Platform.Session.Outcome.{is_success}

module _ (w : World) (now : ℕ) where
  -- what a successful `requestSession` has checked and stored
  pub record IsStarted (r : Request) (user : String) (q : SessionQuery) (s : Service)
      (o : Service × Reply) : Type 0 where
    pub source : Device
    pub target : Device
    pub pair : IsPair w now user q s source target
    pub request : IsRequest w now r user source target q.permissions s
    pub session : Session
    pub made : session ≡ new_session w now s.wire.draws user source target q.permissions
    pub stored : o.0.sessions ≡ insert session.id session s.sessions
    pub answer : o.1 ≡ sent 201 (Body.session session)

  abbrev Starts : Request → String → SessionQuery → Service → Service × Reply → Type 0
  Starts r user q s o = is_success o.1 ≡ true → IsStarted r user q s o

  start_session-IsStarted :
      (r : Request) (user : String) (q : SessionQuery) (s : Service) (a b : Device)
      → IsPair w now user q s a b
      → IsRequest w now r user a b q.permissions s
      → Starts r user q s (start_session w now user a b q.permissions (spent r s))
  unfolding start_session is_success
  start_session-IsStarted r user q s a b p i = elim (Option-cases (lookup user s.accounts)) [
    | inl e ↦ rw (e, start_session) (λ h. cc)
    | inr (account, e) ↦
        rw (e, start_session)
          (λ h. record {
            source = a;
            target = b;
            pair = p;
            request = i;
            session = _;
            made = refl;
            stored = refl;
            answer = refl;
          })
  ]

  -- Where `requestSession` answers with success, the caller owns the source, has proved it with a
  -- fresh challenge, both devices are live and different, the permissions are valid, the caller has
  -- fewer than ten open sessions and none for this target, and the new session, which waits for the
  -- target for two minutes with nothing granted, is stored under its own identifier.
  pub request_session-IsStarted :
      (r : Request) (user : String) (q : SessionQuery) (s : Service)
      → is_success (request_session w now r user (body q) s).1 ≡ true
      → IsStarted r user q s (request_session w now r user (body q) s)
  unfolding request_session is_success
  request_session-IsStarted r user q s =
      request_query_rule w now (Starts r user q s) r user q s (λ h. cc)
        (λ a b p.
          request_proved_rule w now (Starts r user q s) r user a b q.permissions s
            (λ n text. λ h. cc) (λ i. start_session-IsStarted r user q s a b p i))

  -- what a successful `stopSession` has left
  pub record IsStopped (user id : String) (s t : Service) : Type 0 where
    pub before : Session
    pub found : lookup id s.sessions ≡ some before
    pub seen : visible s before user ≡ true
    pub after : Session
    pub there : lookup id t.sessions ≡ some after
    pub over : is_open after.state ≡ false

  -- Where `stopSession` answers with success, the caller is the operator of the session or owns its
  -- target, and the session is neither pending nor active any more.
  pub stop_session-IsStopped :
      (user id : String) (s : Service)
      → is_success (stop_session w now user id s).1 ≡ true
      → IsStopped user id s (stop_session w now user id s).0
  unfolding is_success end_session ended
  stop_session-IsStopped user id s =
      stop_session_rule w now (λ o. is_success o.1 ≡ true → IsStopped user id s o.0) user id s
        (λ h. cc)
        (λ v e seen runs. λ h. record {
          before = v;
          found = e;
          seen = seen;
          after = ended closed v;
          there = ground (arith, lookup-adjust_self (ended closed) id s.sessions);
          over = refl;
        })
        (λ v e seen shut.
          λ h. record { before = v; found = e; seen = seen; after = v; there = e; over = shut })
