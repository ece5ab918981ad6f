-- ===== src/Platform/Session/Outcome.antt =====
-- What the session handlers have done when they answer with success: who may have called them, and
-- what the sessions are afterwards.

use multi_desk.Base.{ℕ, String, some, List, Bool, true, false, ◌≡◌}
use multi_desk.Dict.{lookup}
use multi_desk.Dict.Laws.{lookup-insert_self}
use multi_desk.Platform.World.{World}
use multi_desk.Platform.State.{Session, Service, Request, Reply, sent, body}
use multi_desk.Platform.Permissions.{controls}
use multi_desk.Platform.Permissions.Laws.{controls-take_control}
use multi_desk.Platform.Session.{is_active, is_pending}
use multi_desk.Platform.Session.Handlers.{
  Decision, activated, in_command, decide_session, handover, with_target, decide_found,
  handover_found, change_session,
}
use multi_desk.Platform.Session.Cases.{
  spent, IsApproval, IsGrant, target_session_rule, decide_found_rule, handover_found_rule,
}
use multi_desk.Platform.Session.Invariant.{Inv, IsFree, in_control}
use multi_desk.Platform.Session.Preserved.{handover-Inv}

-- a reply that `sendJSON` writes
unfoldable pub is_success : Reply → Bool
is_success (sent n b) = true
is_success _ = false

module _ (w : World) (now : ℕ) where
  -- what an approval by `decideSession` has established, from the state before to the state after
  pub record IsApproved (r : Request) (user id : String) (permissions : List String) (s t : Service)
      : Type 0 where
    pub before : Session
    pub approval : IsApproval w now r user id s before
    pub waiting : is_pending before.state ≡ true
    pub grant : IsGrant w now (spent r s) before permissions
    pub after : lookup id t.sessions ≡ some (activated now permissions before)

  abbrev Approves :
      (r : Request) (user id : String) (q : Decision) (s : Service) → Service × Reply → Type 0
  Approves r user id q s o =
      q.approve ≡ true → is_success o.1 ≡ true → IsApproved r user id q.permissions s o.0

  -- Where `decideSession` answers an approving decision with success, the caller owns the session's
  -- live target and has proved it from there, the session was pending, and it is now active for eight
  -- hours with exactly the permissions of the decision; these are valid, were requested, and
  -- give control only if no other session controls the target.
  pub decide_session-IsApproved :
      (r : Request) (user id : String) (q : Decision) (s : Service)
      → q.approve ≡ true
      → is_success (decide_session w now r user id (body q) s).1 ≡ true
      → IsApproved r user id q.permissions s (decide_session w now r user id (body q) s).0
  unfolding decide_session with_target is_success change_session
  decide_session-IsApproved r user id q s =
      target_session_rule w now
        (λ x. Approves r user id q s (with_target (decide_found w now id user q) x)) r user id s
        (λ n text. λ y h. cc) (λ n text. λ y h. cc) (λ v f g. λ y h. cc)
        (λ v a.
          decide_found_rule w now (Approves r user id q s) id user q v (spent r s)
            (λ n text. λ y h. cc) (λ waits no. λ y h. cc)
            (λ waits yes g. λ y h. record {
              before = v;
              approval = a;
              waiting = waits;
              grant = g;
              after = lookup-insert_self _ _ _;
            }))

  -- what a hand-over has established
  pub record IsHandedOver (r : Request) (user id : String) (s t : Service) : Type 0 where
    pub before : Session
    pub approval : IsApproval w now r user id s before
    pub runs : is_active before.state ≡ true
    pub after : lookup id t.sessions ≡ some (in_command before)
    pub commands : in_control (in_command before) ≡ true
    pub alone : IsFree t.sessions id before

  abbrev Hands : (r : Request) (user id : String) (s : Service) → Service × Reply → Type 0
  Hands r user id s o = Inv o.0 → is_success o.1 ≡ true → IsHandedOver r user id s o.0

  commands :
      (v : Session)
      → is_active v.state ≡ true
      → controls v.requested ≡ true
      → in_control (in_command v) ≡ true
  commands v runs asked = rw runs (controls-take_control v.requested v.granted asked)

  handover-Hands :
      (r : Request) (user id : String) (s : Service)
      → Hands r user id s (handover w now r user id s)
  unfolding handover with_target is_success change_session
  handover-Hands r user id s =
      target_session_rule w now
        (λ x. Hands r user id s (with_target (handover_found w now id user) x)) r user id s
        (λ n text. λ y h. cc) (λ n text. λ y h. cc) (λ v f g. λ y h. cc)
        (λ v a.
          handover_found_rule w now (Hands r user id s) id user v (spent r s) (λ n text. λ y h. cc)
            (λ runs asked. λ i h. record {
              before = v;
              approval = a;
              runs = runs;
              after = lookup-insert_self _ _ _;
              commands = commands v runs asked;
              alone = λ j u e c same.
                  i.exclusive j id u (in_command v) e (lookup-insert_self _ _ _) c
                    (commands v runs asked) same;
            }))

  -- In a state in order, where `handover` answers with success, the caller owns the session's live
  -- target and has proved it from there, the session was active, it now controls the target, and
  -- no other session controls that target.
  pub handover-IsHandedOver :
      (r : Request) (user id : String) (s : Service)
      → Inv s
      → is_success (handover w now r user id s).1 ≡ true
      → IsHandedOver r user id s (handover w now r user id s).0
  handover-IsHandedOver r user id s i h =
      handover-Hands r user id s (handover-Inv w now r user id s i) h
