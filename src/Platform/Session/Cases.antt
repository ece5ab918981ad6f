-- ===== src/Platform/Session/Cases.antt =====
-- Rules for what a session handler returns: one for each way through its tests, with what the
-- tests have established.
use multi_desk.Base.{
  ℕ, String, none, some, List, true, false, ◌&&◌, ◌==◌, num_eq, length, ◌≡◌, refl, arith, eq_iff,
  Bool-cases, Option-cases, inl, inr,
}
use multi_desk.Dict.{lookup, delete}
use multi_desk.Platform.World.{World}
use multi_desk.Platform.State.{
  Device, Session, Service, rejected, revoked, closed, Request, Reply, crashed, failed, Body,
}
use multi_desk.Platform.Permissions.{controls, subset, valid_permissions}
use multi_desk.Platform.Proof.{proof}
use multi_desk.Platform.Session.{is_active, is_pending, is_open, live, visible, ended, end_session}
use multi_desk.Platform.Session.Handlers.{
  Decision, Target, refused, approved_by_target, controller_busy, target_device, target_session,
  change_session, decide_found, change_found, handover_found, disarm_rivals, stop_session,
  activated, regranted, in_command,
}

-- the service when `proof` has taken the challenge of the request
abbrev pub spent : Request → Service → Service
spent r s = record s { challenges = delete r.nonce s.challenges }

module _ (w : World) (now : ℕ) where
  -- The owner of the session's target has proved, from the live target itself, that it asks.
  pub record IsApproval (r : Request) (user id : String) (s : Service) (v : Session) : Type 0 where
    pub found : lookup id s.sessions ≡ some v
    pub device : Device
    pub registered : lookup v.target_id s.devices ≡ some device
    pub owned : device.owner_id ≡ user
    pub alive : live now s (some device) ≡ true
    pub proved : (proof w now r user device.public_key s).1 ≡ true

  pub proof-spent :
      (r : Request) (user key : String) (s : Service) → (proof w now r user key s).0 ≡ spent r s
  unfolding proof
  proof-spent r user key s = refl

  target_device_rule {ℓ} :
      (P : Service × Target → Type ℓ) (r : Request) (user id : String) (s : Service) (v : Session)
      (d : Device)
      → lookup id s.sessions ≡ some v
      → lookup v.target_id s.devices ≡ some d
      → ((n : ℕ) (text : String) → P (s, refused (failed n text)))
      → ((n : ℕ) (text : String) → P (spent r s, refused (failed n text)))
      → (IsApproval r user id s v → P (spent r s, approved_by_target v))
      → P (target_device w now r user v (some d) s)
  unfolding target_device
  target_device_rule P r user id s v d e f same after good =
      elim (Bool-cases (d.owner_id == user)) [
        | inr other ↦ rw other (same 404 "session not found")
        | inl own ↦ rw own (elim (Bool-cases (live now s (some d))) [
          | inr dead ↦ rw dead (same 403 "online target device proof required")
          | inl alive ↦ rw alive (elim (Bool-cases (proof w now r user d.public_key s).1) [
            | inr bad ↦
                rw (bad, proof-spent r user d.public_key s)
                  (after 403 "online target device proof required")
            | inl proved ↦
                rw (proved, proof-spent r user d.public_key s)
                  (good (record {
                    found = e;
                    device = d;
                    registered = f;
                    owned = (eq_iff d.owner_id user).0 own;
                    alive = alive;
                    proved = proved;
                  }))
          ])
        ])
      ]

  -- `targetSession` refuses, spending the challenge or not; crashes where the target of the session
  -- is no device; or returns the session, approved.
  pub target_session_rule {ℓ} :
      (P : Service × Target → Type ℓ) (r : Request) (user id : String) (s : Service)
      → ((n : ℕ) (text : String) → P (s, refused (failed n text)))
      → ((n : ℕ) (text : String) → P (spent r s, refused (failed n text)))
      → ((v : Session)
          → lookup id s.sessions ≡ some v
          → lookup v.target_id s.devices ≡ none
          → P (s, refused crashed))
      → ((v : Session) → IsApproval r user id s v → P (spent r s, approved_by_target v))
      → P (target_session w now r user id s)
  unfolding target_session target_device
  target_session_rule P r user id s same after lost good =
      elim (Option-cases (lookup id s.sessions)) [
        | inl e ↦ rw (e, target_session) (same 404 "session not found")
        | inr (v, e) ↦
            rw (e, target_session)
              (elim (Option-cases (lookup v.target_id s.devices)) [
                | inl f ↦ rw (f, target_device) (lost v e f)
                | inr (d, f) ↦ rw f (target_device_rule P r user id s v d e f same after (good v))
              ])
      ]

  -- a change of permissions that the tests of `decideSession` and `changePermissions` let through
  pub record IsGrant (s : Service) (v : Session) (permissions : List String) : Type 0 where
    pub valid : valid_permissions permissions ≡ true
    pub within : subset permissions v.requested ≡ true
    pub free : (controls permissions && controller_busy v s) ≡ false

  pub IsGrant-free :
      (s : Service) (v : Session) (permissions : List String)
      → IsGrant s v permissions
      → controls permissions ≡ true
      → controller_busy v s ≡ false
  IsGrant-free s v permissions g c = ground (arith, g.free)

  pub decide_found_rule {ℓ} :
      (P : Service × Reply → Type ℓ) (id user : String) (q : Decision) (v : Session) (s : Service)
      → ((n : ℕ) (text : String) → P (s, failed n text))
      → (is_pending v.state ≡ true
          → q.approve ≡ false
          → P (
            end_session w now id v rejected user s,
            Reply.sent 200 (Body.session (ended rejected v)),
          ))
      → (is_pending v.state ≡ true
          → q.approve ≡ true
          → IsGrant s v q.permissions
          → P (change_session w now id (activated now q.permissions v) user "session.approved" s))
      → P (decide_found w now id user q v s)
  unfolding decide_found
  decide_found_rule P id user q v s same reject approve = elim (Bool-cases (is_pending v.state)) [
    | inr e ↦ rw e (same 409 "session is not pending")
    | inl waits ↦ rw waits (elim (Bool-cases q.approve) [
      | inr e ↦ rw e (reject waits e)
      | inl agreed ↦ rw agreed (elim (Bool-cases (valid_permissions q.permissions)) [
        | inr e ↦ rw e (same 400 "grants must be a subset of requested permissions")
        | inl valid ↦ rw valid (elim (Bool-cases (subset q.permissions v.requested)) [
          | inr e ↦ rw e (same 400 "grants must be a subset of requested permissions")
          | inl within ↦
              rw within (elim (Bool-cases (controls q.permissions && controller_busy v s)) [
                | inl e ↦ rw e (
                    same 409
                      "another operator controls this device; approve view-only then hand over")
                | inr e ↦
                    rw e
                      (approve waits agreed (record { valid = valid; within = within; free = e }))
              ])
        ])
      ])
    ])
  ]

  pub change_found_rule {ℓ} :
      (P : Service × Reply → Type ℓ) (id user : String) (permissions : List String) (v : Session)
      (s : Service)
      → ((n : ℕ) (text : String) → P (s, failed n text))
      → (is_active v.state ≡ true
          → length permissions ≡ 0
          → P (
            end_session w now id v revoked user s,
            Reply.sent 200 (Body.session (ended revoked v)),
          ))
      → (is_active v.state ≡ true
          → IsGrant s v permissions
          → P (
              change_session w now id
                (regranted permissions v)
                user
                "session.permissions_changed"
                s))
      → P (change_found w now id user permissions v s)
  unfolding change_found
  change_found_rule P id user permissions v s same revoke change =
      elim (Bool-cases (is_active v.state)) [
        | inr e ↦ rw e (same 409 "session is not active")
        | inl runs ↦ rw runs (elim (Bool-cases (num_eq (length permissions) 0)) [
          | inl e ↦ rw e (revoke runs (ground arith))
          | inr more ↦ rw more (elim (Bool-cases (valid_permissions permissions)) [
            | inr e ↦ rw e (same 400 "invalid grants")
            | inl valid ↦ rw valid (elim (Bool-cases (subset permissions v.requested)) [
              | inr e ↦ rw e (same 400 "invalid grants")
              | inl within ↦
                  rw within (elim (Bool-cases (controls permissions && controller_busy v s)) [
                    | inl e ↦ rw e (same 409 "control handover required")
                    | inr e ↦
                        rw e (change runs (record { valid = valid; within = within; free = e }))
                  ])
            ])
          ])
        ])
      ]

  pub handover_found_rule {ℓ} :
      (P : Service × Reply → Type ℓ) (id user : String) (v : Session) (s : Service)
      → ((n : ℕ) (text : String) → P (s, failed n text))
      → (is_active v.state ≡ true
          → controls v.requested ≡ true
          → P (
              change_session w now id
                (in_command v)
                user
                "session.control_handover"
                (disarm_rivals v s)))
      → P (handover_found w now id user v s)
  unfolding handover_found
  handover_found_rule P id user v s same take = elim (Bool-cases (is_active v.state)) [
    | inr e ↦ rw e (same 409 "active session with requested control required")
    | inl runs ↦ rw runs (elim (Bool-cases (controls v.requested)) [
      | inr e ↦ rw e (same 409 "active session with requested control required")
      | inl asked ↦ rw asked (take runs asked)
    ])
  ]

  pub stop_session_rule {ℓ} :
      (P : Service × Reply → Type ℓ) (user id : String) (s : Service)
      → P (s, failed 404 "session not found")
      → ((v : Session)
          → lookup id s.sessions ≡ some v
          → visible s v user ≡ true
          → is_open v.state ≡ true
          → P (
            end_session w now id v closed user s,
            Reply.sent 200 (Body.session (ended closed v)),
          ))
      → ((v : Session)
          → lookup id s.sessions ≡ some v
          → visible s v user ≡ true
          → is_open v.state ≡ false
          → P (s, Reply.sent 200 (Body.session v)))
      → P (stop_session w now user id s)
  unfolding stop_session
  stop_session_rule P user id s missing end over = elim (Option-cases (lookup id s.sessions)) [
    | inl e ↦ rw (e, stop_session) missing
    | inr (v, e) ↦
        rw (e, stop_session)
          (elim (Bool-cases (visible s v user)) [
            | inr hidden ↦ rw hidden missing
            | inl seen ↦ rw seen (elim (Bool-cases (is_open v.state)) [
              | inl h ↦ rw h (end v e seen h)
              | inr h ↦ rw h (over v e seen h)
            ])
          ])
  ]
