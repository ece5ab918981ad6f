-- ===== src/Platform/Session/RequestCases.antt =====
-- Rules for what `requestSession` returns: one for each way through its tests, with what the tests
-- have established.
use multi_desk.Base.{
  ℕ, String, some, List, true, false, ◌&&◌, ◌==◌, leb, ◌<◌, ◌≡◌, ◌≢◌, arith, eq_iff, Bool-cases,
  Option-cases, inl, inr,
}
use multi_desk.Dict.{lookup, any_value, count_values}
use multi_desk.Platform.World.{World}
use multi_desk.Platform.State.{Device, Service, Request, Reply, failed}
use multi_desk.Platform.Permissions.{valid_permissions}
use multi_desk.Platform.Proof.{proof}
use multi_desk.Platform.Session.{live}
use multi_desk.Platform.Session.Handlers.{
  SessionQuery, is_open_of, request_proved, request_query, start_session,
}
use multi_desk.Platform.Session.Cases.{spent, proof-spent}

module _ (w : World) (now : ℕ) where
  -- What a request for a session has passed when the session is started.
  pub record IsRequest (r : Request) (user : String) (source target : Device)
      (permissions : List String) (s : Service) : Type 0 where
    pub proved : (proof w now r user source.public_key s).1 ≡ true
    pub valid : valid_permissions permissions ≡ true
    pub single : any_value (λ v. is_open_of user v && v.target_id == target.id) s.sessions ≡ false
    pub below_ten : count_values (is_open_of user) s.sessions < 10

  pub request_proved_rule {ℓ} :
      (P : Service × Reply → Type ℓ) (r : Request) (user : String) (source target : Device)
      (permissions : List String) (s : Service)
      → ((n : ℕ) (text : String) → P (spent r s, failed n text))
      → (IsRequest r user source target permissions s
          → P (start_session w now user source target permissions (spent r s)))
      → P (request_proved w now r user source target permissions s)
  unfolding request_proved
  request_proved_rule P r user source target permissions s after start =
      rw (proof-spent w now r user source.public_key s)
        (elim (Bool-cases (proof w now r user source.public_key s).1) [
          | inr e ↦ rw e (after 403 "source device proof required")
          | inl proved ↦ rw proved (elim (Bool-cases (valid_permissions permissions)) [
            | inr e ↦ rw e (after 400 "valid permissions including view required")
            | inl valid ↦
                rw valid
                  (elim (Bool-cases
                    (any_value (λ v. is_open_of user v && v.target_id == target.id) s.sessions)) [
                      | inl e ↦ rw e (after 409 "a session for this target already exists")
                      | inr single ↦
                          rw single
                            (elim (Bool-cases
                              (leb 10 (count_values (is_open_of user) s.sessions))) [
                                | inl e ↦ rw e (after 409 "maximum 10 pending or active sessions")
                                | inr few ↦ rw few (
                                    start (record {
                                      proved = proved;
                                      valid = valid;
                                      single = single;
                                      below_ten = ground arith;
                                    }))
                              ])
                    ])
          ])
        ])

  -- What `requestSession` has checked of the two devices before it takes the proof.
  pub record IsPair (user : String) (q : SessionQuery) (s : Service) (source target : Device)
      : Type 0 where
    pub source_found : lookup q.source_id s.devices ≡ some source
    pub target_found : lookup q.target_id s.devices ≡ some target
    pub owned : source.owner_id ≡ user
    pub source_live : live now s (some source) ≡ true
    pub target_live : live now s (some target) ≡ true
    pub apart : q.source_id ≢ q.target_id

  pub request_query_rule {ℓ} :
      (P : Service × Reply → Type ℓ) (r : Request) (user : String) (q : SessionQuery) (s : Service)
      → P (s, failed 404 "available source and target devices required")
      → ((source target : Device)
          → IsPair user q s source target
          → P (request_proved w now r user source target q.permissions s))
      → P (request_query w now r user q s)
  unfolding request_query
  request_query_rule P r user q s refuse go = elim (Option-cases (lookup q.source_id s.devices)) [
    | inl e ↦ rw (e, request_query) refuse
    | inr (a, e) ↦
        rw (e, request_query)
          (elim (Option-cases (lookup q.target_id s.devices)) [
            | inl f ↦ rw (f, request_query) refuse
            | inr (b, f) ↦
                rw (f, request_query)
                  (elim (Bool-cases (a.owner_id == user)) [
                    | inr g ↦ rw g refuse
                    | inl owned ↦ rw owned (elim (Bool-cases (live now s (some a))) [
                      | inr g ↦ rw g refuse
                      | inl source_live ↦ rw source_live (elim (Bool-cases (live now s (some b))) [
                        | inr g ↦ rw g refuse
                        | inl target_live ↦
                            rw target_live (elim (Bool-cases (q.source_id == q.target_id)) [
                              | inl g ↦ rw g refuse
                              | inr g ↦ rw g (
                                  go a b (record {
                                    source_found = e;
                                    target_found = f;
                                    owned = (eq_iff a.owner_id user).0 owned;
                                    source_live = source_live;
                                    target_live = target_live;
                                    apart = λ same. ground (arith, eq_iff q.source_id q.target_id);
                                  }))
                            ])
                      ])
                    ])
                  ])
          ])
  ]
