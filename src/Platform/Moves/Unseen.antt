-- ===== src/Platform/Moves/Unseen.antt =====
-- No request ever writes when a device was last seen: `registerDevice` leaves the zero time there, and
-- `live` of server/internal/platform/service.go reads it.
use mathlib.Core.Option
use multi_desk.Base.{Bool, List, ℕ, ◌*◌, ◌≤◌, String, some, false, ◌≡◌, refl, sym, ◌∙◌, ap, arith}
use multi_desk.Security.{second}
use multi_desk.Dict.{Dict, lookup, adjust_first}
use multi_desk.Dict.Laws.{Every, lookup-adjust_first}
use multi_desk.Dict.Every.{Every-insert, Every-adjust, map-eq-some}
use multi_desk.Platform.World.{World}
use multi_desk.Platform.State.{Service, Device, Request, failed, body}
use multi_desk.Platform.Session.{live}
use multi_desk.Platform.Session.Handlers.{SessionQuery, request_session}
use multi_desk.Platform.Session.RequestCases.{request_query_rule}
use multi_desk.Platform.Devices.{DeviceQuery, renamed, revoke}
use multi_desk.Platform.Step.{init, Reach, start, next}
use multi_desk.Platform.Moves.{
  Board, Move, Moves, here, next, ends, ends_one, starts, activates, regrants, commands, registers,
  renames, revokes,
}
use multi_desk.Platform.Moves.Refined.{step-Moves}

abbrev IsUnseen : Dict Device → Type 0
IsUnseen d = Every (λ k x. x.last_seen ≡ 0) d

renamed-IsUnseen :
    (test : Device → Bool) (q : DeviceQuery) (d : Dict Device)
    → IsUnseen d
    → IsUnseen (adjust_first test (renamed q) d)
unfolding renamed
renamed-IsUnseen test q d u k x h =
    let (y, found, same) =
      map-eq-some (λ (z : Device). z.last_seen) (lookup k d) x.last_seen
        (sym (lookup-adjust_first (λ (z : Device). z.last_seen) test (renamed q) k d (λ y. refl))
          ∙ ap (Option.map (λ (z : Device). z.last_seen)) h) in
    sym same ∙ u k y found

Move-IsUnseen : {a b : Board} → Move a b → IsUnseen a.devices → IsUnseen b.devices
unfolding revoke
Move-IsUnseen (ends test state over e) u = rw e u
Move-IsUnseen (ends_one id state over e) u = rw e u
Move-IsUnseen (starts v p g q s t e) u = rw e u
Move-IsUnseen (activates id v now ps f p w e) u = rw e u
Move-IsUnseen (regrants id v ps f p w e) u = rw e u
Move-IsUnseen (commands id v f p e) u = rw e u
Move-IsUnseen {a} (registers d seen e) u =
    rw e (Every-insert (λ k (x : Device). x.last_seen ≡ 0) d.id d a.devices u seen)
Move-IsUnseen {a} (renames test q e) u = rw e (renamed-IsUnseen test q a.devices u)
Move-IsUnseen {a} (revokes id e) u =
    rw e (Every-adjust (λ k (x : Device). x.last_seen ≡ 0) revoke id a.devices (λ x h. h) u)

Moves-IsUnseen : {a b : Board} → Moves a b → IsUnseen a.devices → IsUnseen b.devices
Moves-IsUnseen (here e) u = rw e u
Moves-IsUnseen (next m x) u = Move-IsUnseen x (Moves-IsUnseen m u)

init-IsUnseen : (key : List ℕ) → IsUnseen (init key).devices
unfolding init lookup
init-IsUnseen key k d h = cc

Reach-IsUnseen : (w : World) (key : List ℕ) {s : Service} → Reach w key s → IsUnseen s.devices
Reach-IsUnseen w key (start e) = rw e (init-IsUnseen key)
Reach-IsUnseen w key (next {s} now ev r e) =
    rw e (Moves-IsUnseen (step-Moves w now ev s) (Reach-IsUnseen w key r))

unseen-live :
    (now : ℕ) (s : Service) (k : String) (d : Device)
    → 45 * second ≤ now
    → IsUnseen s.devices
    → lookup k s.devices ≡ some d
    → live now s (some d) ≡ false
unfolding live
unseen-live now s k d late u h = ground (arith, u k d h)

-- In every state that the service reaches from its start, at any time at least 45 seconds after the
-- zero time of Go, a well-formed request for a session changes nothing and is refused with the status
-- 404, whoever makes it, for whatever devices and permissions, and with whatever proof.
pub Reach-request_session :
    (w : World) (key : List ℕ) {s : Service}
    → Reach w key s
    → (now : ℕ) (r : Request) (user : String) (q : SessionQuery) → 45 * second ≤ now
    → request_session w now r user (body q) s
      ≡ (s, failed 404 "available source and target devices required")
unfolding request_session
Reach-request_session w key {s} reached now r user q late =
    request_query_rule w now
      (λ o. o ≡ (s, failed 404 "available source and target devices required")) r user q s refl
      (λ source target p.
        let dead =
          unseen-live now s q.source_id source late (Reach-IsUnseen w key reached) p.source_found in
        let alive = p.source_live in cc)
