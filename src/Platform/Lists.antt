-- ===== src/Platform/Lists.antt =====
-- The listing handlers of server/internal/platform/service.go: `listDevices`, `listSessions` and
-- `listAudit`.
use Prim.Native.String.{compare}
use text.Mathlib.Text.{is_lt}
use mathlib.Core.List.{reverse}
use multi_desk.Base.{
  ℕ, suc, zero, String, none, some, List, [], ◌∷◌, Bool, false, ◌||◌, ◌==◌, ltb, if◌then◌else◌,
}
use multi_desk.Dict.{lookup, select_values}
use multi_desk.Platform.State.{Device, Session, Audit, Service, Reply, sent, Body}
use multi_desk.Platform.Session.{live, owns, visible}

-- `sort.Slice(out, before)`: an order of the values in which none stands behind one that it must
-- stand before. Go leaves the order of equal values open; here it is that of the map.
unfoldable pub place : {A : Type 0} → (A → A → Bool) → A → List A → List A
place before a [] = a ∷ []
place before a (b ∷ bs) =
    let rest = place before a bs in if before b a then b ∷ rest else a ∷ b ∷ bs

unfoldable pub sort : {A : Type 0} → (A → A → Bool) → List A → List A
sort before [] = []
sort before (a ∷ rest) = place before a (sort before rest)

-- the copy of a device with its field `Online` filled in
unfoldable pub shown : ℕ → Service → List Device → List Device
shown now s [] = []
shown now s (d ∷ ds) = record d { online = live now s (some d) } ∷ shown now s ds

unfoldable pub name_before : Device → Device → Bool
name_before a b = is_lt (compare a.name b.name)

unfoldable pub list_devices : ℕ → String → Service → Service × Reply
list_devices now user s = (
  s,
  sent 200 (
      Body.devices
        (sort name_before (shown now s (select_values (λ d. d.owner_id == user) s.devices)))),
)

unfoldable pub newer : Session → Session → Bool
newer a b = ltb b.created a.created

unfoldable pub list_sessions : String → Service → Service × Reply
list_sessions user s =
    (s, sent 200 (Body.sessions (sort newer (select_values (λ v. visible s v user) s.sessions))))

-- the test of the loop of `listAudit`
unfoldable pub concerns : String → Service → Audit → Bool
concerns user s e =
    e.actor == user
    || owns (lookup e.resource s.devices) user
    || elim (lookup e.resource s.sessions) [ none ↦ false | some v ↦ visible s v user ]

-- the loop, over the events from the newest on, with the room that is left
unfoldable pub collect : String → Service → ℕ → List Audit → List Audit
collect user s room [] = []
collect user s zero (e ∷ es) = []
collect user s (suc room) (e ∷ es) =
    let with_it = e ∷ collect user s room es in
    let without = collect user s (suc room) es in if concerns user s e then with_it else without

unfoldable pub list_audit : String → Service → Service × Reply
list_audit user s = (s, sent 200 (Body.events (collect user s 200 (reverse s.wire.audit))))
