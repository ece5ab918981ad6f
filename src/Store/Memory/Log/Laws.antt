-- ===== src/Store/Memory/Log/Laws.antt =====
-- The audit log of the store keeps to its bound and lists what was asked for; presence lasts for its
-- time to live.
use mathlib.Core.List.{reverse}
use multi_desk.Base.{
  ℕ, zero, suc, ◌+◌, ◌-◌, ◌≤◌, String, List, [], ◌∷◌, ◌++◌, true, ◌==◌, ltb, length, all,
  if◌then◌else◌, ◌≡◌, refl, arith, length-drop,
}
use multi_desk.Dict.Laws.{lookup-insert}
use multi_desk.Store.Types.{AuditEvent}
use multi_desk.Store.Memory.{Memory}
use multi_desk.Store.Memory.Log.{
  audit_limit, create_audit, collect_audit, list_audit, set_online, is_online,
}

-- The log of the store holds at most ten thousand events after an event is added.
length-create_audit-le :
    (e : AuditEvent) (m : Memory) → length (create_audit e m).audit ≤ audit_limit
unfolding create_audit
length-create_audit-le e m =
    ground (arith, length-drop (length (m.audit ++ e ∷ []) - audit_limit) (m.audit ++ e ∷ []))

length-collect_audit-le :
    (actor : String) (room : ℕ) (es : List AuditEvent) → length (collect_audit actor room es) ≤ room
unfolding collect_audit
length-collect_audit-le actor room [] = omega arith
length-collect_audit-le actor zero (e ∷ es) = omega arith
length-collect_audit-le actor (suc room) (e ∷ es) =
    ground
      (arith, length-collect_audit-le actor room es, length-collect_audit-le actor (suc room) es)

all-collect_audit :
    (actor : String) (room : ℕ) (es : List AuditEvent)
    → all (λ e. e.actor_id == actor) (collect_audit actor room es) ≡ true
unfolding collect_audit
all-collect_audit actor room [] = refl
all-collect_audit actor zero (e ∷ es) = refl
all-collect_audit actor (suc room) (e ∷ es) =
    ground (arith, all-collect_audit actor room es, all-collect_audit actor (suc room) es)

-- `ListAudit` returns at most as many events as asked for, and only events of the actor.
list_audit-bounds :
    (actor : String) (limit : ℕ) (m : Memory)
    → (length (list_audit actor limit m) ≤ limit)
      × (all (λ e. e.actor_id == actor) (list_audit actor limit m) ≡ true)
unfolding list_audit
list_audit-bounds actor limit m = (
  length-collect_audit-le actor limit (reverse m.audit),
  all-collect_audit actor limit (reverse m.audit),
)

-- A device that was set online is online for exactly the time to live, and setting it changes no
-- other device's presence.
pub set_online-is_online :
    (now ttl later : ℕ) (device other : String) (m : Memory)
    → is_online later other (set_online now device ttl m)
      ≡ (if device == other then ltb later (now + ttl) else is_online later other m)
unfolding set_online is_online
set_online-is_online now ttl later device other m =
    ground (arith, lookup-insert device other (now + ttl) m.online)
