-- ===== src/Store/Memory/Log.antt =====
-- The audit log and the presence of server/internal/store/memory.go.
pub mod Laws
use mathlib.Core.List.{reverse}
use multi_desk.Base.{
  ℕ, zero, suc, ◌+◌, ◌-◌, String, Option, none, some, List, [], ◌∷◌, ◌++◌, Bool, false, ◌==◌, ltb,
  length, drop, if◌then◌else◌,
}
use multi_desk.Dict.{Dict, lookup, insert}
use multi_desk.Store.Types.{AuditEvent}
use multi_desk.Store.Memory.{Memory}

abbrev pub audit_limit : ℕ
audit_limit = 10000

-- The newest ten thousand events are kept.
unfoldable pub create_audit : AuditEvent → Memory → Memory
create_audit e m =
    let audit = m.audit ++ e ∷ [] in
    record m {
      audit =
          if ltb audit_limit (length audit) then drop (length audit - audit_limit) audit else audit;
    }

-- the loop of `ListAudit`, over the events from the newest on, with the room that is left
unfoldable pub collect_audit : String → ℕ → List AuditEvent → List AuditEvent
collect_audit actor room [] = []
collect_audit actor zero (e ∷ es) = []
collect_audit actor (suc room) (e ∷ es) =
    let with_it = e ∷ collect_audit actor room es in
    let without = collect_audit actor (suc room) es in
    if e.actor_id == actor then with_it else without

unfoldable pub list_audit : String → ℕ → Memory → List AuditEvent
list_audit actor limit m = collect_audit actor limit (reverse m.audit)

unfoldable pub set_online : ℕ → String → ℕ → Memory → Memory
set_online now device ttl m = record m { online = insert device (now + ttl) m.online }

unfoldable pub is_online : ℕ → String → Memory → Bool
is_online now device m = elim (lookup device m.online) [ none ↦ false | some e ↦ ltb now e ]
