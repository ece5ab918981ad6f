-- ===== src/Platform/Wire/Laws.antt =====
-- The audit log stays within its limit.
use multi_desk.Base.{ℕ, ◌-◌, ◌≤◌, String, List, length, arith, length-drop}
use multi_desk.Platform.World.{World}
use multi_desk.Platform.State.{Wire, Audit}
use multi_desk.Platform.Wire.{record_audit, trim_audit, audit_limit}

length-trim_audit-le : (a : List Audit) → length (trim_audit a) ≤ audit_limit
unfolding trim_audit
length-trim_audit-le a = ground (arith, length-drop (length a - audit_limit) a)

-- The audit log after `record` holds at most ten thousand events.
length-record_audit-le :
    (w : World) (now : ℕ) (user action resource : String) (s : Wire)
    → length (record_audit w now user action resource s).audit ≤ audit_limit
unfolding record_audit
length-record_audit-le w now user action resource s = length-trim_audit-le _
