-- ===== src/Platform/Admission/Preserved.antt =====
-- The rate limit and the expiry before each handler keep the invariant of the sessions.
use multi_desk.Base.{ℕ, String, refl}
use multi_desk.Platform.World.{World}
use multi_desk.Platform.State.{Service, expired}
use multi_desk.Platform.Session.Invariant.{Inv}
use multi_desk.Platform.Session.Writes.{end_where-Inv}
use multi_desk.Platform.Admission.{is_overdue, expire, admit}

expire-Inv : (w : World) (now : ℕ) (s : Service) → Inv s → Inv (expire w now s)
unfolding expire
expire-Inv w now s i = end_where-Inv w now (is_overdue now) expired "system" s refl i

pub admit-Inv :
    (w : World) (now : ℕ) (host path : String) (s : Service)
    → Inv s
    → Inv (admit w now host path s).0
unfolding admit
admit-Inv w now host path s i = expire-Inv w now s i
