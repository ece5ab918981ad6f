-- ===== src/Platform/Moves/Admission.antt =====
-- The rate limit and the expiry before each handler as moves.
use multi_desk.Base.{ℕ, String, refl}
use multi_desk.Platform.World.{World}
use multi_desk.Platform.State.{Service, expired}
use multi_desk.Platform.Moves.{Board, board, Moves}
use multi_desk.Platform.Moves.Sessions.{end_where-Moves}
use multi_desk.Platform.Admission.{is_overdue, expire, admit}

pub admit-Moves :
    (w : World) (now : ℕ) (a : Board) (host path : String) (s : Service)
    → Moves a (board s)
    → Moves a (board (admit w now host path s).0)
unfolding expire admit
admit-Moves w now a host path s m =
    end_where-Moves w now a (is_overdue now) expired "system" s refl m
