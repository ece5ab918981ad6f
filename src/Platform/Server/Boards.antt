-- ===== src/Platform/Server/Boards.antt =====
-- The handlers that use the store leave devices and sessions alone.
pub mod Email
pub mod Stored
use multi_desk.Base.{◌≡◌}
use multi_desk.Platform.State.{Reply}
use multi_desk.Platform.Moves.{board}
use multi_desk.Platform.Server.{Server}

-- Of the result of a handler: its devices and sessions are the given ones.
abbrev pub KeepsBoard : {S : Type 0} → Server S → Server S × Reply → Type 0
KeepsBoard s o = board (o.0.service) ≡ board (s.service)
