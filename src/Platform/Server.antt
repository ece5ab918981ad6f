-- ===== src/Platform/Server.antt =====
-- The service with its store and its mailer: the fields `store` and `mailer` of `Service` in
-- server/internal/platform/service.go, and `recordEvent`. The handlers that use the store stand in
-- the modules below.
pub mod Mail
pub mod Passwords
pub mod Email
pub mod TwoFactor
pub mod Teams
pub mod Workflows
pub mod Analysis
pub mod Boards
pub mod Step
use multi_desk.Base.{ℕ, ◌+◌, String, none, List, [], ◌∷◌, ◌++◌}
use multi_desk.Store.Types.{AuditEvent, Result, ok, err}
use multi_desk.Store.Interface.{Backend}
use multi_desk.Platform.World.{World, random_id}
use multi_desk.Platform.State.{Service}
use multi_desk.Platform.Auth.{drawn, logged}

-- what a mailer is asked to send
pub record Letter : Type 0 where
  pub to : String
  pub subject : String
  pub text : String

pub record Server (S : Type 0) : Type 0 where
  pub service : Service
  pub store : S
  pub mailed : List Letter

-- `_ = s.store.Method(...)`: where the method returns an error, nothing has changed
unfoldable pub or_keep : {S : Type 0} → S → Result S → S
or_keep s (ok t) = t
or_keep s (err e) = s

module _ {S : Type 0} where
  -- the next read of the random source
  abbrev pub draw_of : Server S → ℕ
  draw_of s = s.service.wire.draws

  abbrev pub draws : ℕ → Server S → Server S
  draws n s = record s { service = drawn n s.service }

  abbrev pub with_store : Server S → S → Server S
  with_store s t = record s { store = t }

  -- `s.record(actor, action, resource)`
  abbrev pub recorded : World → ℕ → String → String → String → Server S → Server S
  recorded w now actor action resource s = record s {
    service = logged w now actor action resource s.service;
  }

  -- `s.mailer.Send(to, subject, body)`: the callers go on whatever it returns
  abbrev pub posted : String → String → String → Server S → Server S
  posted to subject text s = record s {
    mailed = s.mailed ++ record { to = to; subject = subject; text = text } ∷ [];
  }

  -- `recordEvent`
  unfoldable pub record_event :
      Backend S → World → ℕ → String → String → String → Server S → Server S
  record_event b w now actor action resource s =
      let t = recorded w now actor action resource s in
      with_store (draws 1 t) (
        or_keep t.store (
          b.create_audit
            (record {
              id = random_id w (draw_of t) 12;
              actor_id = actor;
              organization_id = none;
              action = action;
              resource_id = resource;
              metadata = [];
              occurred_at = now;
            })
            t.store))
