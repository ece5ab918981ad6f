-- ===== src/Platform/Server/Analysis.antt =====
-- server/internal/platform/ai.go: the analysis of a session by an external service. What that service
-- answers is an argument.
use Prim.Native.String.{◌++◌, len}
use multi_desk.Base.{ℕ, String, List, [], ◌∷◌, ◌||◌, ◌==◌, ltb, num_eq, if◌then◌else◌}
use multi_desk.Base.Text.{trim_space}
use multi_desk.Platform.World.{World}
use multi_desk.Platform.State.{Reply, failed, sent, Body, Decoded, malformed, trailing, body}
use multi_desk.Platform.Session.Handlers.{bad_body, two_bodies}
use multi_desk.Platform.Server.{Server, recorded}

pub record Question : Type 0 where
  pub prompt : String
  pub context : String

-- What the call of the service comes to: no request can be made, the service fails or answers with a
-- status other than 200, the answer does not decode, or it decodes with so many choices.
pub data Upstream : Type 0 where
  unsendable : Upstream
  unreachable : Upstream
  unreadable : Upstream
  choices : List String → Upstream

-- the text that the user's message to the service holds
unfoldable pub user_message : Question → String
user_message q = "Context:\n" ++ (q.context ++ ("\n\nQuestion:\n" ++ q.prompt))

abbrev pub nominal : String
nominal =
    "MuiltDesk Diagnostic Assistant: Session is active. No performance anomalies detected on device telemetry. Network latency is nominal."

abbrev pub steps : List String
steps =
    "Verify target device display DPI and monitor configuration"
    ∷ "Ensure background update bandwidth does not exceed allocated budget"
    ∷ "Review recent session audit logs for unexpected permission changes" ∷ []

module _ {S : Type 0} (w : World) (now : ℕ) where
  -- the answer of the service, from the test of the choices on
  unfoldable pub answered : String → String → Upstream → Server S → Server S × Reply
  answered user id unsendable s = (s, failed 500 "failed to create upstream AI request")
  answered user id unreachable s = (s, failed 502 "upstream AI provider error")
  answered user id unreadable s = (s, failed 502 "invalid response from AI provider")
  answered user id (choices []) s = (s, failed 502 "invalid response from AI provider")
  answered user id (choices (text ∷ more)) s = (
    recorded w now user "session.ai_analyzed" id s,
    sent 200 (Body.analysis (trim_space text) [] 98 (w.rfc3339 now)),
  )

  -- `analyzeSessionWithAI` for a decoded question; `ask` is the call of the service with the given key
  unfoldable pub analyze :
      String
      → (ask : String → String → Upstream) → String
      → String
      → Question
      → Server S
      → Server S × Reply
  analyze api_key ask user id q s =
      if num_eq (len q.prompt) 0 || ltb 2048 (len q.prompt) || ltb 4096 (len q.context)
      then (s, failed 400 "prompt (1-2048 bytes) and context (max 4096 bytes) required")
      else if api_key == ""
      then (
        recorded w now user "session.ai_analyzed" id s,
        sent 200 (Body.analysis nominal steps 95 (w.rfc3339 now)),
      )
      else answered user id (ask api_key (user_message q)) s

  unfoldable pub analyze_session :
      String
      → (ask : String → String → Upstream) → String
      → String
      → Decoded Question
      → Server S
      → Server S × Reply
  analyze_session api_key ask user id q s =
      if id == "" then (s, failed 400 "session ID required") else elim q [
        | malformed ↦ (s, bad_body)
        | trailing ↦ (s, two_bodies)
        | body question ↦ analyze api_key ask user id question s
      ]
