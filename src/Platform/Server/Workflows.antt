-- ===== src/Platform/Server/Workflows.antt =====
-- server/internal/platform/workflows.go: workflows and their runs.
use Prim.Native.String.{len}
use multi_desk.Base.{ℕ, String, none, some, List, [], Bool, ◌||◌, ltb, if◌then◌else◌}
use multi_desk.Base.Text.{trim_space}
use multi_desk.Store.Types.{Workflow, WorkflowRun, ok, err}
use multi_desk.Store.Interface.{Backend}
use multi_desk.Platform.World.{World, random_id}
use multi_desk.Platform.State.{Reply, failed, sent, Body, Decoded, malformed, trailing, body}
use multi_desk.Platform.Session.Handlers.{bad_body, two_bodies}
use multi_desk.Platform.Server.{Server, or_keep, draw_of, draws, with_store, recorded}

pub record WorkflowQuery : Type 0 where
  pub name : String
  pub definition : List ℕ
  pub required_permissions : List String
  pub enabled : Bool

module _ {S : Type 0} (b : Backend S) (w : World) (now : ℕ) where
  -- `createWorkflow` for the trimmed name
  unfoldable pub create_titled :
      String → String → String → WorkflowQuery → Server S → Server S × Reply
  create_titled user org name q s =
      if ltb (len name) 2 || ltb 100 (len name)
      then (s, failed 400 "workflow name between 2 and 100 characters required")
      else let made : Workflow = record {
        id = random_id w (draw_of s) 16;
        organization_id = org;
        name = name;
        definition = q.definition;
        required_permissions = q.required_permissions;
        enabled = q.enabled;
        created_by = user;
      } in
        let t = draws 1 s in
        elim (b.create_workflow made t.store) [
          | err e ↦ (t, failed 500 "failed to create workflow")
          | ok st ↦ (
            recorded w now user "workflow.created" made.id (with_store t st),
            sent 201 (Body.workflow made),
          )
        ]

  unfoldable pub create_workflow :
      String → String → Decoded WorkflowQuery → Server S → Server S × Reply
  create_workflow user org malformed s = (s, bad_body)
  create_workflow user org trailing s = (s, two_bodies)
  create_workflow user org (body q) s = create_titled user org (trim_space q.name) q s

  unfoldable pub list_workflows : String → Server S → Server S × Reply
  list_workflows org s = elim (b.list_workflows org s.store) [
    | err e ↦ (s, sent 200 (Body.workflows []))
    | ok all ↦ (s, sent 200 (Body.workflows all))
  ]

  unfoldable pub run_workflow : String → String → String → Server S → Server S × Reply
  run_workflow user session workflow s =
      let started : WorkflowRun = record {
        id = random_id w (draw_of s) 16;
        workflow_id = workflow;
        session_id = session;
        approved_by = some user;
        state = "running";
        started_at = some now;
        finished_at = none;
      } in
      let t = draws 1 s in
      (
        recorded w now user "workflow.started" started.id
            (with_store t (or_keep t.store (b.create_workflow_run started t.store))),
        sent 202 (Body.workflow_run started),
      )

  unfoldable pub get_workflow_run : String → Server S → Server S × Reply
  get_workflow_run id s = elim (b.get_workflow_run id s.store) [
    | err e ↦ (s, failed 404 "workflow run not found")
    | ok r ↦ (s, sent 200 (Body.workflow_run r))
  ]
