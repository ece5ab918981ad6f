-- ===== src/Store/Memory/Workflows.antt =====
-- Workflows and their runs of server/internal/store/memory.go.
use multi_desk.Base.{String, List, ◌==◌}
use multi_desk.Dict.{lookup, select_values}
use multi_desk.Store.Types.{Workflow, WorkflowRun, Result, ok, ◌>>=◌, or_not_found}
use multi_desk.Store.Memory.{Memory, create, replace}

unfoldable pub create_workflow : Workflow → Memory → Result Memory
create_workflow w m = do
  workflows ← create w.id w m.workflows
  ok (record m { workflows = workflows })

unfoldable pub get_workflow : String → Memory → Result Workflow
get_workflow id m = or_not_found (lookup id m.workflows)

unfoldable pub list_workflows : String → Memory → List Workflow
list_workflows org m = select_values (λ w. w.organization_id == org) m.workflows

unfoldable pub update_workflow : Workflow → Memory → Result Memory
update_workflow w m = do
  workflows ← replace w.id w m.workflows
  ok (record m { workflows = workflows })

unfoldable pub create_workflow_run : WorkflowRun → Memory → Result Memory
create_workflow_run r m = do wf_runs ← create r.id r m.wf_runs; ok (record m { wf_runs = wf_runs })

unfoldable pub get_workflow_run : String → Memory → Result WorkflowRun
get_workflow_run id m = or_not_found (lookup id m.wf_runs)

unfoldable pub update_workflow_run : WorkflowRun → Memory → Result Memory
update_workflow_run r m = do wf_runs ← replace r.id r m.wf_runs; ok (record m { wf_runs = wf_runs })
