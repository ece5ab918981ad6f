-- ===== src/Store/Postgres/Workflows.antt =====
-- Workflows and their runs of `PostgresStore` in server/internal/store/postgres.go. The texts of the statements are the
-- source's, with single blanks.
use multi_desk.Base.{String, Option, List, [], ◌∷◌}
use multi_desk.Store.Types.{Workflow, WorkflowRun, Error, Result}
use multi_desk.Store.Postgres.Database.{
  Database, text, bytes, flag, texts, run, or_conflict, or_none_affected, scanned, collected,
}
use multi_desk.Store.Postgres.Rows.{of_time, of_text, workflow_row, run_row}

module _ {D : Type 0} (db : Database D) where
  unfoldable pub create_workflow : Workflow → D → D × Option Error
  create_workflow w d =
      run db or_conflict
        "INSERT INTO workflows (id, organization_id, name, definition, required_permissions, enabled, created_by) VALUES ($1,$2,$3,$4,$5,$6,$7)"
        (text w.id
          ∷ text w.organization_id
          ∷ text w.name
          ∷ bytes w.definition
          ∷ texts w.required_permissions
          ∷ flag w.enabled
          ∷ text w.created_by
          ∷ [])
        d

  unfoldable pub get_workflow : String → D → Result Workflow
  get_workflow id d = scanned workflow_row (
      db.query_row
        "SELECT id, organization_id, name, definition, required_permissions, enabled, created_by FROM workflows WHERE id = $1"
        (text id ∷ []) d)

  unfoldable pub list_workflows : String → D → Result (List Workflow)
  list_workflows org d = collected workflow_row (
      db.query
        "SELECT id, organization_id, name, definition, required_permissions, enabled, created_by FROM workflows WHERE organization_id = $1 ORDER BY name"
        (text org ∷ []) d)

  unfoldable pub update_workflow : Workflow → D → D × Option Error
  update_workflow w d =
      run db or_none_affected
        "UPDATE workflows SET name=$1, definition=$2, required_permissions=$3, enabled=$4 WHERE id=$5"
        (text w.name
          ∷ bytes w.definition
          ∷ texts w.required_permissions
          ∷ flag w.enabled
          ∷ text w.id
          ∷ [])
        d

  unfoldable pub create_workflow_run : WorkflowRun → D → D × Option Error
  create_workflow_run r d =
      run db or_conflict
        "INSERT INTO workflow_runs (id, workflow_id, session_id, approved_by, state, started_at) VALUES ($1,$2,$3,$4,$5,$6)"
        (text r.id
          ∷ text r.workflow_id
          ∷ text r.session_id
          ∷ of_text r.approved_by
          ∷ text r.state
          ∷ of_time r.started_at
          ∷ [])
        d

  unfoldable pub get_workflow_run : String → D → Result WorkflowRun
  get_workflow_run id d = scanned run_row (
      db.query_row
        "SELECT id, workflow_id, session_id, approved_by, state, started_at, finished_at FROM workflow_runs WHERE id = $1"
        (text id ∷ []) d)

  unfoldable pub update_workflow_run : WorkflowRun → D → D × Option Error
  update_workflow_run r d =
      run db or_none_affected
        "UPDATE workflow_runs SET state=$1, approved_by=$2, started_at=$3, finished_at=$4 WHERE id=$5"
        (text r.state
          ∷ of_text r.approved_by
          ∷ of_time r.started_at
          ∷ of_time r.finished_at
          ∷ text r.id
          ∷ [])
        d
