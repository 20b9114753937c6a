-- ===== src/Storage/Lists.antt =====
-- The lists of services/core/pkg/storage/postgres, and the preparation step that is next. A table has its
-- rows in the order in which they were inserted, so that the newest come first in the reverse.
use aetherium.Base.{
  ℕ, Bool, true, ◌&&◌, leb, Option, none, some, List, [], ◌∷◌, reverse, take, if◌then◌else◌, Result,
  ok, Text, text, text_eq,
}
use aetherium.Storage.{
  VmRow, Execution, WorkerRow, Workspace, PrepStep, PromptTask, WorkspaceSession, SessionMessage,
}
use aetherium.Storage.Db.{Db, DbError, query, rows_where, points_to}
use aetherium.Storage.Workspaces.{first_where, order_by}

-- A filter that is not given lets every row pass.
abbrev pub matches : Option Text → Text → Bool
matches none t = true
matches (some f) t = text_eq f t

-- `LIMIT`, where the limit is positive.
abbrev pub limited : {A : Type 0} → ℕ → List A → List A
limited limit xs = if leb 1 limit then take limit xs else xs

unfoldable pub list_workspaces :
    (status ai_assistant : Option Text) (limit : ℕ) → Db → Result DbError (List Workspace) × Db
unfolding query rows_where
list_workspaces status ai_assistant limit db =
    query
      (λ d. ok (
        limited limit (
          reverse (
            rows_where (λ w. matches status w.status && matches ai_assistant w.ai_assistant)
              d.workspaces))))
      db

unfoldable pub list_workspaces_by_environment : Text → Db → Result DbError (List Workspace) × Db
unfolding query rows_where
list_workspaces_by_environment environment_id db =
    query
      (λ d. ok (reverse (rows_where (λ w. points_to environment_id w.environment_id) d.workspaces)))
      db

unfoldable pub list_vms :
    (orchestrator status worker_id : Option Text) (limit : ℕ)
    → Db
    → Result DbError (List VmRow) × Db
unfolding query rows_where
list_vms orchestrator status worker_id limit db =
    query
      (λ d. ok (
        limited limit (
          reverse (
            rows_where
              (λ v.
                matches orchestrator v.orchestrator
                && matches status v.status
                && (elim worker_id [ none ↦ true | some id ↦ points_to id v.worker_id ]))
              d.vms))))
      db

unfoldable pub get_vm_by_name : Text → Db → Result DbError VmRow × Db
unfolding query first_where rows_where
get_vm_by_name name db = query (λ d. first_where (rows_where (λ v. text_eq v.name name) d.vms)) db

-- The executions of a VM, the latest start first.
unfoldable pub list_executions_by_vm : Text → Db → Result DbError (List Execution) × Db
unfolding query rows_where order_by
list_executions_by_vm vm_id db =
    query
      (λ d. ok (
        reverse
          (order_by (λ e. e.started_at) (rows_where (λ e. points_to vm_id e.vm_id) d.executions))))
      db

unfoldable pub list_workers : Db → Result DbError (List WorkerRow) × Db
unfolding query rows_where
list_workers db = query (λ d. ok (reverse (rows_where (λ w. true) d.workers))) db

unfoldable pub list_workers_by_zone : Text → Db → Result DbError (List WorkerRow) × Db
unfolding query rows_where
list_workers_by_zone zone db =
    query (λ d. ok (reverse (rows_where (λ w. text_eq w.zone zone) d.workers))) db

unfoldable pub list_active_workers : Db → Result DbError (List WorkerRow) × Db
unfolding query rows_where
list_active_workers db =
    query (λ d. ok (reverse (rows_where (λ w. text_eq w.status (text "active")) d.workers))) db

-- A limit that is not positive is no limit.
unfoldable pub list_prompts : Text → ℕ → Db → Result DbError (List PromptTask) × Db
unfolding query rows_where
list_prompts workspace_id limit db =
    query
      (λ d.
        ok (
          limited limit
            (reverse (rows_where (λ p. text_eq p.workspace_id workspace_id) d.prompts))))
      db

unfoldable pub list_messages : Text → ℕ → Db → Result DbError (List SessionMessage) × Db
unfolding query rows_where
list_messages session_id limit db =
    query (λ d. ok (limited limit (rows_where (λ m. text_eq m.session_id session_id) d.messages)))
      db

unfoldable pub list_active_sessions : Text → Db → Result DbError (List WorkspaceSession) × Db
unfolding query rows_where
list_active_sessions workspace_id db =
    query
      (λ d. ok (
        reverse (
          rows_where (λ s. text_eq s.workspace_id workspace_id && text_eq s.status (text "active"))
            d.sessions)))
      db

-- The first of a list that is not empty: no row is no error here.
abbrev pub head : {A : Type 0} → List A → Option A
head [] = none
head (x ∷ xs) = some x

unfoldable pub next_pending_step : Text → Db → Result DbError (Option PrepStep) × Db
unfolding query rows_where order_by
next_pending_step workspace_id db =
    query
      (λ d. ok (
        head (
          order_by (λ s. s.step_order)
            (rows_where
              (λ s. text_eq s.workspace_id workspace_id && text_eq s.status (text "pending"))
              d.prep_steps))))
      db
