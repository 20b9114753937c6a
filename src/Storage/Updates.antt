-- ===== src/Storage/Updates.antt =====
-- Further statements of services/core/pkg/storage/postgres, on rows as a whole.
use aetherium.Base.{
  not, ◌&&◌, Option, none, some, [], ◌∷◌, if◌then◌else◌, Result, ok, err, Text, text_eq, Map,
  lookup, insert, delete,
}
use aetherium.Storage.{Workspace, WorkspaceSecret, PrepStep, VmRow, Execution, WorkerRow}
use aetherium.Storage.Db.{
  Db, DbError, row_not_found, duplicate_row, missing_reference, execute, query, without, any_row,
  row, change, has_row, points_to,
}
use aetherium.Storage.Secrets.{same_owner}
use aetherium.Storage.Workspaces.{refers}

-- Every column but the environment and the time of idleness. The name stays unique, and the VM has a row.
unfoldable pub change_workspace : Workspace → Db → Result DbError Db
unfolding change any_row refers
change_workspace w db =
    let renamed =
      change w.id
        (λ old. record w { environment_id = old.environment_id; idle_since = old.idle_since })
        db.workspaces in
    elim renamed [
      | err e ↦ err e
      | ok rows ↦
          if any_row (λ x. text_eq x.name w.name && not (text_eq x.id w.id)) db.workspaces
          then err duplicate_row
          else if refers w.vm_id db.vms
          then ok (record db { workspaces = rows })
          else err missing_reference
    ]

unfoldable pub update_workspace : Workspace → Db → Option DbError × Db
unfolding execute change_workspace
update_workspace w db = execute (change_workspace w) db

-- Every column but the workspace, in which the name stays unique.
unfoldable pub change_secret : WorkspaceSecret → Db → Result DbError Db
unfolding any_row
change_secret s db = elim (lookup s.id db.secrets) [
  | none ↦ err row_not_found
  | some old ↦
      if any_row
        (λ x.
          same_owner x.workspace_id old.workspace_id
          && text_eq x.name s.name
          && not (text_eq x.id s.id))
        db.secrets
      then err duplicate_row
      else ok (record db {
        secrets = insert s.id (record s { workspace_id = old.workspace_id }) db.secrets;
      })
]

unfoldable pub update_secret : WorkspaceSecret → Db → Option DbError × Db
unfolding execute change_secret
update_secret s db = execute (change_secret s) db

unfoldable pub get_step : Text → Db → Result DbError PrepStep × Db
unfolding query row
get_step id db = query (λ d. row id d.prep_steps) db

-- The messages of the session go along.
unfoldable pub drop_session : Text → Db → Result DbError Db
unfolding has_row without
drop_session id db =
    if has_row id db.sessions
    then ok (record db {
      sessions = delete id db.sessions;
      messages = without (λ m. text_eq m.session_id id) db.messages;
    })
    else err row_not_found

unfoldable pub delete_session : Text → Db → Option DbError × Db
unfolding execute drop_session
delete_session id db = execute (drop_session id) db

-- Every column but the worker.
unfoldable pub change_vm : VmRow → Db → Result DbError Db
unfolding any_row
change_vm v db = elim (lookup v.id db.vms) [
  | none ↦ err row_not_found
  | some old ↦
      if any_row (λ x. text_eq x.name v.name && not (text_eq x.id v.id)) db.vms
      then err duplicate_row
      else ok (record db { vms = insert v.id (record v { worker_id = old.worker_id }) db.vms })
]

unfoldable pub update_vm : VmRow → Db → Option DbError × Db
unfolding execute change_vm
update_vm v db = execute (change_vm v) db

unfoldable pub get_execution : Text → Db → Result DbError Execution × Db
unfolding query row
get_execution id db = query (λ d. row id d.executions) db

unfoldable pub get_worker : Text → Db → Result DbError WorkerRow × Db
unfolding query row
get_worker id db = query (λ d. row id d.workers) db

-- The VMs of a worker that is deleted have none.
unfoldable pub orphaned : Text → Map VmRow → Map VmRow
orphaned id [] = []
orphaned id ((k, v) ∷ m) =
    (k, if points_to id v.worker_id then record v { worker_id = none } else v) ∷ orphaned id m

unfoldable pub drop_worker : Text → Db → Result DbError Db
unfolding has_row orphaned
drop_worker id db =
    if has_row id db.workers
    then ok (record db { workers = delete id db.workers; vms = orphaned id db.vms })
    else err row_not_found

unfoldable pub delete_worker : Text → Db → Option DbError × Db
unfolding execute drop_worker
delete_worker id db = execute (drop_worker id) db
