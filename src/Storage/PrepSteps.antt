-- ===== src/Storage/PrepSteps.antt =====
-- prepStepRepository of services/core/pkg/storage/postgres/workspaces.go.
use aetherium.Base.{
  ℕ, Option, none, some, List, [], ◌∷◌, if◌then◌else◌, Result, ok, err, Text, text_eq, insert,
}
use aetherium.Storage.{PrepStep, PrepStepResult}
use aetherium.Storage.Db.{
  Db, DbError, duplicate_row, missing_reference, execute, query, rows_where, change, has_row,
}
use aetherium.Storage.Workspaces.{order_by}

unfoldable pub insert_step : PrepStep → Db → Result DbError Db
unfolding has_row
insert_step s db =
    if has_row s.id db.prep_steps
    then err duplicate_row
    else if has_row s.workspace_id db.workspaces
    then ok (record db { prep_steps = insert s.id s db.prep_steps })
    else err missing_reference

unfoldable pub create : PrepStep → Db → Option DbError × Db
unfolding execute insert_step
create s db =
    let inserted = record s {
      exit_code = none;
      stdout = none;
      stderr = none;
      error = none;
      started_at = none;
      completed_at = none;
      duration_ms = none;
    } in
    execute (insert_step inserted) db

-- One statement for each step, up to the first that fails.
unfoldable pub create_batch : List PrepStep → Db → Option DbError × Db
unfolding create
create_batch [] db = (none, db)
create_batch (s ∷ rest) db =
    let (failure, db1) = create s db in
    let others = create_batch rest db1 in elim failure [ none ↦ others | some e ↦ (some e, db1) ]

unfoldable pub list_by_workspace : Text → Db → Result DbError (List PrepStep) × Db
unfolding query rows_where order_by
list_by_workspace workspace_id db =
    query
      (λ d. ok (
        order_by (λ s. s.step_order)
          (rows_where (λ s. text_eq s.workspace_id workspace_id) d.prep_steps)))
      db

unfoldable pub with_status : ℕ → Text → Option PrepStepResult → PrepStep → PrepStep
with_status now status none s = record s { status = status; started_at = some now }
with_status now status (some r) s = record s {
  status = status;
  exit_code = some r.exit_code;
  stdout = some r.stdout;
  stderr = some r.stderr;
  error = some r.error;
  completed_at = some now;
  duration_ms = some r.duration_ms;
}

unfoldable pub update_status : ℕ → Text → Text → Option PrepStepResult → Db → Option DbError × Db
unfolding execute change with_status
update_status now id status result db =
    execute
      (λ d. elim (change id (with_status now status result) d.prep_steps) [
        | err e ↦ err e
        | ok rows ↦ ok (record d { prep_steps = rows })
      ])
      db
