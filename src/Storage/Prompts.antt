-- ===== src/Storage/Prompts.antt =====
-- promptTaskRepository of services/core/pkg/storage/postgres/workspaces.go.
use aetherium.Base.{
  ℕ, Option, none, some, if◌then◌else◌, Result, ok, err, Text, text, text_eq, lookup, insert,
}
use aetherium.Storage.{PromptTask, PromptResult}
use aetherium.Storage.Db.{
  Db, DbError, row_not_found, duplicate_row, missing_reference, execute, query, row, change,
  has_row,
}

unfoldable pub insert_prompt : PromptTask → Db → Result DbError Db
unfolding has_row
insert_prompt p db =
    if has_row p.id db.prompts
    then err duplicate_row
    else if has_row p.workspace_id db.workspaces
    then ok (record db { prompts = insert p.id p db.prompts })
    else err missing_reference

-- The columns that are not inserted are NULL.
unfoldable pub create : PromptTask → Db → Option DbError × Db
unfolding execute insert_prompt
create p db =
    let inserted = record p {
      exit_code = none;
      stdout = none;
      stderr = none;
      error = none;
      started_at = none;
      completed_at = none;
      duration_ms = none;
    } in
    execute (insert_prompt inserted) db

unfoldable pub get : Text → Db → Result DbError PromptTask × Db
unfolding query row
get id db = query (λ d. row id d.prompts) db

unfoldable pub changed : Text → (PromptTask → PromptTask) → Db → Result DbError Db
unfolding change
changed id f db = elim (change id f db.prompts) [
  | err e ↦ err e
  | ok rows ↦ ok (record db { prompts = rows })
]

unfoldable pub with_status : ℕ → Text → Option PromptResult → PromptTask → PromptTask
with_status now status none p = record p { status = status; started_at = some now }
with_status now status (some r) p = record p {
  status = status;
  exit_code = some r.exit_code;
  stdout = some r.stdout;
  stderr = some r.stderr;
  error = some r.error;
  completed_at = some now;
  duration_ms = some r.duration_ms;
}

unfoldable pub update_status : ℕ → Text → Text → Option PromptResult → Db → Option DbError × Db
unfolding execute changed with_status
update_status now id status result db = execute (changed id (with_status now status result)) db

-- `WHERE id = $1 AND status = 'pending'`.
unfoldable pub cancel_prompt : Text → Db → Result DbError Db
cancel_prompt id db = elim (lookup id db.prompts) [
  | none ↦ err row_not_found
  | some p ↦
      if text_eq p.status (text "pending")
      then ok
          (record db { prompts = insert id (record p { status = text "cancelled" }) db.prompts })
      else err row_not_found
]

unfoldable pub cancel : Text → Db → Option DbError × Db
unfolding execute cancel_prompt
cancel id db = execute (cancel_prompt id) db
