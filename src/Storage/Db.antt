-- ===== src/Storage/Db.antt =====
-- The database behind services/core/pkg/storage/postgres, as the migrations in services/core/migrations
-- set it up: its tables by id, with the foreign keys that delete along. A statement that is not
-- answered changes nothing.
use aetherium.Base.{
  ◌≡◌, arith, Bool, true, false, not, Option, none, some, List, [], ◌∷◌, if◌then◌else◌, Result, ok,
  err, Text, text_eq, text_eq_iff, Map, lookup, insert, delete,
}
use aetherium.Storage.{
  VmRow, Execution, WorkerRow, Environment, Workspace, WorkspaceSecret, PrepStep, PromptTask,
  WorkspaceSession, SessionMessage,
}

pub record Db : Type 0 where
  pub vms : Map VmRow
  pub executions : Map Execution
  pub workers : Map WorkerRow
  pub environments : Map Environment
  pub workspaces : Map Workspace
  pub secrets : Map WorkspaceSecret
  pub prep_steps : Map PrepStep
  pub prompts : Map PromptTask
  pub sessions : Map WorkspaceSession
  pub messages : Map SessionMessage
  -- Which of the statements to come are not answered; none once the list is used up.
  pub faults : List Bool

pub data DbError : Type 0 where
  no_answer row_not_found duplicate_row missing_reference : DbError

-- Whether the next statement is answered.
unfoldable pub next_answer : Db → Bool × Db
next_answer db = elim db.faults [
  | [] ↦ (true, db)
  | fault ∷ rest ↦ (not fault, record db { faults = rest })
]

-- `ExecContext` and the check of the rows affected.
unfoldable pub execute : (Db → Result DbError Db) → Db → Option DbError × Db
unfolding next_answer
execute statement db =
    let (answered, db1) = next_answer db in
    if not answered
    then (some no_answer, db1)
    else elim (statement db1) [ err e ↦ (some e, db1) | ok db2 ↦ (none, db2) ]

-- `GetContext` and `SelectContext`.
unfoldable pub query : {A : Type 0} → (Db → Result DbError A) → Db → Result DbError A × Db
unfolding next_answer
query statement db =
    let (answered, db1) = next_answer db in
    if not answered then (err no_answer, db1) else (statement db1, db1)

module _ {V : Type 0} where
  -- The rows that do not satisfy the test.
  unfoldable pub without : (V → Bool) → Map V → Map V
  without test [] = []
  without test ((k, v) ∷ m) = if test v then without test m else (k, v) ∷ without test m

  unfoldable pub any_row : (V → Bool) → Map V → Bool
  any_row test [] = false
  any_row test ((k, v) ∷ m) = if test v then true else any_row test m

  unfoldable pub rows_where : (V → Bool) → Map V → List V
  rows_where test [] = []
  rows_where test ((k, v) ∷ m) = if test v then v ∷ rows_where test m else rows_where test m

  unfoldable pub row : Text → Map V → Result DbError V
  row id m = elim (lookup id m) [ none ↦ err row_not_found | some v ↦ ok v ]

  -- `UPDATE ... WHERE id = $1`, none if there is no such row.
  unfoldable pub change : Text → (V → V) → Map V → Result DbError (Map V)
  change id f m = elim (lookup id m) [ none ↦ err row_not_found | some v ↦ ok (insert id (f v) m) ]

  unfoldable pub has_row : Text → Map V → Bool
  has_row id m = elim (lookup id m) [ none ↦ false | some v ↦ true ]

abbrev pub points_to : Text → Option Text → Bool
points_to id none = false
points_to id (some k) = text_eq k id

module _ {V : Type 0} where
  unfoldable pub without_keys : (Text → Bool) → Map V → Map V
  without_keys gone [] = []
  without_keys gone ((k, v) ∷ m) =
      if gone k then without_keys gone m else (k, v) ∷ without_keys gone m

  pub lookup-without_keys :
      (gone : Text → Bool) (k : Text) (m : Map V)
      → lookup k (without_keys gone m) ≡ (if gone k then none else lookup k m)
  unfolding without_keys lookup
  lookup-without_keys gone k [] = ground arith
  lookup-without_keys gone k ((j, v) ∷ m) =
      ground (arith, text_eq_iff j k, lookup-without_keys gone k m)

-- `DELETE FROM workspaces` of the rows whose ids are gone, with what refers to them:
-- workspace_secrets, workspace_prep_steps, prompt_tasks, and workspace_sessions with their
-- session_messages.
unfoldable pub drop_workspaces : (Text → Bool) → Db → Db
drop_workspaces gone db = record db {
  workspaces = without_keys gone db.workspaces;
  secrets = without (λ s. elim s.workspace_id [ none ↦ false | some w ↦ gone w ]) db.secrets;
  prep_steps = without (λ s. gone s.workspace_id) db.prep_steps;
  prompts = without (λ p. gone p.workspace_id) db.prompts;
  sessions = without (λ s. gone s.workspace_id) db.sessions;
  messages =
      without
        (λ m. elim (lookup m.session_id db.sessions) [
          | none ↦ false
          | some s ↦ gone s.workspace_id
        ])
        db.messages;
}

-- Whether the workspace of that id is on the VM.
unfoldable pub on_vm : Text → Db → Text → Bool
on_vm vm_id db k = elim (lookup k db.workspaces) [ none ↦ false | some w ↦ points_to vm_id w.vm_id ]

-- `DELETE FROM vms`: the columns executions.vm_id and workspaces.vm_id delete along.
unfoldable pub drop_vm : Text → Db → Db
unfolding drop_workspaces on_vm
drop_vm vm_id db =
    let db1 = drop_workspaces (on_vm vm_id db) db in
    record db1 {
      vms = delete vm_id db1.vms;
      executions = without (λ e. points_to vm_id e.vm_id) db1.executions;
    }
