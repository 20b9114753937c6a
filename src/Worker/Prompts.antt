-- ===== src/Worker/Prompts.antt =====
-- HandlePromptExecute of services/core/pkg/worker/workspace_handlers.go, with the VM that it makes on
-- demand.
pub mod Spawn
pub mod Status
pub mod Furnish
use aetherium.Base.{
  ℕ, ◌-◌, Bool, true, false, not, ◌==◌, Option, none, some, List, [], ◌∷◌, ◌++◌, if◌then◌else◌,
  Result, ok, err, Text, text, text_eq, itoa, Action, ◌>>=◌, ◌>>◌, pure,
}
use aetherium.Storage.{Json, string, number, Workspace, PromptTask, PromptResult, Environment}
use aetherium.Storage.Db.{Db, DbError}
use aetherium.Storage.Prompts as PromptTable
use aetherium.Storage.Vms as VmTable
use aetherium.Storage.Workspaces as WorkspaceTable
use aetherium.Worker.{
  Command, ExecResult, Backend, World, HandlerError, invalid_payload, invalid_workspace_id,
  invalid_prompt_id, prompt_not_found, workspace_not_found, Outcome, on_db, on_host, the_time,
  failure, success,
}
use aetherium.Worker.Shell.{inner_cmd, ai_cmd}
use Spawn.{McpSettings, spawn_environment_vm}

-- The ids in the payload.
pub record PromptExecutePayload : Type 0 where
  pub prompt_id : Text
  pub workspace_id : Text

abbrev pub error_result : Text → PromptResult
error_result e = record { exit_code = 0; stdout = []; stderr = []; error = e; duration_ms = 0 }

-- The stderr and the stdout that are not empty, behind the exit code.
unfoldable pub failure_message : ExecResult → Text
failure_message r =
    (text "prompt execution failed with exit code " ++ itoa r.exit_code)
    ++ ((if text_eq r.stderr [] then [] else text "\nStderr: " ++ r.stderr)
        ++ (if text_eq r.stdout [] then [] else text "\nStdout: " ++ r.stdout))

unfoldable pub prompt_result : ℕ → ExecResult → PromptResult
unfolding failure_message
prompt_result duration r = record {
  exit_code = r.exit_code;
  stdout = r.stdout;
  stderr = r.stderr;
  error = if r.exit_code == 0 then [] else failure_message r;
  duration_ms = duration;
}

abbrev pub status_after : ExecResult → Text
status_after r = if r.exit_code == 0 then text "completed" else text "failed"

-- The prompt's own directory, if it has one.
abbrev pub directory : Workspace → PromptTask → Text
directory w p = elim p.working_directory [
  | none ↦ w.working_directory
  | some d ↦ if text_eq d [] then w.working_directory else d
]

unfoldable pub prompt_command : Workspace → PromptTask → Command
unfolding inner_cmd ai_cmd
prompt_command w p =
    let dir = directory w p in
    record {
      cmd = text "bash";
      args = text "-c" ∷ ai_cmd dir (inner_cmd w.ai_assistant dir p.prompt) ∷ [];
    }

-- A task, its time of start, and the ids of its payload.
module _ {W : Type 0} (b : Backend W) (mcp : McpSettings) (task_id : Text) (started : ℕ)
    (prompt_id workspace_id : Text) where
  -- The prompt is marked as failed, with the message that the task fails with.
  unfoldable pub fail_prompt : Text → Action (World W) Outcome
  fail_prompt message = do
    now ← the_time b
    on_db (PromptTable.update_status now prompt_id (text "failed") (some (error_result message)))
    failure b task_id started message

  -- A failed run has its results too, and no error.
  unfoldable pub prompt_outcome : ExecResult → Action (World W) Outcome
  prompt_outcome r s = (
    ok (record {
      task_id = task_id;
      success = r.exit_code == 0;
      result =
          (text "prompt_id", string prompt_id)
          ∷ (text "workspace_id", string workspace_id)
          ∷ (text "exit_code", number r.exit_code)
          ∷ (text "stdout", string r.stdout)
          ∷ (text "stderr", string r.stderr)
          ∷ [];
      error = [];
      duration = b.now s.host - started;
      started_at = started;
    }),
    s,
  )

  unfoldable pub conclude : ExecResult → Action (World W) Outcome
  unfolding prompt_result prompt_outcome
  conclude r = do
    now ← the_time b
    on_db (
        PromptTable.update_status now prompt_id (status_after r)
          (some (prompt_result (now - started) r)))
    on_db (WorkspaceTable.update_idle_since workspace_id (some now))
    prompt_outcome r

  unfoldable pub after_run : Result Text ExecResult → Action (World W) Outcome
  unfolding fail_prompt conclude
  after_run (err e) = fail_prompt e
  after_run (ok r) = conclude r

  unfoldable pub run_prompt : PromptTask → Workspace → Text → Action (World W) Outcome
  unfolding prompt_command after_run
  run_prompt p w vm_id = do
    on_db (WorkspaceTable.update_idle_since workspace_id none)
    now ← the_time b
    on_db (PromptTable.update_status now prompt_id (text "running") none)
    on_host (b.execute_command vm_id (prompt_command w p)) >>= after_run

  unfoldable pub after_spawn : PromptTask → Workspace → Result Text Text → Action (World W) Outcome
  unfolding run_prompt fail_prompt
  after_spawn p w (err e) =
      on_db (WorkspaceTable.update_status workspace_id (text "failed"))
      >> fail_prompt (text "failed to spawn VM: " ++ e)
  after_spawn p w (ok vm_id) = do
    now ← the_time b
    on_db (WorkspaceTable.set_ready now workspace_id)
    run_prompt p w vm_id

  unfoldable pub spawn_for_prompt :
      PromptTask → Workspace → Result DbError Environment → Action (World W) Outcome
  unfolding after_spawn fail_prompt
  spawn_for_prompt p w (err e) = fail_prompt (text "failed to get environment")
  spawn_for_prompt p w (ok env) = do
    on_db (WorkspaceTable.update_status workspace_id (text "spawning"))
    spawn_environment_vm b mcp w env >>= after_spawn p w

  unfoldable pub spawn_and_run : PromptTask → Workspace → Option Text → Action (World W) Outcome
  unfolding spawn_for_prompt fail_prompt
  spawn_and_run p w none =
      fail_prompt (text "workspace has no VM and no environment template configured")
  spawn_and_run p w (some env_id) = on_db (VmTable.get_environment env_id) >>= spawn_for_prompt p w

  unfoldable pub run_on : PromptTask → Workspace → Option Text → Action (World W) Outcome
  unfolding spawn_and_run run_prompt
  run_on p w none = spawn_and_run p w w.environment_id
  run_on p w (some vm_id) = run_prompt p w vm_id

  unfoldable pub execute_prompt : PromptTask → Workspace → Action (World W) Outcome
  unfolding run_on
  execute_prompt p w = run_on p w w.vm_id

  unfoldable pub with_workspace : PromptTask → Result DbError Workspace → Action (World W) Outcome
  unfolding execute_prompt
  with_workspace p (err e) = pure (err workspace_not_found)
  with_workspace p (ok w) = execute_prompt p w

  unfoldable pub with_prompt : Result DbError PromptTask → Action (World W) Outcome
  unfolding with_workspace
  with_prompt (err e) = pure (err prompt_not_found)
  with_prompt (ok p) = on_db (WorkspaceTable.get workspace_id) >>= with_workspace p

module _ {W : Type 0} (b : Backend W) (mcp : McpSettings) where
  unfoldable pub handle_prompt : Text → Text → Text → Action (World W) Outcome
  unfolding with_prompt
  handle_prompt task_id prompt_id workspace_id = do
    started ← the_time b
    on_db (PromptTable.get prompt_id) >>= with_prompt b mcp task_id started prompt_id workspace_id

  unfoldable pub handle_prompt_execute :
      Text → Option PromptExecutePayload → Action (World W) Outcome
  unfolding handle_prompt
  handle_prompt_execute task_id none = pure (err invalid_payload)
  handle_prompt_execute task_id (some payload) = elim (b.parse_id payload.prompt_id) [
    | none ↦ pure (err invalid_prompt_id)
    | some prompt_id ↦ elim (b.parse_id payload.workspace_id) [
      | none ↦ pure (err invalid_workspace_id)
      | some workspace_id ↦ handle_prompt task_id prompt_id workspace_id
    ]
  ]
