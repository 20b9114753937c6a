-- ===== src/Service/Prompts.antt =====
-- SubmitPrompt and CancelPrompt of services/core/pkg/service/workspace_service.go.
pub mod Submission
use aetherium.Base.{
  ℕ, ◌*◌, Bool, true, false, ◌==◌, Option, none, some, List, [], ◌∷◌, if◌then◌else◌, Result, ok,
  err, Text, text, text_eq, Map, Action, ◌>>=◌, ◌>>◌, pure,
}
use aetherium.Storage.{Json, string, Workspace, PromptTask}
use aetherium.Storage.Db.{Db, DbError}
use aetherium.Storage.Prompts as PromptTable
use aetherium.Storage.Workspaces as WorkspaceTable
use aetherium.Worker.Prompts.{error_result}
use aetherium.Queue.{Task, TaskOptions, minute}
use aetherium.Service.{Client, Site, string_ptr, on_db, on_host, the_time, enqueue}
use aetherium.Service.Secrets.{or_default}

pub record SubmitPromptRequest : Type 0 where
  pub prompt : Text
  pub system_prompt : Text
  pub working_directory : Text
  pub environment : Map Json
  pub priority : ℕ

unfoldable pub new_prompt :
    (id workspace_id : Text) → Workspace → ℕ → SubmitPromptRequest → PromptTask
new_prompt id workspace_id w priority req = record {
  id = id;
  workspace_id = workspace_id;
  prompt = req.prompt;
  system_prompt = string_ptr req.system_prompt;
  working_directory = string_ptr (or_default req.working_directory w.working_directory);
  environment = req.environment;
  priority = priority;
  status = text "pending";
  exit_code = none;
  stdout = none;
  stderr = none;
  error = none;
  started_at = none;
  completed_at = none;
  duration_ms = none;
}

unfoldable pub prompt_task : Text → Text → Text → ℕ → Task
prompt_task id prompt_id workspace_id priority = record {
  id = id;
  task_type = text "prompt:execute";
  payload = (text "prompt_id", string prompt_id) ∷ (text "workspace_id", string workspace_id) ∷ [];
  priority = priority;
}

abbrev pub prompt_options : ℕ → TaskOptions
prompt_options priority = record {
  process_at = none;
  max_retry = 1;
  timeout = 30 * minute;
  queue = text "default";
  priority = priority;
}

abbrev pub or_five : ℕ → ℕ
or_five priority = if priority == 0 then 5 else priority

module _ {W : Type 0} (c : Client W) where
  -- A prompt whose task was not taken is marked as failed.
  unfoldable pub after_enqueue : Text → Bool → Action (Site W) (Result Text Text)
  after_enqueue prompt_id true = pure (ok prompt_id)
  after_enqueue prompt_id false = do
    now ← the_time c
    on_db (
        PromptTable.update_status now prompt_id (text "failed")
          (some (error_result (text "failed to enqueue"))))
    pure (err (text "failed to enqueue prompt execution"))

  unfoldable pub enqueue_prompt : Text → Text → ℕ → Action (Site W) (Result Text Text)
  unfolding enqueue prompt_task after_enqueue
  enqueue_prompt prompt_id workspace_id priority = do
    id ← on_host c.new_id
    enqueue c (prompt_task id prompt_id workspace_id priority) (prompt_options priority)
        >>= after_enqueue prompt_id

  unfoldable pub after_create :
      Text → Text → ℕ → Option DbError → Action (Site W) (Result Text Text)
  unfolding enqueue_prompt
  after_create prompt_id workspace_id priority (some e) =
      pure (err (text "failed to create prompt task"))
  after_create prompt_id workspace_id priority none = enqueue_prompt prompt_id workspace_id priority

  unfoldable pub submit_ready :
      Text → Workspace → SubmitPromptRequest → Action (Site W) (Result Text Text)
  unfolding new_prompt after_create
  submit_ready workspace_id w req = do
    prompt_id ← on_host c.new_id
    stored ←
        on_db (PromptTable.create (new_prompt prompt_id workspace_id w (or_five req.priority) req))
    after_create prompt_id workspace_id (or_five req.priority) stored

  unfoldable pub submit_for :
      Text → SubmitPromptRequest → Result DbError Workspace → Action (Site W) (Result Text Text)
  unfolding submit_ready
  submit_for workspace_id req (err e) = pure (err (text "workspace not found"))
  submit_for workspace_id req (ok w) =
      if text_eq w.status (text "ready")
      then submit_ready workspace_id w req
      else pure (err (text "workspace is not ready"))

  unfoldable pub submit_prompt : Text → SubmitPromptRequest → Action (Site W) (Result Text Text)
  unfolding submit_for
  submit_prompt workspace_id req =
      on_db (WorkspaceTable.get workspace_id) >>= submit_for workspace_id req

  unfoldable pub cancel_prompt : Text → Action (Site W) (Option DbError)
  cancel_prompt prompt_id = on_db (PromptTable.cancel prompt_id)
