-- ===== src/Service/Workspaces.antt =====
-- CreateWorkspace, DeleteWorkspace and SubmitPrompt of services/core/pkg/service/workspace_service.go.
-- The configuration of the assistant, which the worker does not read, is in the payload as `other`.
pub mod Kept
pub mod Rollback
use aetherium.Base.{
  ℕ, ◌*◌, Bool, true, false, ◌==◌, not, Option, none, some, List, [], ◌∷◌, ◌++◌, if◌then◌else◌,
  Result, ok, err, Text, text, text_eq, Map, Action, ◌>>=◌, ◌>>◌, pure,
}
use aetherium.Storage.{
  Json, string, number, strings, texts, null, other, Workspace, PrepStep, PromptTask,
}
use aetherium.Storage.Db.{Db, DbError}
use aetherium.Storage.PrepSteps as PrepStepTable
use aetherium.Storage.Prompts as PromptTable
use aetherium.Storage.Workspaces as WorkspaceTable
use aetherium.Worker.Prompts.{error_result}
use aetherium.Queue.{Task, TaskOptions, minute}
use aetherium.Service.{Client, Site, string_ptr, on_db, on_host, the_time, enqueue}
use aetherium.Service.Secrets.{SecretRequest, or_default, add_secret_in}
use aetherium.Service.Tasks.{entry_unless_empty}

pub record PrepStepRequest : Type 0 where
  pub step_type : Text
  pub order : ℕ
  pub config : Map Json

pub record CreateWorkspaceRequest : Type 0 where
  pub name : Text
  pub description : Text
  pub environment_id : Text
  pub vcpus : ℕ
  pub memory_mb : ℕ
  pub ai_assistant : Text
  pub ai_assistant_config : Option (Map Json)
  pub working_directory : Text
  pub secrets : List SecretRequest
  pub prep_steps : List PrepStepRequest
  pub additional_tools : List Text
  pub tool_versions : Map Text

unfoldable pub new_workspace : Text → Option Text → CreateWorkspaceRequest → Workspace
new_workspace id environment_id req = record {
  id = id;
  name = req.name;
  description = string_ptr req.description;
  vm_id = none;
  environment_id = environment_id;
  status = text "creating";
  ai_assistant = req.ai_assistant;
  ai_assistant_config = elim req.ai_assistant_config [ none ↦ [] | some m ↦ m ];
  working_directory = or_default req.working_directory (text "/workspace");
  idle_since = none;
  ready_at = none;
  stopped_at = none;
  metadata = [];
}

unfoldable pub new_step : Text → Text → PrepStepRequest → PrepStep
new_step id workspace_id req = record {
  id = id;
  workspace_id = workspace_id;
  step_type = req.step_type;
  step_order = req.order;
  config = req.config;
  status = text "pending";
  exit_code = none;
  stdout = none;
  stderr = none;
  error = none;
  started_at = none;
  completed_at = none;
  duration_ms = none;
}

unfoldable pub creation_payload : Text → CreateWorkspaceRequest → Map Json
creation_payload workspace_id req =
    (text "workspace_id", string workspace_id)
    ∷ (text "name", string req.name)
    ∷ (text "vcpus", number req.vcpus)
    ∷ (text "memory_mb", number req.memory_mb)
    ∷ (text "ai_assistant", string req.ai_assistant)
    ∷ (text "working_dir", string (or_default req.working_directory (text "/workspace")))
    ∷ (entry_unless_empty (text "additional_tools") strings req.additional_tools
        ++ (entry_unless_empty (text "tool_versions") texts req.tool_versions
            ++ (elim req.ai_assistant_config [
              | none ↦ []
              | some m ↦ (text "ai_assistant_config", other) ∷ []
            ])))

abbrev pub workspace_options : ℕ → TaskOptions
workspace_options timeout = record {
  process_at = none;
  max_retry = 2;
  timeout = timeout;
  queue = text "default";
  priority = 5;
}

module _ {W : Type 0} (c : Client W) where
  abbrev pub Created : Type 0
  Created = Result Text (Text × Text)

  -- The workspace is deleted again; a failure of that is not looked at.
  unfoldable pub undo : Text → Text → Action (Site W) Created
  undo workspace_id message = on_db (WorkspaceTable.delete_row workspace_id) >> pure (err message)

  unfoldable pub next_secret :
      Action (Site W) (Option Text) → Result Text Text → Action (Site W) (Option Text)
  next_secret others (err e) = pure (some e)
  next_secret others (ok id) = others

  -- The first secret that cannot be stored ends the loop, with the message.
  unfoldable pub store_secrets : Text → List SecretRequest → Action (Site W) (Option Text)
  unfolding add_secret_in next_secret
  store_secrets workspace_id [] = pure none
  store_secrets workspace_id (req ∷ rest) =
      add_secret_in c workspace_id req (text "workspace")
      >>= next_secret (store_secrets workspace_id rest)

  unfoldable pub new_steps : Text → List PrepStepRequest → Action (Site W) (List PrepStep)
  unfolding new_step
  new_steps workspace_id [] = pure []
  new_steps workspace_id (req ∷ rest) = do
    id ← on_host c.new_id
    others ← new_steps workspace_id rest
    pure (new_step id workspace_id req ∷ others)

  unfoldable pub after_enqueue : Text → Text → Bool → Action (Site W) Created
  unfolding undo
  after_enqueue task_id workspace_id true = pure (ok (task_id, workspace_id))
  after_enqueue task_id workspace_id false =
      undo workspace_id (text "failed to enqueue workspace creation task")

  unfoldable pub creation_task : Text → Text → CreateWorkspaceRequest → Task
  unfolding creation_payload
  creation_task id workspace_id req = record {
    id = id;
    task_type = text "workspace:create";
    payload = creation_payload workspace_id req;
    priority = 0;
  }

  unfoldable pub enqueue_creation : Text → CreateWorkspaceRequest → Action (Site W) Created
  unfolding enqueue creation_task after_enqueue
  enqueue_creation workspace_id req = do
    id ← on_host c.new_id
    enqueue c (creation_task id workspace_id req) (workspace_options (30 * minute))
        >>= after_enqueue id workspace_id

  unfoldable pub after_steps :
      Text → CreateWorkspaceRequest → Option DbError → Action (Site W) Created
  unfolding enqueue_creation undo
  after_steps workspace_id req (some e) = undo workspace_id (text "failed to store prep steps")
  after_steps workspace_id req none = enqueue_creation workspace_id req

  -- An empty batch makes no statement.
  unfoldable pub after_secrets :
      Text → CreateWorkspaceRequest → Option Text → Action (Site W) Created
  unfolding undo new_steps after_steps
  after_secrets workspace_id req (some e) = undo workspace_id (text "failed to store secret")
  after_secrets workspace_id req none = do
    steps ← new_steps workspace_id req.prep_steps
    stored ← on_db (PrepStepTable.create_batch steps)
    after_steps workspace_id req stored

  unfoldable pub after_insert :
      Text → CreateWorkspaceRequest → Option DbError → Action (Site W) Created
  unfolding store_secrets after_secrets
  after_insert workspace_id req (some e) = pure (err (text "failed to create workspace"))
  after_insert workspace_id req none =
      store_secrets workspace_id req.secrets >>= after_secrets workspace_id req

  unfoldable pub insert_new : Text → Option Text → CreateWorkspaceRequest → Action (Site W) Created
  unfolding new_workspace after_insert
  insert_new workspace_id environment_id req =
      on_db (WorkspaceTable.create (new_workspace workspace_id environment_id req))
      >>= after_insert workspace_id req

  unfoldable pub insert_in : Text → CreateWorkspaceRequest → Option Text → Action (Site W) Created
  unfolding insert_new
  insert_in workspace_id req none = pure (err (text "invalid environment_id"))
  insert_in workspace_id req (some env_id) = insert_new workspace_id (some env_id) req

  -- The ids of the task and of the workspace.
  unfoldable pub create_workspace : CreateWorkspaceRequest → Action (Site W) Created
  unfolding insert_new insert_in
  create_workspace req = do
    workspace_id ← on_host c.new_id
    if text_eq req.environment_id []
        then insert_new workspace_id none req
        else insert_in workspace_id req (c.parse_id req.environment_id)

  unfoldable pub enqueue_deletion :
      Text → Result DbError Workspace → Action (Site W) (Result Text Text)
  unfolding enqueue
  enqueue_deletion workspace_id (err e) = pure (err (text "workspace not found"))
  enqueue_deletion workspace_id (ok w) = do
    id ← on_host c.new_id
    taken ←
        enqueue c
          (record {
            id = id;
            task_type = text "workspace:delete";
            payload =
                (text "workspace_id", string workspace_id)
                ∷ (text "vm_id", elim w.vm_id [ none ↦ null | some v ↦ string v ])
                ∷ [];
            priority = 0;
          })
          (workspace_options (5 * minute))
    pure (if taken then ok id else err (text "failed to enqueue workspace deletion task"))

  unfoldable pub delete_workspace : Text → Action (Site W) (Result Text Text)
  unfolding enqueue_deletion
  delete_workspace workspace_id =
      on_db (WorkspaceTable.get workspace_id) >>= enqueue_deletion workspace_id
