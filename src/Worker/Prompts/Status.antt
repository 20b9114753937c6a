-- ===== src/Worker/Prompts/Status.antt =====
-- The status of a prompt after its task.
use aetherium.Base.{
  ℕ, ◌-◌, ◌≡◌, refl, sym, subst, false, Option, none, some, [], ◌++◌, if◌then◌else◌, Result, ok,
  err, is_err, Text, text, lookup, Action,
}
use aetherium.Storage.{Workspace, Environment, PromptTask}
use aetherium.Storage.Db.{DbError}
use aetherium.Storage.Cascade.{get-found}
use aetherium.Storage.Workspaces as WorkspaceTable
use aetherium.Storage.Vms as VmTable
use aetherium.Storage.Kept.{
  get_prompt-found, Present, HasStatus, status_of, update_status-Present, update_status-HasStatus,
  update_idle_since-Prompts, update_status-Prompts, set_ready-Prompts, get_environment-Prompts,
}
use aetherium.Worker.{ExecResult, Backend, World, Outcome}
use aetherium.Worker.Workspaces.Cascade.{succeeds}
use aetherium.Worker.Prompts.{
  status_after, prompt_result, prompt_command, prompt_outcome, fail_prompt, conclude, after_run,
  run_prompt, after_spawn, spawn_for_prompt, spawn_and_run, run_on, execute_prompt, with_workspace,
  with_prompt, handle_prompt, error_result,
}
use aetherium.Worker.Prompts.Spawn.{McpSettings, spawn_environment_vm}
use aetherium.Worker.Prompts.Furnish.{Good, spawn_environment_vm-Good}

-- The status that goes with an outcome.
abbrev pub settled_status : Outcome → Text
settled_status o = if succeeds o then text "completed" else text "failed"

module _ {W : Type 0} (b : Backend W) (mcp : McpSettings) (task_id : Text) (started : ℕ)
    (prompt_id workspace_id : Text) where
  -- The prompt has a row, in a database that answers.
  abbrev Ready : World W → Type 0
  Ready = Good (Present prompt_id) b

  -- The handler has a result, and the prompt has the status that goes with it.
  abbrev Settled : Outcome × World W → Type 0
  Settled (o, s) = (is_err o ≡ false) × Good (HasStatus prompt_id (settled_status o)) b s

  abbrev Settles : Action (World W) Outcome → Type 0
  Settles m = (s : World W) → Ready s → Settled (m s)

  fail_prompt-Settles :
      (message : Text) → Settles (fail_prompt b mcp task_id started prompt_id workspace_id message)
  unfolding fail_prompt
  fail_prompt-Settles message s g = (
    refl,
    update_status-HasStatus (b.now s.host) prompt_id (text "failed") (some (error_result message))
        s.db g,
  )

  conclude-Settles :
      (r : ExecResult) → Settles (conclude b mcp task_id started prompt_id workspace_id r)
  unfolding conclude prompt_outcome
  conclude-Settles r s g = (
    refl,
    update_idle_since-Prompts (HasStatus prompt_id (status_after r)) workspace_id
        (some (b.now s.host)) _
        (update_status-HasStatus (b.now s.host) prompt_id (status_after r)
          (some (prompt_result (b.now s.host - started) r)) s.db g),
  )

  after_run-Settles :
      (r : Result Text ExecResult)
      → Settles (after_run b mcp task_id started prompt_id workspace_id r)
  unfolding after_run
  after_run-Settles (err e) s g = fail_prompt-Settles e s g
  after_run-Settles (ok r) s g = conclude-Settles r s g

  run_prompt-Settles :
      (p : PromptTask) (w : Workspace) (vm_id : Text)
      → Settles (run_prompt b mcp task_id started prompt_id workspace_id p w vm_id)
  unfolding run_prompt
  run_prompt-Settles p w vm_id s g =
      after_run-Settles (b.execute_command vm_id (prompt_command w p) s.host).0 _ (
        update_status-Present (b.now s.host) prompt_id (text "running") none _
          (update_idle_since-Prompts (Present prompt_id) workspace_id none s.db g))

  after_spawn-Settles :
      (p : PromptTask) (w : Workspace) (made : Result Text Text)
      → Settles (after_spawn b mcp task_id started prompt_id workspace_id p w made)
  unfolding after_spawn
  after_spawn-Settles p w (err e) s g =
      fail_prompt-Settles (text "failed to spawn VM: " ++ e)
        (record s { db = (WorkspaceTable.update_status workspace_id (text "failed") s.db).1 })
        (update_status-Prompts (Present prompt_id) workspace_id (text "failed") s.db g)
  after_spawn-Settles p w (ok vm_id) s g =
      run_prompt-Settles p w vm_id
        (record s { db = (WorkspaceTable.set_ready (b.now s.host) workspace_id s.db).1 })
        (set_ready-Prompts (Present prompt_id) (b.now s.host) workspace_id s.db g)

  spawn_for_prompt-Settles :
      (p : PromptTask) (w : Workspace) (env : Result DbError Environment)
      → Settles (spawn_for_prompt b mcp task_id started prompt_id workspace_id p w env)
  unfolding spawn_for_prompt
  spawn_for_prompt-Settles p w (err e) s g =
      fail_prompt-Settles (text "failed to get environment") s g
  spawn_for_prompt-Settles p w (ok env) s g =
      let d = (WorkspaceTable.update_status workspace_id (text "spawning") s.db).1 in
      let s1 = record s { db = d } in
      after_spawn-Settles p w (spawn_environment_vm b mcp w env s1).0 _ (
        spawn_environment_vm-Good (Present prompt_id) b mcp w env s1
          (update_status-Prompts (Present prompt_id) workspace_id (text "spawning") s.db g))

  spawn_and_run-Settles :
      (p : PromptTask) (w : Workspace) (env_id : Option Text)
      → Settles (spawn_and_run b mcp task_id started prompt_id workspace_id p w env_id)
  unfolding spawn_and_run
  spawn_and_run-Settles p w none s g =
      fail_prompt-Settles (text "workspace has no VM and no environment template configured") s g
  spawn_and_run-Settles p w (some env_id) s g =
      let (found, d) = VmTable.get_environment env_id s.db in
      spawn_for_prompt-Settles p w found (record s { db = d })
        (get_environment-Prompts (Present prompt_id) env_id s.db g)

  run_on-Settles :
      (p : PromptTask) (w : Workspace) (vm_id : Option Text)
      → Settles (run_on b mcp task_id started prompt_id workspace_id p w vm_id)
  unfolding run_on
  run_on-Settles p w none s g = spawn_and_run-Settles p w w.environment_id s g
  run_on-Settles p w (some vm_id) s g = run_prompt-Settles p w vm_id s g

  execute_prompt-Settles :
      (p : PromptTask) (w : Workspace)
      → Settles (execute_prompt b mcp task_id started prompt_id workspace_id p w)
  unfolding execute_prompt
  execute_prompt-Settles p w s g = run_on-Settles p w w.vm_id s g

  with_prompt-Settles :
      (p : PromptTask) (w : Workspace) (s : World W)
      → Ready s
      → lookup workspace_id s.db.workspaces ≡ some w
      → Settled (with_prompt b mcp task_id started prompt_id workspace_id (ok p) s)
  unfolding with_prompt with_workspace
  with_prompt-Settles p w s g found =
      subst
        (λ r. Settled (
          with_workspace b mcp task_id started prompt_id workspace_id p r.0
            (record s { db = r.1 })))
        (sym (get-found s.db g.0 workspace_id w found)) (execute_prompt-Settles p w s g)

-- If the database answers and both rows are there, then the handler has a result, and the prompt ends as
-- completed where that is a success, and as failed otherwise. Its status before makes no difference: a
-- prompt that was cancelled is run as well.
pub handle_prompt-status :
    {W : Type 0} (b : Backend W) (mcp : McpSettings) (task_id prompt_id workspace_id : Text)
    (s : World W) (p : PromptTask) (w : Workspace)
    → s.db.faults ≡ []
    → lookup prompt_id s.db.prompts ≡ some p
    → lookup workspace_id s.db.workspaces ≡ some w
    → (is_err (handle_prompt b mcp task_id prompt_id workspace_id s).0 ≡ false)
      × (status_of prompt_id (handle_prompt b mcp task_id prompt_id workspace_id s).1.db.prompts
          ≡ some (settled_status (handle_prompt b mcp task_id prompt_id workspace_id s).0))
unfolding handle_prompt
handle_prompt-status b mcp task_id prompt_id workspace_id s p w calm found_prompt found =
    let settled =
      subst
        (λ r. Settled b mcp task_id (b.now s.host) prompt_id workspace_id (
          with_prompt b mcp task_id (b.now s.host) prompt_id workspace_id r.0
            (record s { db = r.1 })))
        (sym (get_prompt-found prompt_id s.db p calm found_prompt))
        (with_prompt-Settles b mcp task_id (b.now s.host) prompt_id workspace_id p w s
          (calm, (p, found_prompt)) found) in
    (settled.0, settled.1.1)
