-- ===== src/Worker/Idle.antt =====
-- The idle cleanup of services/core/pkg/worker/workspace_handlers.go: what one tick of its timer does.
pub mod Cascade
use aetherium.Base.{
  ℕ, ◌-◌, ◌*◌, Bool, true, false, ltb, Option, none, some, List, [], ◌++◌, if◌then◌else◌, Result,
  ok, err, Text, text, Action, ◌>>=◌, ◌>>◌, pure, modify, for_each,
}
use aetherium.Storage.{Workspace, Environment}
use aetherium.Storage.Db.{Db, DbError}
use aetherium.Storage.Vms as VmTable
use aetherium.Storage.Workspaces as WorkspaceTable
use aetherium.Worker.{Backend, World, on_db, on_host, untrack, the_time, update_worker_resources}

-- Ticks of the clock in a second.
abbrev pub second : ℕ
second = 1000

module _ {W : Type 0} (b : Backend W) where
  unfoldable pub settle : Text → Option DbError → Action (World W) (Option Text)
  unfolding update_worker_resources
  settle workspace_id (some e) = pure (some (text "failed to clear workspace VM ID"))
  settle workspace_id none = do
    on_db (WorkspaceTable.update_status workspace_id (text "idle"))
    on_db (WorkspaceTable.update_idle_since workspace_id none)
    update_worker_resources b
    pure none

  unfoldable pub detach : Text → Text → Option Text → Action (World W) (Option Text)
  unfolding settle
  detach workspace_id vm_id (some e) = pure (some (text "failed to delete VM: " ++ e))
  detach workspace_id vm_id none = do
    modify (untrack vm_id)
    on_db (VmTable.delete_row vm_id)
    problem ← on_db (WorkspaceTable.clear_vm_id workspace_id)
    settle workspace_id problem

  -- The error, if there is one.
  unfoldable pub destroy_workspace_vm : Workspace → Action (World W) (Option Text)
  unfolding detach
  destroy_workspace_vm w = elim w.vm_id [
    | none ↦ pure none
    | some vm_id ↦ on_host (b.delete_vm vm_id) >>= detach w.id vm_id
  ]

  unfoldable pub check_timeout :
      Workspace → ℕ → Result DbError Environment → Action (World W) (Unit {0})
  unfolding destroy_workspace_vm
  check_timeout w since (err e) = pure tt
  check_timeout w since (ok env) = do
    now ← the_time b
    if ltb (env.idle_timeout_seconds * second) (now - since)
        then destroy_workspace_vm w >> pure tt
        else pure tt

  unfoldable pub cleanup_workspace : Workspace → Action (World W) (Unit {0})
  unfolding check_timeout
  cleanup_workspace w = elim w.idle_since [
    | none ↦ pure tt
    | some since ↦ elim w.environment_id [
      | none ↦ pure tt
      | some env_id ↦ on_db (VmTable.get_environment env_id) >>= check_timeout w since
    ]
  ]

  unfoldable pub cleanup_listed : Result DbError (List Workspace) → Action (World W) (Unit {0})
  unfolding cleanup_workspace
  cleanup_listed (err e) = pure tt
  cleanup_listed (ok ws) = for_each cleanup_workspace ws

  unfoldable pub cleanup_idle_workspaces : Action (World W) (Unit {0})
  unfolding cleanup_listed
  cleanup_idle_workspaces = on_db WorkspaceTable.list_idle_with_vms >>= cleanup_listed
