-- ===== src/Worker/Idle/Cascade.antt =====
-- The idle cleanup of a workspace that is on a VM.
use aetherium.Base.{◌≡◌, ap, ◌∙◌, true, Option, none, some, [], Text, text, lookup, Action, ◌>>=◌}
use aetherium.Storage.{Workspace}
use aetherium.Storage.Db.{has_row}
use aetherium.Storage.Workspaces as WorkspaceTable
use aetherium.Storage.Cascade.{
  clear_vm_id-none, delete_row-drop_vm, drop_vm-faults, lookup-drop_vm_own,
}
use aetherium.Worker.{Backend, World, on_db}
use aetherium.Worker.Idle.{destroy_workspace_vm, detach, settle}
use aetherium.Worker.Workspaces.Cascade.{removed}

-- What is left of the cleanup once the row of the VM is deleted.
abbrev clearing : {W : Type 0} → Backend W → Text → Action (World W) (Option Text)
clearing b id = on_db (WorkspaceTable.clear_vm_id id) >>= settle b id

-- If the database answers, the orchestrator deletes the VM, and the workspace is on a VM that has a row,
-- then the cleanup fails to clear the reference of the workspace to its VM, and the workspace is gone.
pub destroy_workspace_vm-on_vm :
    {W : Type 0} (b : Backend W) (s : World W) (vm_id : Text) (w : Workspace)
    → s.db.faults ≡ []
    → lookup w.id s.db.workspaces ≡ some w
    → w.vm_id ≡ some vm_id
    → has_row vm_id s.db.vms ≡ true
    → (b.delete_vm vm_id s.host).0 ≡ none
    → ((destroy_workspace_vm b w s).0 ≡ some (text "failed to clear workspace VM ID"))
      × (lookup w.id (destroy_workspace_vm b w s).1.db.workspaces ≡ none)
unfolding destroy_workspace_vm detach settle
destroy_workspace_vm-on_vm b s vm_id w calm found on row deleted =
    let s1 = removed b vm_id s in
    let gone = lookup-drop_vm_own s.db vm_id w.id w found on in
    let run =
      ap (λ v. destroy_workspace_vm b (record w { vm_id = v }) s) on
      ∙ ap (λ p. detach b w.id vm_id p (record s { host = (b.delete_vm vm_id s.host).1 })) deleted
      ∙ ap (λ r. clearing b w.id (record s1 { db = r.1 })) (delete_row-drop_vm s.db calm vm_id row)
      ∙ ap (λ r. settle b w.id r.0 (record s1 { db = r.1 }))
          (clear_vm_id-none s1.db (drop_vm-faults vm_id s.db ∙ calm) w.id gone) in
    (ap (λ r. r.0) run, ap (λ r. lookup w.id r.1.db.workspaces) run ∙ gone)
