-- ===== src/Worker/Workspaces/Cascade.antt =====
-- The deletion of a workspace that is on a VM.
use aetherium.Base.{
  ◌≡◌, ap, ◌∙◌, Bool, true, false, none, some, [], Result, ok, err, Text, lookup, delete, Action,
  ◌>>=◌, ◌>>◌,
}
use aetherium.Storage.{Workspace}
use aetherium.Storage.Db.{DbError, has_row, drop_vm}
use aetherium.Storage.Workspaces as WorkspaceTable
use aetherium.Storage.Cascade.{
  get-found, delete_row-none, delete_row-drop_vm, drop_vm-faults, lookup-drop_vm_own,
}
use aetherium.Worker.{Backend, World, Outcome, on_db}
use aetherium.Worker.Workspaces.{delete_workspace, remove_vm, deletion_result}

abbrev pub succeeds : Outcome → Bool
succeeds (err e) = false
succeeds (ok r) = r.success

-- The state of the worker once the VM is removed, with its row and what refers to that.
abbrev pub removed : {W : Type 0} → Backend W → Text → World W → World W
removed b vm_id s = record s {
  db = drop_vm vm_id s.db;
  host = (b.delete_vm vm_id s.host).1;
  running_vms = delete vm_id s.running_vms;
}

pub remove_vm-removed :
    {W : Type 0} (b : Backend W) (s : World W) (vm_id : Text) (w : Workspace)
    → s.db.faults ≡ []
    → w.vm_id ≡ some vm_id
    → has_row vm_id s.db.vms ≡ true
    → remove_vm b (ok w) s ≡ (tt, removed b vm_id s)
unfolding remove_vm
remove_vm-removed b s vm_id w calm on row =
    ap (λ v. remove_vm b (ok (record w { vm_id = v })) s) on
    ∙ ap (λ r. (tt, record (removed b vm_id s) { db = r.1 }))
        (delete_row-drop_vm s.db calm vm_id row)

-- The rest of the deletion once the VM is removed, and once the row of the workspace is read.
abbrev deleting_row :
    {W : Type 0} → Backend W → (task_id id : Text) → World W → Action (World W) Outcome
deleting_row b task_id id s =
    on_db (WorkspaceTable.delete_row id) >>= deletion_result b task_id (b.now s.host) id

abbrev deleting :
    {W : Type 0}
    → Backend W
    → (task_id id : Text) → World W
    → Result DbError Workspace
    → Action (World W) Outcome
deleting b task_id id s found = remove_vm b found >> deleting_row b task_id id s

-- If the database answers, and the workspace is on a VM that has a row, then the deletion of the
-- workspace reports a failure, whatever the orchestrator does, and the workspace is gone.
pub delete_workspace-on_vm :
    {W : Type 0} (b : Backend W) (s : World W) (task_id id vm_id : Text) (w : Workspace)
    → s.db.faults ≡ []
    → lookup id s.db.workspaces ≡ some w
    → w.vm_id ≡ some vm_id
    → has_row vm_id s.db.vms ≡ true
    → (succeeds (delete_workspace b task_id id s).0 ≡ false)
      × (lookup id (delete_workspace b task_id id s).1.db.workspaces ≡ none)
unfolding delete_workspace remove_vm deletion_result
delete_workspace-on_vm b s task_id id vm_id w calm found on row =
    let s1 = removed b vm_id s in
    let gone = lookup-drop_vm_own s.db vm_id id w found on in
    let run =
      ap (λ r. deleting b task_id id s r.0 (record s { db = r.1 })) (get-found s.db calm id w found)
      ∙ ap (λ r. deleting_row b task_id id s r.1) (remove_vm-removed b s vm_id w calm on row)
      ∙ ap (λ r. deletion_result b task_id (b.now s.host) id r.0 (record s1 { db = r.1 }))
          (delete_row-none s1.db (drop_vm-faults vm_id s.db ∙ calm) id gone) in
    (ap (λ r. succeeds r.0) run, ap (λ r. lookup id r.1.db.workspaces) run ∙ gone)
