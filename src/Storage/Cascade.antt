-- ===== src/Storage/Cascade.antt =====
-- What the deletion of a VM's row deletes along.
use aetherium.Base.{
  ◌≡◌, refl, ap, ◌∙◌, true, false, Option, none, some, [], if◌then◌else◌, Result, ok, err, Text,
  text_eq, text_eq_refl, Map, lookup, insert,
}
use aetherium.Storage.{Workspace}
use aetherium.Storage.Db.{
  Db, DbError, row_not_found, row, change, has_row, lookup-without_keys, points_to, drop_workspaces,
  on_vm, drop_vm,
}
use aetherium.Storage.Vms as VmTable
use aetherium.Storage.Workspaces as WorkspaceTable
use aetherium.Storage.Answers.{execute-calm, query-calm, result_of}

abbrev change_of : {V : Type 0} → Text → (V → V) → Map V → Option V → Result DbError (Map V)
change_of id f m o = elim o [ none ↦ err row_not_found | some v ↦ ok (insert id (f v) m) ]

pub change-none :
    {V : Type 0} (id : Text) (f : V → V) (m : Map V)
    → lookup id m ≡ none
    → change id f m ≡ err row_not_found
unfolding change
change-none id f m p = ap (change_of id f m) p

abbrev with_workspaces : Db → Result DbError (Map Workspace) → Result DbError Db
with_workspaces db r = elim r [ err e ↦ err e | ok rows ↦ ok (record db { workspaces = rows }) ]

module _ (db : Db) (calm : db.faults ≡ []) where
  pub get-found :
      (id : Text) (w : Workspace)
      → lookup id db.workspaces ≡ some w
      → WorkspaceTable.get id db ≡ (ok w, db)
  unfolding WorkspaceTable.get row
  get-found id w p =
      query-calm (λ d. row id d.workspaces) db calm
      ∙ ap (λ o. (elim o [ none ↦ err row_not_found | some v ↦ ok v ], db)) p

  pub delete_row-none :
      (id : Text)
      → lookup id db.workspaces ≡ none
      → WorkspaceTable.delete_row id db ≡ (some row_not_found, db)
  unfolding WorkspaceTable.delete_row WorkspaceTable.delete_workspace has_row
  delete_row-none id p =
      execute-calm (WorkspaceTable.delete_workspace id) db calm
      ∙ ap
          (λ o.
            result_of
              (if (elim o [ none ↦ false | some v ↦ true ])
                then ok (drop_workspaces (λ k. text_eq k id) db)
                else err row_not_found)
              db)
          p

  pub delete_row-found :
      (id : Text)
      → has_row id db.workspaces ≡ true
      → WorkspaceTable.delete_row id db ≡ (none, drop_workspaces (λ k. text_eq k id) db)
  unfolding WorkspaceTable.delete_row WorkspaceTable.delete_workspace
  delete_row-found id p =
      execute-calm (WorkspaceTable.delete_workspace id) db calm
      ∙ ap
          (λ t.
            result_of (if t then ok (drop_workspaces (λ k. text_eq k id) db) else err row_not_found)
              db)
          p

  pub clear_vm_id-none :
      (id : Text)
      → lookup id db.workspaces ≡ none
      → WorkspaceTable.clear_vm_id id db ≡ (some row_not_found, db)
  unfolding WorkspaceTable.clear_vm_id WorkspaceTable.changed
  clear_vm_id-none id p =
      execute-calm (WorkspaceTable.changed id (λ w. record w { vm_id = none })) db calm
      ∙ ap (λ r. result_of (with_workspaces db r) db)
          (change-none id (λ w. record w { vm_id = none }) db.workspaces p)

  pub delete_row-drop_vm :
      (vm_id : Text)
      → has_row vm_id db.vms ≡ true
      → VmTable.delete_row vm_id db ≡ (none, drop_vm vm_id db)
  unfolding VmTable.delete_row VmTable.delete_vm
  delete_row-drop_vm vm_id p =
      execute-calm (VmTable.delete_vm vm_id) db calm
      ∙ ap (λ b. result_of (if b then ok (drop_vm vm_id db) else err row_not_found) db) p

pub drop_vm-faults : (vm_id : Text) (db : Db) → (drop_vm vm_id db).faults ≡ db.faults
unfolding drop_vm drop_workspaces
drop_vm-faults vm_id db = refl

-- The workspaces of the database without the VM.
pub lookup-drop_vm :
    (db : Db) (vm_id id : Text)
    → lookup id (drop_vm vm_id db).workspaces
      ≡ (if on_vm vm_id db id then none else lookup id db.workspaces)
unfolding drop_vm drop_workspaces
lookup-drop_vm db vm_id id = lookup-without_keys (on_vm vm_id db) id db.workspaces

pub on_vm-points_to :
    (db : Db) (vm_id id : Text) (w : Workspace)
    → lookup id db.workspaces ≡ some w
    → w.vm_id ≡ some vm_id
    → on_vm vm_id db id ≡ true
unfolding on_vm
on_vm-points_to db vm_id id w p q =
    ap (λ o. elim o [ none ↦ false | some w ↦ points_to vm_id w.vm_id ]) p
    ∙ ap (points_to vm_id) q
    ∙ text_eq_refl vm_id

pub lookup-drop_vm_own :
    (db : Db) (vm_id id : Text) (w : Workspace)
    → lookup id db.workspaces ≡ some w
    → w.vm_id ≡ some vm_id
    → lookup id (drop_vm vm_id db).workspaces ≡ none
lookup-drop_vm_own db vm_id id w p q =
    lookup-drop_vm db vm_id id
    ∙ ap (λ b. if b then none else lookup id db.workspaces) (on_vm-points_to db vm_id id w p q)
