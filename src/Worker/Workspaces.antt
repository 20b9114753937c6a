-- ===== src/Worker/Workspaces.antt =====
-- HandleWorkspaceCreate and HandleWorkspaceDelete of services/core/pkg/worker/workspace_handlers.go.
pub mod Cascade
use aetherium.Base.{
  ℕ, Bool, true, false, not, ◌&&◌, ◌||◌, ltb, Option, none, some, List, [], ◌∷◌, ◌++◌,
  if◌then◌else◌, length, Result, ok, err, Text, text, text_eq, Map, insert, Action, ◌>>=◌, ◌>>◌,
  pure, modify, gets,
}
use aetherium.Storage.{Json, string, Workspace, WorkspaceSecret}
use aetherium.Storage.Db.{Db, DbError}
use aetherium.Storage.Secrets
use aetherium.Storage.Vms as VmTable
use aetherium.Storage.Workspaces as WorkspaceTable
use aetherium.Vmm.{VmConfig, Vm}
use aetherium.Worker.{
  Backend, Usage, World, HandlerError, invalid_payload, invalid_workspace_id, Outcome, is_member,
  unique_tools, default_tools, vm_config, or_nil, on_db, on_host, track, untrack, worker_id,
  the_time, update_worker_resources, failure, success,
}
use aetherium.Worker.Prep.{execute_prep_steps}
use aetherium.Worker.Vms.{vm_row, create_vm}

pub record WorkspaceCreatePayload : Type 0 where
  pub workspace_id : Text
  pub name : Text
  pub vcpus : ℕ
  pub memory_mb : ℕ
  pub ai_assistant : Text
  pub additional_tools : List Text
  pub tool_versions : Map Text

-- The assistant's tool behind the others, if it is not one of them.
unfoldable pub with_ai_tool : Text → List Text → List Text
with_ai_tool ai tools =
    if (text_eq ai (text "claude-code") || text_eq ai (text "ampcode")) && not (is_member ai tools)
    then tools ++ (ai ∷ [])
    else tools

-- GetDecryptedSecret of a workspace service, none on an error.
abbrev pub Decrypt : Type 0
Decrypt = Text → Db → Option Text × Db

-- The secrets that can be decrypted, by name.
unfoldable pub decrypt_all : Decrypt → List WorkspaceSecret → Db → Map Text × Db
decrypt_all decrypt [] db = ([], db)
decrypt_all decrypt (s ∷ rest) db =
    let (value, db1) = decrypt s.id db in
    let (others, db2) = decrypt_all decrypt rest db1 in
    (elim value [ none ↦ others | some v ↦ insert s.name v others ], db2)

unfoldable pub get_workspace_secrets : Decrypt → Text → Db → Option (Map Text) × Db
unfolding decrypt_all
get_workspace_secrets decrypt workspace_id db =
    let (listed, db1) = Secrets.list_by_workspace workspace_id db in
    elim listed [
      | err e ↦ (none, db1)
      | ok secrets ↦ let (m, db2) = decrypt_all decrypt secrets db1 in (some m, db2)
    ]

module _ {W : Type 0} (b : Backend W) where
  -- What is known of the secrets is handed to the VM, if there are some and the orchestrator can.
  unfoldable pub hand_over : Text → Option (Map Text) → Action (World W) (Unit {0})
  hand_over vm_id none = pure tt
  hand_over vm_id (some []) = pure tt
  hand_over vm_id (some (s ∷ rest)) = elim b.provide_secrets [
    | none ↦ pure tt
    | some provide ↦ on_host (provide vm_id (s ∷ rest)) >> pure tt
  ]

  unfoldable pub inject_secrets : Option Decrypt → Text → Text → Action (World W) (Unit {0})
  unfolding get_workspace_secrets hand_over
  inject_secrets none workspace_id vm_id = pure tt
  inject_secrets (some decrypt) workspace_id vm_id =
      on_db (get_workspace_secrets decrypt workspace_id) >>= hand_over vm_id

  -- The row of the VM before the workspace's reference to it.
  unfoldable pub store_vm :
      Text → Text → WorkspaceCreatePayload → VmConfig → Vm → Action (World W) (Unit {0})
  unfolding vm_row
  store_vm vm_uuid workspace_id payload config vm = do
    status ← gets (λ s. b.vm_status vm.id s.host)
    worker ← gets worker_id
    on_db (
        VmTable.create (
          vm_row vm_uuid (text "workspace-" ++ payload.name) status config payload.vcpus
            payload.memory_mb worker ((text "workspace_id", string workspace_id) ∷ [])))
    on_db (WorkspaceTable.set_vm_id workspace_id vm_uuid)
    pure tt

  unfoldable pub prepare :
      Option Decrypt → Text → WorkspaceCreatePayload → VmConfig → Vm → Action (World W) (Unit {0})
  unfolding store_vm inject_secrets with_ai_tool unique_tools execute_prep_steps
  prepare decrypt workspace_id payload config vm = do
    store_vm (or_nil (b.parse_id vm.id)) workspace_id payload config vm
    inject_secrets decrypt workspace_id vm.id
    on_host (
        b.install_tools vm.id
          (unique_tools
            (with_ai_tool payload.ai_assistant (default_tools ++ payload.additional_tools)))
          payload.tool_versions)
    execute_prep_steps b workspace_id vm.id
    modify (track vm.id (record { vcpus = payload.vcpus; memory_mb = payload.memory_mb }))

  unfoldable pub make_ready :
      Option Decrypt
      → Text
      → ℕ
      → Text
      → WorkspaceCreatePayload
      → VmConfig
      → Vm
      → Action (World W) Outcome
  unfolding prepare update_worker_resources
  make_ready decrypt task_id started workspace_id payload config vm = do
    prepare decrypt workspace_id payload config vm
    now ← the_time b
    on_db (WorkspaceTable.set_ready now workspace_id)
    update_worker_resources b
    success b task_id started (
        (text "workspace_id", string workspace_id)
        ∷ (text "vm_id", string vm.id)
        ∷ (text "name", string payload.name)
        ∷ (text "status", string (text "ready"))
        ∷ [])

  unfoldable pub give_up : Text → ℕ → Text → Text → Action (World W) Outcome
  give_up task_id started workspace_id message =
      on_db (WorkspaceTable.update_status workspace_id (text "failed"))
      >> failure b task_id started message

  unfoldable pub start_created :
      Option Decrypt
      → Text
      → ℕ
      → Text
      → WorkspaceCreatePayload
      → Result Text Vm × VmConfig
      → Action (World W) Outcome
  unfolding make_ready give_up
  start_created decrypt task_id started workspace_id payload (err e, config) =
      give_up task_id started workspace_id (text "failed to create VM: " ++ e)
  start_created decrypt task_id started workspace_id payload (ok vm, config) = do
    problem ← on_host (b.start_vm vm.id)
    elim problem [
      | some e ↦ give_up task_id started workspace_id (text "failed to start VM: " ++ e)
      | none ↦ make_ready decrypt task_id started workspace_id payload config vm
    ]

  unfoldable pub create_workspace :
      Option Decrypt → Text → WorkspaceCreatePayload → Text → Action (World W) Outcome
  unfolding start_created
  create_workspace decrypt task_id payload workspace_id = do
    started ← the_time b
    on_db (WorkspaceTable.update_status workspace_id (text "preparing"))
    vm_id ← on_host b.new_id
    made ← create_vm b (vm_config vm_id payload.vcpus payload.memory_mb)
    start_created decrypt task_id started workspace_id payload made

  unfoldable pub handle_workspace_create :
      Option Decrypt → Text → Option WorkspaceCreatePayload → Action (World W) Outcome
  unfolding create_workspace
  handle_workspace_create decrypt task_id none = pure (err invalid_payload)
  handle_workspace_create decrypt task_id (some payload) = elim (b.parse_id payload.workspace_id) [
    | none ↦ pure (err invalid_workspace_id)
    | some workspace_id ↦ create_workspace decrypt task_id payload workspace_id
  ]

  -- The VM of a workspace that was found. Failures are only logged.
  unfoldable pub remove_vm : Result DbError Workspace → Action (World W) (Unit {0})
  remove_vm (err e) = pure tt
  remove_vm (ok w) = elim w.vm_id [
    | none ↦ pure tt
    | some vm_id ↦ do
      on_host (b.delete_vm vm_id)
      modify (untrack vm_id)
      on_db (VmTable.delete_row vm_id)
      pure tt
  ]

  unfoldable pub deletion_result : Text → ℕ → Text → Option DbError → Action (World W) Outcome
  unfolding update_worker_resources
  deletion_result task_id started workspace_id (some e) =
      failure b task_id started (text "failed to delete workspace")
  deletion_result task_id started workspace_id none =
      update_worker_resources b
      >> success b task_id started ((text "workspace_id", string workspace_id) ∷ [])

  unfoldable pub delete_workspace : Text → Text → Action (World W) Outcome
  unfolding remove_vm deletion_result
  delete_workspace task_id workspace_id = do
    started ← the_time b
    found ← on_db (WorkspaceTable.get workspace_id)
    remove_vm found
    problem ← on_db (WorkspaceTable.delete_row workspace_id)
    deletion_result task_id started workspace_id problem

  -- The payload's workspace id, none where the payload does not decode.
  unfoldable pub handle_workspace_delete : Text → Option Text → Action (World W) Outcome
  unfolding delete_workspace
  handle_workspace_delete task_id none = pure (err invalid_payload)
  handle_workspace_delete task_id (some id) = elim (b.parse_id id) [
    | none ↦ pure (err invalid_workspace_id)
    | some workspace_id ↦ delete_workspace task_id workspace_id
  ]
