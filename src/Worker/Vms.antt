-- ===== src/Worker/Vms.antt =====
-- HandleVMCreate, HandleVMExecute and HandleVMDelete of services/core/pkg/worker/worker.go.
use aetherium.Base.{
  ℕ, ◌-◌, ◌==◌, Option, none, some, List, [], ◌∷◌, ◌++◌, if◌then◌else◌, Result, ok, err, Text, text,
  itoa, Map, Action, ◌>>=◌, ◌>>◌, pure, modify, gets,
}
use aetherium.Storage.{Json, string, number, VmRow, Execution}
use aetherium.Storage.Vms
use aetherium.Vmm.{VmConfig, Vm}
use aetherium.Worker.{
  ExecResult, Backend, World, invalid_payload, Outcome, unique_tools, default_tools, vm_config,
  or_nil, on_db, on_host, track, untrack, worker_id, the_time, update_worker_resources, failure,
  success,
}

pub record VmCreatePayload : Type 0 where
  pub name : Text
  pub vcpus : ℕ
  pub memory_mb : ℕ
  pub additional_tools : List Text
  pub tool_versions : Map Text

pub record VmExecutePayload : Type 0 where
  pub vm_id : Text
  pub command : Text
  pub args : List Text

-- The row for a VM that was created with a configuration.
unfoldable pub vm_row : Text → Text → Text → VmConfig → ℕ → ℕ → Option Text → Map Json → VmRow
vm_row id name status config vcpus memory_mb worker metadata = record {
  id = id;
  name = name;
  orchestrator = text "firecracker";
  status = status;
  kernel_path = some config.kernel_path;
  root_fs_path = some config.root_fs_path;
  socket_path = some config.socket_path;
  vcpu_count = some vcpus;
  memory_mb = some memory_mb;
  worker_id = worker;
  started_at = none;
  stopped_at = none;
  metadata = metadata;
}

module _ {W : Type 0} (b : Backend W) where
  -- Tools, tracking, and the row in the database, of a VM that has started.
  unfoldable pub finish_vm : Text → ℕ → VmCreatePayload → VmConfig → Vm → Action (World W) Outcome
  unfolding update_worker_resources unique_tools vm_row
  finish_vm task_id started payload config vm = do
    on_host (
        b.install_tools vm.id (unique_tools (default_tools ++ payload.additional_tools))
          payload.tool_versions)
    modify (track vm.id (record { vcpus = payload.vcpus; memory_mb = payload.memory_mb }))
    status ← gets (λ s. b.vm_status vm.id s.host)
    worker ← gets worker_id
    on_db (
        Vms.create (
          vm_row (or_nil (b.parse_id vm.id)) payload.name status config payload.vcpus
            payload.memory_mb worker []))
    update_worker_resources b
    success b task_id started (
        (text "vm_id", string vm.id)
        ∷ (text "name", string payload.name)
        ∷ (text "status", string (text "running"))
        ∷ [])

  unfoldable pub start_created :
      Text → ℕ → VmCreatePayload → Result Text Vm × VmConfig → Action (World W) Outcome
  unfolding finish_vm
  start_created task_id started payload (err e, config) = failure b task_id started e
  start_created task_id started payload (ok vm, config) = do
    problem ← on_host (b.start_vm vm.id)
    elim problem [
      | some e ↦ failure b task_id started (text "failed to start VM: " ++ e)
      | none ↦ finish_vm task_id started payload config vm
    ]

  abbrev pub create_vm : VmConfig → Action (World W) (Result Text Vm × VmConfig)
  create_vm config s = let (r, c, v) = b.create_vm config s.host in ((r, c), record s { host = v })

  unfoldable pub handle_vm_create : Text → Option VmCreatePayload → Action (World W) Outcome
  unfolding start_created
  handle_vm_create task_id none = pure (err invalid_payload)
  handle_vm_create task_id (some payload) = do
    started ← the_time b
    vm_id ← on_host b.new_id
    made ← create_vm (vm_config vm_id payload.vcpus payload.memory_mb)
    start_created task_id started payload made

  unfoldable pub execution : Text → ℕ → ℕ → VmExecutePayload → ExecResult → Execution
  execution id started now payload r = record {
    id = id;
    vm_id = some (or_nil (b.parse_id payload.vm_id));
    command = payload.command;
    args = payload.args;
    exit_code = some r.exit_code;
    stdout = some r.stdout;
    stderr = some r.stderr;
    started_at = started;
    completed_at = some now;
    duration_ms = some (now - started);
  }

  unfoldable pub executed : Text → Text → ℕ → ExecResult → Action (World W) Outcome
  executed task_id vm_id started r s = (
    ok (record {
      task_id = task_id;
      success = r.exit_code == 0;
      result =
          (text "vm_id", string vm_id)
          ∷ (text "exit_code", number r.exit_code)
          ∷ (text "stdout", string r.stdout)
          ∷ (text "stderr", string r.stderr)
          ∷ [];
      error =
          if r.exit_code == 0
          then []
          else text "command failed with exit code " ++ itoa r.exit_code;
      duration = b.now s.host - started;
      started_at = started;
    }),
    s,
  )

  unfoldable pub handle_vm_execute : Text → Option VmExecutePayload → Action (World W) Outcome
  unfolding execution executed
  handle_vm_execute task_id none = pure (err invalid_payload)
  handle_vm_execute task_id (some payload) = do
    started ← the_time b
    result ←
        on_host
          (b.execute_command payload.vm_id (record { cmd = payload.command; args = payload.args }))
    elim result [
      | err e ↦ failure b task_id started e
      | ok r ↦ do
        id ← on_host b.new_id
        now ← the_time b
        on_db (Vms.create_execution (execution id started now payload r))
        executed task_id payload.vm_id started r
    ]

  -- The id in the payload, none where it is missing or no text.
  unfoldable pub handle_vm_delete : Text → Option Text → Action (World W) Outcome
  unfolding update_worker_resources
  handle_vm_delete task_id none = pure (err invalid_payload)
  handle_vm_delete task_id (some vm_id) = do
    started ← the_time b
    problem ← on_host (b.delete_vm vm_id)
    elim problem [
      | some e ↦ failure b task_id started e
      | none ↦ do
        modify (untrack vm_id)
        on_db (Vms.delete_row (or_nil (b.parse_id vm_id)))
        update_worker_resources b
        success b task_id started ((text "vm_id", string vm_id) ∷ [])
    ]
