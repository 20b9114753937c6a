-- ===== src/Worker.antt =====
-- Worker of services/core/pkg/worker: its state, what it calls, and the helpers of its handlers
-- (worker.go, workspace_handlers.go). The task payloads come decoded, none where the JSON does not fit.
pub mod Registration
pub mod Vms
pub mod Shell
pub mod Tools
pub mod Prep
pub mod Workspaces
pub mod Prompts
pub mod Idle
pub mod Examples
use aetherium.Base.{
  ℕ, ◌+◌, ◌-◌, Bool, true, false, not, ◌&&◌, ◌||◌, Option, none, some, List, [], ◌∷◌, ◌++◌,
  if◌then◌else◌, length, Result, ok, err, Text, text, text_eq, Map, insert, delete, Action, ◌>>=◌,
  ◌>>◌, pure, modify, gets,
}
use aetherium.Storage.{Json}
use aetherium.Storage.Db.{Db, DbError}
use aetherium.Storage.Workers
use aetherium.Vmm.{VmConfig, Vm}

-- vmm.Command and vmm.ExecResult of services/core/pkg/vmm/interface.go.
pub record Command : Type 0 where
  pub cmd : Text
  pub args : List Text

pub record ExecResult : Type 0 where
  pub exit_code : ℕ
  pub stdout : Text
  pub stderr : Text

-- What a worker calls: an orchestrator (vmm.VMOrchestrator), the tool installer, and the libraries for
-- ids and the time. An error is its message.
pub record Backend (W : Type 0) : Type 0 where
  -- The configuration is given back as the call leaves it.
  pub create_vm : VmConfig → W → Result Text Vm × VmConfig × W
  pub start_vm : Text → W → Option Text × W
  pub delete_vm : Text → W → Option Text × W
  pub execute_command : Text → Command → W → Result Text ExecResult × W
  -- `vm.Status` of the VM that CreateVM has returned by pointer, as a text.
  pub vm_status : Text → W → Text
  -- ProvideSecretsOnBoot, of an orchestrator that has it.
  pub provide_secrets : Option (Text → Map Text → W → Bool × W)
  pub install_tools : Text → List Text → Map Text → W → Bool × W
  -- `uuid.New()` and `uuid.Parse`.
  pub new_id : W → Text × W
  pub parse_id : Text → Option Text
  pub now : W → ℕ
  -- discovery.ServiceRegistry, which may be absent: Register, Heartbeat, Deregister, true where they do
  -- not fail.
  pub has_registry : Bool
  pub register : Text → W → Bool × W
  pub heartbeat : Text → W → Bool × W
  pub deregister : Text → W → Bool × W

-- vmResourceUsage.
pub record Usage : Type 0 where
  pub vcpus : ℕ
  pub memory_mb : ℕ

-- WorkerInfo of services/gateway/pkg/discovery/types.go, with its WorkerResources.
pub record WorkerInfo : Type 0 where
  pub id : Text
  pub hostname : Text
  pub address : Text
  pub zone : Text
  pub labels : Map Text
  pub capabilities : List Text
  pub status : Text
  pub started_at : ℕ
  pub last_seen : ℕ
  pub cpu_cores : ℕ
  pub memory_mb : ℕ
  pub disk_gb : ℕ
  pub max_vms : ℕ
  pub used_cpu_cores : ℕ
  pub used_memory_mb : ℕ
  pub used_disk_gb : ℕ
  pub vm_count : ℕ

-- A worker with the database and the rest of the world.
pub record World (W : Type 0) : Type 0 where
  pub db : Db
  pub host : W
  pub running_vms : Map Usage
  pub tasks_processed : ℕ
  pub worker_info : Option WorkerInfo

-- queue.TaskResult of services/core/pkg/queue/queue.go.
pub record TaskResult : Type 0 where
  pub task_id : Text
  pub success : Bool
  pub result : Map Json
  pub error : Text
  pub duration : ℕ
  pub started_at : ℕ

-- The errors that a handler returns instead of a result.
pub data HandlerError : Type 0 where
  invalid_payload invalid_workspace_id invalid_prompt_id prompt_not_found : HandlerError
  workspace_not_found : HandlerError

abbrev pub Outcome : Type 0
Outcome = Result HandlerError TaskResult

abbrev pub usages : Map Usage → List Usage
usages [] = []
usages ((k, u) ∷ m) = u ∷ usages m

abbrev pub used_cpu : List Usage → ℕ
used_cpu [] = 0
used_cpu (u ∷ us) = u.vcpus + used_cpu us

abbrev pub used_memory : List Usage → ℕ
used_memory [] = 0
used_memory (u ∷ us) = u.memory_mb + used_memory us

abbrev pub is_member : Text → List Text → Bool
is_member t [] = false
is_member t (x ∷ xs) = text_eq x t || is_member t xs

-- The tools in the order of their first occurrence; `seen` is toolSet.
unfoldable pub unique_from : List Text → List Text → List Text
unique_from seen [] = []
unique_from seen (t ∷ ts) =
    let old = is_member t seen in
    let rest = unique_from (if old then seen else t ∷ seen) ts in if old then rest else t ∷ rest

unfoldable pub unique_tools : List Text → List Text
unfolding unique_from
unique_tools ts = unique_from [] ts

-- GetDefaultTools of services/core/pkg/tools/installer.go.
abbrev pub default_tools : List Text
default_tools = text "git" ∷ text "nodejs" ∷ text "bun" ∷ text "claude-code" ∷ []

unfoldable pub vm_config : Text → ℕ → ℕ → VmConfig
vm_config vm_id vcpus memory_mb = record {
  id = vm_id;
  kernel_path = text "/var/firecracker/vmlinux";
  root_fs_path = [];
  socket_path = text "/tmp/aetherium-vm-" ++ (vm_id ++ text ".sock");
  vcpu_count = vcpus;
  memory_mb = memory_mb;
  env = [];
  metadata = [];
  default_tools = [];
  additional_tools = [];
  tool_versions = [];
}

-- `id, _ := uuid.Parse(s)`: the nil UUID where it does not parse.
abbrev pub or_nil : Option Text → Text
or_nil none = text "00000000-0000-0000-0000-000000000000"
or_nil (some id) = id

module _ {W : Type 0} where
  abbrev pub on_db : {A : Type 0} → (Db → A × Db) → Action (World W) A
  on_db f s = let (a, d) = f s.db in (a, record s { db = d })

  abbrev pub on_host : {A : Type 0} → (W → A × W) → Action (World W) A
  on_host f s = let (a, v) = f s.host in (a, record s { host = v })

  abbrev pub track : Text → Usage → World W → World W
  track vm_id u s = record s {
    running_vms = insert vm_id u s.running_vms;
    tasks_processed = s.tasks_processed + 1;
  }

  abbrev pub untrack : Text → World W → World W
  untrack vm_id s = record s { running_vms = delete vm_id s.running_vms }

  abbrev pub worker_id : World W → Option Text
  worker_id s = elim s.worker_info [ none ↦ none | some info ↦ some info.id ]

module _ {W : Type 0} (b : Backend W) where
  abbrev pub the_time : Action (World W) ℕ
  the_time = gets (λ s. b.now s.host)

  unfoldable pub store_usage : Option WorkerInfo → Action (World W) (Unit {0})
  store_usage none s = (tt, s)
  store_usage (some info) s =
      let us = usages s.running_vms in
      let (failure, d) =
        Workers.update_resources (b.now s.host) info.id (used_cpu us) (used_memory us) (length us)
          s.db in
      (tt, record s { db = d })

  -- updateWorkerResources, of a worker that has its WorkerInfo. A failure is only logged.
  unfoldable pub update_worker_resources : Action (World W) (Unit {0})
  unfolding store_usage
  update_worker_resources s = store_usage s.worker_info s

  abbrev pub failure : Text → ℕ → Text → Action (World W) Outcome
  failure task_id started message s = (
    ok (record {
      task_id = task_id;
      success = false;
      result = [];
      error = message;
      duration = b.now s.host - started;
      started_at = started;
    }),
    s,
  )

  abbrev pub success : Text → ℕ → Map Json → Action (World W) Outcome
  success task_id started result s = (
    ok (record {
      task_id = task_id;
      success = true;
      result = result;
      error = [];
      duration = b.now s.host - started;
      started_at = started;
    }),
    s,
  )
