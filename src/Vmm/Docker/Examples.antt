-- ===== src/Vmm/Docker/Examples.antt =====
-- A run of a DockerOrchestrator whose commands succeed.
use aetherium.Base.{
  ℕ, ◌+◌, ◌==◌, Bool, false, Text, arith, ◌≡◌, refl, true, none, some, [], ◌∷◌, text, text_eq,
  lookup,
}
use aetherium.Vmm.{VmConfig, running, stopped}
use aetherium.Vmm.Docker.{VmHandle, Orchestrator, Docker, start_vm, stop_vm}
use aetherium.Vmm.Docker.Status.{status_of, StopsContainers, start_vm-stop_vm}

abbrev docker : Docker ℕ
docker = record {
  run = λ args w. (true, w + 1);
  output = λ args w. (some (text "running"), w);
  combined_output = λ args w. (some (text "c1"), w);
  now = λ w. w;
  to_upper = λ s. s;
}

abbrev vm_config : VmConfig
vm_config = record {
  id = text "a";
  kernel_path = [];
  root_fs_path = [];
  socket_path = [];
  vcpu_count = 1;
  memory_mb = 256;
  env = [];
  metadata = [];
  default_tools = [];
  additional_tools = [];
  tool_versions = [];
}

abbrev handle : VmHandle
handle = record {
  container_id = text "c1";
  vm = record {
    id = text "a";
    status = running;
    config = vm_config;
    created_at = 1;
    started_at = some 2;
    stopped_at = none;
    metadata = [];
  };
}

abbrev one : Orchestrator
one = record {
  config = record { network = text "bridge"; image = text "ubuntu:22.04" };
  vms = (text "a", handle) ∷ [];
}

there : lookup (text "a") one.vms ≡ some handle
unfolding lookup text_eq
there = refl

stops : (stop_vm docker (text "a") true one 0).0 ≡ none
unfolding stop_vm lookup text_eq
stops = refl

-- The container runs until the first command.
abbrev alive : Text → ℕ → Bool
alive container_id w = w == 0

docker-StopsContainers : StopsContainers docker alive
docker-StopsContainers verb container_id w v e = ground arith

start_vm-stop_vm_example :
    let s = stop_vm docker (text "a") true one 0 in
    let r = start_vm docker (text "a") s.1 s.2 in
    (status_of (text "a") s.1 ≡ some stopped)
    × (r.0 ≡ none)
    × (status_of (text "a") r.1 ≡ some running)
    × (alive (text "c1") r.2 ≡ false)
start_vm-stop_vm_example =
    start_vm-stop_vm docker alive (text "a") true one 0 handle docker-StopsContainers there stops
