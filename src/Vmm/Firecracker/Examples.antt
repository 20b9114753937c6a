-- ===== src/Vmm/Firecracker/Examples.antt =====
-- A run of a FirecrackerOrchestrator on the machine of Network/Examples.antt.
use aetherium.Base.{
  is_err, ok, ◌++◌, ◌≡◌, refl, true, none, some, List, [], ◌∷◌, Text, text, text_eq, itoa, lookup,
  insert,
}
use aetherium.Network.Address.{ip_string, mask}
use aetherium.Network.Allocator.{new_allocator, is_allocated, allocate_ip}
use aetherium.Network.Examples.{Machine, willing, network, subnet, fresh}
use aetherium.Network.Manager.{Manager, TapDevice, initial_manager}
use aetherium.Network.Manager.Leases.{initial_manager-IsValid}
use aetherium.Network.Manager.Tap.{new_tap, set_up_tap, create_tap_device}
use aetherium.Vmm.{VmConfig}
use aetherium.Vmm.Firecracker.{
  vm_not_found, Config, MachineConfig, Sdk, Orchestrator, with_network, with_vm, without_suffix,
  vm_ip,
}
use aetherium.Vmm.Firecracker.Runs.{
  Call, create, run_calls, run_calls_distinct, with_network-Leased,
}
use aetherium.Vmm.Firecracker.Leases.{Leased}
use aetherium.Vmm.Firecracker.Leak.{delete_vm-create_vm_leak}
use aetherium.Vmm.Firecracker.Views.{ip_of}
use aetherium.Vmm.Firecracker.Vms.{create_vm, delete_vm, add_machine, choose_root_fs}

abbrev config : Config
config = record {
  kernel_path = text "/var/firecracker/vmlinux";
  root_fs_template = text "/var/firecracker/rootfs-template.ext4";
  socket_dir = text "/tmp";
  default_vcpu = 1;
  default_memory_mb = 256;
}

-- A machine is its configuration, and every call succeeds.
abbrev sdk : Sdk MachineConfig Machine
sdk = record {
  new_machine = λ c w. (some c, w);
  start_machine = λ m w. (true, w);
  stop_vmm = λ m w. (true, w);
  shutdown = λ m w. (true, w);
  chmod = λ path w. (true, w);
  remove = λ path w. (true, w);
  now = λ w. 5;
}

abbrev vm_config : Text → VmConfig
vm_config id = record {
  id = id;
  kernel_path = text "/k";
  root_fs_path = text "/r";
  socket_path = text "/s";
  vcpu_count = 1;
  memory_mb = 256;
  env = [];
  metadata = [];
  default_tools = [];
  additional_tools = [];
  tool_versions = [];
}

abbrev calls : List Call
calls = create (vm_config (text "a")) ∷ create (vm_config (text "b")) ∷ []

abbrev after : Orchestrator MachineConfig
after = (run_calls willing sdk calls (with_network config fresh) none).0

has_address : ip_of (text "b") after ≡ some (text "172.16.0.3")
unfolding run_calls create_vm add_machine choose_root_fs create_tap_device set_up_tap allocate_ip
    initial_manager new_allocator is_allocated lookup insert text_eq with_network with_vm vm_ip
    without_suffix ip_string itoa
has_address = refl

run_calls_distinct_example : text "b" ≡ text "b"
run_calls_distinct_example =
    run_calls_distinct willing sdk config fresh calls none (text "b") (text "b") (text "172.16.0.3")
      (initial_manager-IsValid network subnet) has_address has_address

empty-Leased : Leased {M = MachineConfig} (with_network config fresh)
empty-Leased = with_network-Leased willing sdk config fresh (initial_manager-IsValid network subnet)

abbrev broken_sdk : Sdk MachineConfig Machine
broken_sdk = record sdk { new_machine = λ c w. (none, w) }

abbrev empty : Orchestrator MachineConfig
empty = record { config = config; vms = []; network_manager = fresh }

abbrev leaked_tap : TapDevice
leaked_tap = new_tap (text "a") (ip_string subnet 2 ++ mask) fresh

abbrev leaking : Manager
leaking = (create_tap_device willing (text "a") fresh none).1

chosen :
    choose_root_fs willing broken_sdk (vm_config (text "a")) none
    ≡ (ok (vm_config (text "a")), none)
unfolding choose_root_fs text_eq
chosen = refl

tap_made : create_tap_device willing (text "a") fresh none ≡ (ok leaked_tap, leaking, none)
unfolding create_tap_device set_up_tap allocate_ip initial_manager new_allocator is_allocated lookup
tap_made = refl

not_there : lookup (text "a") empty.vms ≡ none
unfolding lookup
not_there = refl

delete_vm-create_vm_leak_example :
    let r = create_vm willing broken_sdk (vm_config (text "a")) empty none in
    (is_err r.0 ≡ true)
    × (lookup (text "a") r.1.network_manager.tap_devices ≡ some leaked_tap)
    × (delete_vm willing broken_sdk (text "a") r.1 none ≡ (some vm_not_found, r.1, none))
delete_vm-create_vm_leak_example =
    delete_vm-create_vm_leak willing broken_sdk (vm_config (text "a")) (vm_config (text "a")) empty
      none none leaked_tap leaking none none (initial_manager-IsValid network subnet) chosen
      tap_made (λ c v. refl) not_there
