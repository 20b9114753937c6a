-- ===== src/Vmm/Firecracker.antt =====
-- FirecrackerOrchestrator of services/core/pkg/vmm/firecracker/firecracker.go. A handle is shared by
-- pointer in Go; here the map holds it, and what a call returns is a copy of that moment.
pub mod Vms
pub mod Views
pub mod Leases
pub mod Runs
pub mod Leak
pub mod Examples
use aetherium.Base.{
  ℕ, ◌-◌, Bool, true, false, not, ◌&&◌, ◌||◌, Option, none, some, List, [], ◌∷◌, ◌++◌, map, ltb,
  ◌==◌, if◌then◌else◌, length, get_elem?, take, Result, ok, err, Text, text, text_eq, Map, lookup,
  insert, delete,
}
use aetherium.Network.Host.{Host, Stat, found, missing, stat_failed}
use aetherium.Network.Manager.{NetworkConfig, TapDevice, Manager, NetworkError, new_manager}
use aetherium.Network.Manager.Bridge.{setup_bridge}
use aetherium.Network.Manager.Tap.{create_tap_device, delete_tap_device}
use aetherium.Vmm.{VmConfig, VmStatus, created, starting, running, stopping, stopped, failed, Vm}

pub record Config : Type 0 where
  pub kernel_path : Text
  pub root_fs_template : Text
  pub socket_dir : Text
  pub default_vcpu : ℕ
  pub default_memory_mb : ℕ

-- The part of the SDK's `firecracker.Config` that varies between VMs.
pub record MachineConfig : Type 0 where
  pub socket_path : Text
  pub kernel_image_path : Text
  pub kernel_args : Text
  pub path_on_host : Text
  pub vcpu_count : ℕ
  pub mem_size_mib : ℕ
  pub mac_address : Text
  pub host_dev_name : Text
  pub vsock_path : Text
  pub log_path : Text

-- The Firecracker SDK, with `M` its machines, and what else of the host the orchestrator calls.
pub record Sdk (M W : Type 0) : Type 0 where
  pub new_machine : MachineConfig → W → Option M × W
  -- True if the call returns no error.
  pub start_machine : M → W → Bool × W
  pub stop_vmm : M → W → Bool × W
  pub shutdown : M → W → Bool × W
  pub chmod : Text → W → Bool × W
  pub remove : Text → W → Bool × W
  pub now : W → ℕ

pub data VmmError : Type 0 where
  network_not_created network_not_set_up : NetworkError → VmmError
  kernel_not_found root_fs_not_found : VmmError
  template_not_found root_fs_not_copied root_fs_not_writable : VmmError
  tap_failed : NetworkError → VmmError
  slice_out_of_range machine_not_created : VmmError
  vm_not_found : VmmError
  not_created not_running : VmStatus → VmmError
  not_started not_stopped : VmmError
  not_stopped_during_delete : VmmError → VmmError

pub record VmHandle (M : Type 0) : Type 0 where
  pub vm : Vm
  pub machine : M
  pub ip_address : Text

pub record Orchestrator (M : Type 0) : Type 0 where
  pub config : Config
  pub vms : Map (VmHandle M)
  pub network_manager : Manager

abbrev pub template_path : Text
template_path = text "/var/firecracker/rootfs-template.ext4"

abbrev pub shared_root_fs : Text
shared_root_fs = text "/var/firecracker/rootfs.ext4"

unfoldable pub vm_root_fs_path : Text → Text
vm_root_fs_path vm_id = text "/var/firecracker/rootfs-vm-" ++ (vm_id ++ text ".ext4")

unfoldable pub is_missing : Stat → Bool
is_missing found = false
is_missing missing = true
is_missing stat_failed = false

-- `tapDevice.IPAddress[:len-3]`, none where it would panic.
unfoldable pub without_suffix : Text → Option Text
without_suffix s = if ltb (length s) 3 then none else some (take (length s - 3) s)

unfoldable pub kernel_args : Text → Text
kernel_args ip =
    text "console=ttyS0 reboot=k panic=1 pci=off root=/dev/vda rw ip="
    ++ (ip ++ text "::172.16.0.1:255.255.255.0::eth0:off:8.8.8.8")

-- The address without the last three bytes if those begin with a slash.
unfoldable pub vm_ip : Text → Text
vm_ip s =
    let idx = length s - 3 in
    if ltb 3 (length s) && elim (get_elem? s idx) [ some c ↦ c == b'/' | none ↦ false ]
    then take idx s
    else s

unfoldable pub machine_config : VmConfig → TapDevice → Text → MachineConfig
unfolding kernel_args
machine_config config tap ip = record {
  socket_path = config.socket_path;
  kernel_image_path = config.kernel_path;
  kernel_args = kernel_args ip;
  path_on_host = config.root_fs_path;
  vcpu_count = config.vcpu_count;
  mem_size_mib = config.memory_mb;
  mac_address = tap.mac_addr;
  host_dev_name = tap.name;
  vsock_path = config.socket_path ++ text ".vsock";
  log_path = config.socket_path ++ text ".log";
}

unfoldable pub new_vm : VmConfig → Vm
new_vm config = record {
  id = config.id;
  status = created;
  config = config;
  created_at = 0;
  started_at = none;
  stopped_at = none;
  metadata = [];
}

abbrev pub bridge_config : NetworkConfig
bridge_config = record {
  bridge_name = text "aetherium0";
  bridge_ip = text "172.16.0.1/24";
  subnet_cidr = text "172.16.0.0/24";
  tap_prefix = text "aether-";
  enable_nat = true;
  host_interface = [];
}

module _ {M : Type 0} where
  -- NewFirecrackerOrchestratorWithNetwork.
  unfoldable pub with_network : Config → Manager → Orchestrator M
  with_network config m = record { config = config; vms = []; network_manager = m }

  unfoldable pub with_vm : Text → VmHandle M → Orchestrator M → Orchestrator M
  with_vm vm_id handle o = record o { vms = insert vm_id handle o.vms }

  unfoldable pub set_status : VmStatus → VmHandle M → VmHandle M
  set_status status handle = record handle { vm = record handle.vm { status = status } }

  unfoldable pub list_vms : Orchestrator M → List Vm
  list_vms o = map (λ entry. entry.1.vm) o.vms

  unfoldable pub get_vm_status : Text → Orchestrator M → Result VmmError Vm
  get_vm_status vm_id o = elim (lookup vm_id o.vms) [
    | none ↦ err vm_not_found
    | some handle ↦ ok handle.vm
  ]

module _ {M W : Type 0} (h : Host W) where
  unfoldable pub set_up_network :
      Config → Result NetworkError Manager → W → Result VmmError (Orchestrator M) × W
  unfolding with_network
  set_up_network config (err e) w = (err (network_not_created e), w)
  set_up_network config (ok m) w =
      let (failure, m1, w1) = setup_bridge h m w in
      (
        elim failure [ some e ↦ err (network_not_set_up e) | none ↦ ok (with_network config m1) ],
        w1,
      )

  -- NewFirecrackerOrchestrator.
  unfoldable pub new_orchestrator : Config → W → Result VmmError (Orchestrator M) × W
  new_orchestrator config w = set_up_network config (new_manager bridge_config) w
