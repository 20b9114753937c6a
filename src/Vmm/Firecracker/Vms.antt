-- ===== src/Vmm/Firecracker/Vms.antt =====
-- CreateVM, StartVM, StopVM and DeleteVM of services/core/pkg/vmm/firecracker/firecracker.go.
use aetherium.Base.{
  Bool, true, not, ◌||◌, Option, none, some, [], ◌∷◌, ◌++◌, if◌then◌else◌, Result, ok, err, Text,
  text, text_eq, lookup, delete,
}
use aetherium.Network.Host.{Host, found}
use aetherium.Network.Manager.{TapDevice, Manager, NetworkError}
use aetherium.Network.Manager.Tap.{create_tap_device, delete_tap_device}
use aetherium.Vmm.{VmConfig, running, stopping, stopped, failed, Vm, is_created, is_running}
use aetherium.Vmm.Firecracker.{
  Sdk, VmmError, kernel_not_found, root_fs_not_found, template_not_found, root_fs_not_copied,
  root_fs_not_writable, tap_failed, slice_out_of_range, machine_not_created, vm_not_found,
  not_created, not_running, not_started, not_stopped, not_stopped_during_delete, VmHandle,
  Orchestrator, template_path, shared_root_fs, vm_root_fs_path, is_missing, without_suffix, vm_ip,
  machine_config, new_vm, with_vm, set_status,
}

module _ {M W : Type 0} (h : Host W) (sdk : Sdk M W) where
  -- createVMRootfs.
  unfoldable pub create_vm_root_fs : Text → W → Result VmmError Text × W
  unfolding vm_root_fs_path is_missing
  create_vm_root_fs vm_id w =
      if is_missing (h.stat template_path w)
      then (err template_not_found, w)
      else let path = vm_root_fs_path vm_id in
        let (copied, w1) =
          h.run (text "cp" ∷ text "--reflink=auto" ∷ template_path ∷ path ∷ []) w in
        if not copied
        then (err root_fs_not_copied, w1)
        else let (writable, w2) = sdk.chmod path w1 in
          if not writable then (err root_fs_not_writable, (sdk.remove path w2).1) else (ok path, w2)

  unfoldable pub own_root_fs : VmConfig → W → Result VmmError VmConfig × W
  own_root_fs config w =
      let (made, w1) = create_vm_root_fs config.id w in
      (elim made [ err e ↦ err e | ok path ↦ ok (record config { root_fs_path = path }) ], w1)

  -- The checks of CreateVM, and the configuration with the path of the root filesystem to use.
  unfoldable pub choose_root_fs : VmConfig → W → Result VmmError VmConfig × W
  unfolding is_missing own_root_fs
  choose_root_fs config w =
      if is_missing (h.stat config.kernel_path w)
      then (err kernel_not_found, w)
      else if text_eq config.root_fs_path [] || text_eq config.root_fs_path shared_root_fs
      then own_root_fs config w
      else if is_missing (h.stat config.root_fs_path w)
      then (err root_fs_not_found, w)
      else (ok config, w)

  -- The machine on a TAP device, and its entry in the map.
  unfoldable pub add_machine :
      VmConfig → TapDevice → Orchestrator M → W → Result VmmError Vm × Orchestrator M × W
  unfolding with_vm without_suffix
  add_machine config tap o w = elim (without_suffix tap.ip_address) [
    | none ↦ (err slice_out_of_range, o, w)
    | some ip ↦
        let (made, w1) = sdk.new_machine (machine_config config tap ip) w in
        elim made [
          | none ↦ (err machine_not_created, o, w1)
          | some machine ↦
              let handle : VmHandle M = record {
                vm = new_vm config;
                machine = machine;
                ip_address = vm_ip tap.ip_address;
              } in
              (ok (new_vm config), with_vm config.id handle o, w1)
        ]
  ]

  unfoldable pub use_tap :
      VmConfig
      → Orchestrator M
      → Result NetworkError TapDevice × Manager × W
      → Result VmmError Vm × Orchestrator M × W
  use_tap config o (err e, m, w) = (err (tap_failed e), record o { network_manager = m }, w)
  use_tap config o (ok tap, m, w) = add_machine config tap (record o { network_manager = m }) w

  unfoldable pub create_machine :
      Orchestrator M → Result VmmError VmConfig × W → Result VmmError Vm × Orchestrator M × W
  create_machine o (err e, w) = (err e, o, w)
  create_machine o (ok config, w) =
      use_tap config o (create_tap_device h config.id o.network_manager w)

  -- CreateVM. The path that it chooses is also written to the caller's configuration.
  unfoldable pub create_vm : VmConfig → Orchestrator M → W → Result VmmError Vm × Orchestrator M × W
  unfolding create_machine use_tap
  create_vm config o w = create_machine o (choose_root_fs config w)

  unfoldable pub start_handle :
      Text → VmHandle M → Orchestrator M → W → Option VmmError × Orchestrator M × W
  unfolding is_created
  start_handle vm_id handle o w =
      if not (is_created handle.vm.status)
      then (some (not_created handle.vm.status), o, w)
      else let (succeeded, w1) = sdk.start_machine handle.machine w in
        if not succeeded
        then (some not_started, with_vm vm_id (set_status failed handle) o, w1)
        else let vm = record handle.vm { status = running; started_at = some (sdk.now w1) } in
          (none, with_vm vm_id (record handle { vm = vm }) o, w1)

  unfoldable pub start_vm : Text → Orchestrator M → W → Option VmmError × Orchestrator M × W
  unfolding start_handle
  start_vm vm_id o w = elim (lookup vm_id o.vms) [
    | none ↦ (some vm_not_found, o, w)
    | some handle ↦ start_handle vm_id handle o w
  ]

  unfoldable pub stop_handle :
      Text → Bool → VmHandle M → Orchestrator M → W → Option VmmError × Orchestrator M × W
  unfolding is_running
  stop_handle vm_id force handle o w =
      if not (is_running handle.vm.status)
      then (some (not_running handle.vm.status), o, w)
      else let (succeeded, w1) =
          (if force then sdk.stop_vmm handle.machine w else sdk.shutdown handle.machine w) in
        if not succeeded
        then (some not_stopped, with_vm vm_id (set_status stopping handle) o, w1)
        else let vm = record handle.vm { status = stopped; stopped_at = some (sdk.now w1) } in
          (none, with_vm vm_id (record handle { vm = vm }) o, w1)

  unfoldable pub stop_vm : Text → Bool → Orchestrator M → W → Option VmmError × Orchestrator M × W
  unfolding stop_handle
  stop_vm vm_id force o w = elim (lookup vm_id o.vms) [
    | none ↦ (some vm_not_found, o, w)
    | some handle ↦ stop_handle vm_id force handle o w
  ]

  remove_root_fs : Text → W → W
  remove_root_fs path w = elim (h.stat path w) [ found ↦ (sdk.remove path w).1 | other ↦ w ]

  -- The files of a VM: sockets and root filesystem. Failures are only logged.
  unfoldable pub remove_files : Text → Text → W → W
  unfolding remove_root_fs vm_root_fs_path
  remove_files vm_id socket_path w =
      let w1 = (sdk.remove socket_path w).1 in
      let w2 = (sdk.remove (socket_path ++ text ".vsock") w1).1 in
      remove_root_fs (vm_root_fs_path vm_id) w2

  -- DeleteVM from the clean-up of the TAP device on.
  unfoldable pub clean_up : Text → Text → Orchestrator M → W → Orchestrator M × W
  unfolding remove_files
  clean_up vm_id socket_path o w =
      let (m, w1) = delete_tap_device h vm_id o.network_manager w in
      (
        record o { network_manager = m; vms = delete vm_id o.vms },
        remove_files vm_id socket_path w1,
      )

  unfoldable pub delete_handle :
      Text → Text → Option VmmError × Orchestrator M × W → Option VmmError × Orchestrator M × W
  unfolding clean_up
  delete_handle vm_id socket_path (some e, o, w) = (some (not_stopped_during_delete e), o, w)
  delete_handle vm_id socket_path (none, o, w) =
      let (o1, w1) = clean_up vm_id socket_path o w in (none, o1, w1)

  unfoldable pub delete_vm : Text → Orchestrator M → W → Option VmmError × Orchestrator M × W
  unfolding delete_handle is_running
  delete_vm vm_id o w = elim (lookup vm_id o.vms) [
    | none ↦ (some vm_not_found, o, w)
    | some handle ↦
        delete_handle vm_id handle.vm.config.socket_path
          (if is_running handle.vm.status then stop_vm vm_id true o w else (none, o, w))
  ]
