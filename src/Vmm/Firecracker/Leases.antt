-- ===== src/Vmm/Firecracker/Leases.antt =====
-- The addresses of the VMs of a FirecrackerOrchestrator.
use aetherium.Base.{
  ◌-◌, ◌<◌, ◌≡◌, refl, sym, ◌∙◌, inl, inr, Bool, some, ◌++◌, ◌∷◌, [], arith, Bool-cases,
  Option-cases, Result, ok, err, length, get_elem?, length-append, take-append, Text, text_eq,
  text_eq_iff, text_eq_refl, lookup, lookup-insert,
}
use aetherium.Network.Address.{mask}
use aetherium.Network.Allocator.Contract.{address}
use aetherium.Network.Host.{Host}
use aetherium.Network.Manager.{TapDevice, Manager, NetworkError}
use aetherium.Network.Manager.Leases.{IsValid}
use aetherium.Network.Manager.Lifecycle.{
  existing, added, failed, create_tap_device_cases, create_tap_device-IsValid, create_tap_device_ok,
}
use aetherium.Network.Manager.Tap.{new_tap, create_tap_device}
use aetherium.Vmm.{VmConfig}
use aetherium.Vmm.Firecracker.{
  Sdk, VmmError, VmHandle, Orchestrator, without_suffix, vm_ip, machine_config, with_vm,
}
use aetherium.Vmm.Firecracker.Vms.{
  choose_root_fs, add_machine, use_tap, create_machine, create_vm, start_vm, stop_vm,
}
use aetherium.Vmm.Firecracker.Views.{
  ip_of, view-with_vm_self, view-with_vm_other, Moves, Starts, Stops, Updates, start_vm-Updates,
  stop_vm-Updates,
}

slash_at : (s : Text) → get_elem? (s ++ mask) (length s) ≡ some b'/'
slash_at [] = refl
slash_at (c ∷ s) = slash_at s

-- The VM's address is the one in front of the mask.
pub vm_ip-append : (s : Text) → 0 < length s → vm_ip (s ++ mask) ≡ s
unfolding vm_ip
vm_ip-append s h =
    let e : length (s ++ mask) - 3 ≡ length s = omega (arith, length-append s mask) in
    rw (e) (rw (slash_at s, take-append s mask) (ground (arith, length-append s mask)))

pub without_suffix-append : (s : Text) → without_suffix (s ++ mask) ≡ some s
unfolding without_suffix
without_suffix-append s =
    let e : length (s ++ mask) - 3 ≡ length s = omega (arith, length-append s mask) in
    rw (e) (rw (take-append s mask) (ground (arith, length-append s mask)))

-- The network is valid, and each VM has the address of a TAP device of its own.
pub record Leased {M : Type 0} (o : Orchestrator M) : Type 0 where
  pub network : IsValid o.network_manager
  pub leases :
      (k ip : Text)
      → ip_of k o ≡ some ip
      → (t : TapDevice) × (lookup k o.network_manager.tap_devices ≡ some t)
        × (ip ≡ vm_ip t.ip_address)

pub updated-Leased :
    {M : Type 0} (Move : Moves) (vm_id : Text) (o o' : Orchestrator M)
    → Updates Move vm_id o o'
    → Leased o
    → Leased o'
updated-Leased Move vm_id o o' u v = record {
  network = rw u.same_network v.network;
  leases = λ k ip e. rw u.same_network (v.leases k ip (sym (u.same_ips k) ∙ e));
}

-- A network in which the VMs' devices are still there.
network-Leased :
    {M : Type 0} (o : Orchestrator M) (m : Manager)
    → IsValid m
    → ((k : Text) (t : TapDevice)
        → lookup k o.network_manager.tap_devices ≡ some t
        → lookup k m.tap_devices ≡ some t)
    → Leased o
    → Leased (record o { network_manager = m })
network-Leased o m v kept l = record {
  network = v;
  leases = λ k ip e. let (t, there, q) = l.leases k ip e in (t, kept k t there, q);
}

-- A new VM on a device that the network has under its id.
with_vm-Leased :
    {M : Type 0} (vm_id : Text) (handle : VmHandle M) (o : Orchestrator M) (t : TapDevice)
    → lookup vm_id o.network_manager.tap_devices ≡ some t
    → handle.ip_address ≡ vm_ip t.ip_address
    → Leased o
    → Leased (with_vm vm_id handle o)
unfolding with_vm
with_vm-Leased vm_id handle o t e q l = record {
  network = l.network;
  leases = λ k ip f. elim (Bool-cases (text_eq vm_id k)) [
    | inl same ↦
        let r : vm_id ≡ k = (text_eq_iff vm_id k).0 same in
        let s : some handle.ip_address ≡ some ip =
          sym (view-with_vm_self (λ x. x.ip_address) vm_id k handle o same) ∙ f in
        let s' : handle.ip_address ≡ ip = cc s in (t, rw (← r) e, rw (← s') q)
    | inr other ↦
        l.leases k ip (sym (view-with_vm_other (λ x. x.ip_address) vm_id k handle o other) ∙ f)
  ];
}

module _ {M W : Type 0} (h : Host W) (sdk : Sdk M W) where
  add_machine-Leased :
      (config : VmConfig) (t : TapDevice) (o : Orchestrator M) (w : W)
      → lookup config.id o.network_manager.tap_devices ≡ some t
      → Leased o
      → Leased (add_machine h sdk config t o w).1
  unfolding add_machine
  add_machine-Leased config t o w e l = elim (Option-cases (without_suffix t.ip_address)) [
    | inl f ↦ rw (f, add_machine) l
    | inr (ip, f) ↦ elim (Option-cases (sdk.new_machine (machine_config config t ip) w).0) [
      | inl g ↦ rw (f, g, add_machine) l
      | inr (machine, g) ↦ rw (f, g, add_machine) (with_vm-Leased config.id _ o t e refl l)
    ]
  ]

  -- CreateTAPDevice keeps the devices that there are.
  create_tap_keeps :
      (vm_id : Text) (m : Manager) (w : W)
      → IsValid m
      → (k : Text) (t : TapDevice) → lookup k m.tap_devices ≡ some t
      → lookup k (create_tap_device h vm_id m w).1.tap_devices ≡ some t
  create_tap_keeps vm_id m w v k t e = elim (create_tap_device_cases h vm_id m w v) [
    | existing u f p q ↦ rw q e
    | added x a c f p q ↦
        let u = new_tap vm_id (address m.ip_allocator x ++ mask) m in
        rw q (ground (arith, lookup-insert vm_id k u m.tap_devices, text_eq_iff vm_id k, e, f))
    | failed p f s ↦ rw s.same_taps e
  ]

  pub create_tap_records :
      (vm_id : Text) (m : Manager) (w : W) (t : TapDevice)
      → IsValid m
      → (create_tap_device h vm_id m w).0 ≡ ok t
      → lookup vm_id (create_tap_device h vm_id m w).1.tap_devices ≡ some t
  create_tap_records vm_id m w t v f =
      create_tap_device_ok h vm_id m w t v f vm_id ∙ rw (text_eq_refl vm_id) refl

  use_tap-Leased :
      (config : VmConfig) (o : Orchestrator M) (r : Result NetworkError TapDevice × Manager × W)
      → IsValid r.1
      → ((k : Text) (t : TapDevice)
          → lookup k o.network_manager.tap_devices ≡ some t
          → lookup k r.1.tap_devices ≡ some t)
      → ((t : TapDevice) → r.0 ≡ ok t → lookup config.id r.1.tap_devices ≡ some t)
      → Leased o
      → Leased (use_tap h sdk config o r).1
  unfolding use_tap
  use_tap-Leased config o (err e, m, w) v kept recorded l = network-Leased o m v kept l
  use_tap-Leased config o (ok t, m, w) v kept recorded l =
      add_machine-Leased config t (record o { network_manager = m }) w (recorded t refl)
        (network-Leased o m v kept l)

  create_machine-Leased :
      (o : Orchestrator M) (r : Result VmmError VmConfig × W)
      → Leased o
      → Leased (create_machine h sdk o r).1
  unfolding create_machine
  create_machine-Leased o (err e, w) l = l
  create_machine-Leased o (ok config, w) l =
      use_tap-Leased config o (create_tap_device h config.id o.network_manager w)
        (create_tap_device-IsValid h config.id o.network_manager w l.network)
        (create_tap_keeps config.id o.network_manager w l.network)
        (λ t. create_tap_records config.id o.network_manager w t l.network) l

  -- Creating a VM keeps the network valid and every VM on an address of its own, whether the call
  -- succeeds or fails.
  pub create_vm-Leased :
      (config : VmConfig) (o : Orchestrator M) (w : W)
      → Leased o
      → Leased (create_vm h sdk config o w).1
  unfolding create_vm
  create_vm-Leased config o w l = create_machine-Leased o (choose_root_fs h sdk config w) l

  pub start_vm-Leased :
      (vm_id : Text) (o : Orchestrator M) (w : W) → Leased o → Leased (start_vm h sdk vm_id o w).1
  start_vm-Leased vm_id o w l =
      updated-Leased (Starts (start_vm h sdk vm_id o w).0) vm_id o (start_vm h sdk vm_id o w).1
        (start_vm-Updates h sdk vm_id o w) l

  pub stop_vm-Leased :
      (vm_id : Text) (force : Bool) (o : Orchestrator M) (w : W)
      → Leased o
      → Leased (stop_vm h sdk vm_id force o w).1
  stop_vm-Leased vm_id force o w l =
      updated-Leased (Stops (stop_vm h sdk vm_id force o w).0) vm_id o
        (stop_vm h sdk vm_id force o w).1 (stop_vm-Updates h sdk vm_id force o w) l
