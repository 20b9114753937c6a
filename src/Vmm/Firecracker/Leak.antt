-- ===== src/Vmm/Firecracker/Leak.antt =====
-- What is left when CreateVM cannot make the machine (services/core/pkg/vmm/firecracker/firecracker.go).
use aetherium.Base.{
  inl, inr, sym, ap, ◌∙◌, ◌≡◌, refl, true, none, some, Option-cases, ok, is_err, Text, lookup,
}
use aetherium.Network.Host.{Host}
use aetherium.Network.Manager.{TapDevice, Manager}
use aetherium.Network.Manager.Leases.{IsValid}
use aetherium.Network.Manager.Tap.{create_tap_device}
use aetherium.Vmm.{VmConfig}
use aetherium.Vmm.Firecracker.{
  MachineConfig, Sdk, vm_not_found, Orchestrator, without_suffix, machine_config,
}
use aetherium.Vmm.Firecracker.Leases.{create_tap_records}
use aetherium.Vmm.Firecracker.Vms.{
  choose_root_fs, add_machine, use_tap, create_machine, create_vm, delete_vm,
}

module _ {M W : Type 0} (h : Host W) (sdk : Sdk M W) where
  add_machine-fails :
      (config : VmConfig) (tap : TapDevice) (o : Orchestrator M) (w : W)
      → ((c : MachineConfig) (v : W) → (sdk.new_machine c v).0 ≡ none)
      → (is_err (add_machine h sdk config tap o w).0 ≡ true)
        × ((add_machine h sdk config tap o w).1 ≡ o)
  unfolding add_machine
  add_machine-fails config tap o w broken = elim (Option-cases (without_suffix tap.ip_address)) [
    | inl f ↦ rw (f, add_machine) (refl, refl)
    | inr (ip, f) ↦
        let g = broken (machine_config config tap ip) w in rw (f, g, add_machine) (refl, refl)
  ]

  delete_vm_absent :
      (vm_id : Text) (o : Orchestrator M) (w : W)
      → lookup vm_id o.vms ≡ none
      → delete_vm h sdk vm_id o w ≡ (some vm_not_found, o, w)
  unfolding delete_vm
  delete_vm_absent vm_id o w e = rw (e, delete_vm) refl

  create_vm_add :
      (config chosen : VmConfig) (o : Orchestrator M) (w w1 : W) (tap : TapDevice) (m : Manager)
      (w2 : W)
      → choose_root_fs h sdk config w ≡ (ok chosen, w1)
      → create_tap_device h chosen.id o.network_manager w1 ≡ (ok tap, m, w2)
      → create_vm h sdk config o w
        ≡ add_machine h sdk chosen tap (record o { network_manager = m }) w2
  unfolding create_vm create_machine use_tap
  create_vm_add config chosen o w w1 tap m w2 e f = rw (e, f) refl

  -- Where the machine of a new VM cannot be made after its TAP device was, CreateVM fails and the device
  -- keeps its address; the VM is not found by DeleteVM, which changes nothing.
  pub delete_vm-create_vm_leak :
      (config chosen : VmConfig) (o : Orchestrator M) (w w1 : W) (tap : TapDevice) (m : Manager)
      (w2 w3 : W)
      → IsValid o.network_manager
      → choose_root_fs h sdk config w ≡ (ok chosen, w1)
      → create_tap_device h chosen.id o.network_manager w1 ≡ (ok tap, m, w2)
      → ((c : MachineConfig) (v : W) → (sdk.new_machine c v).0 ≡ none)
      → lookup chosen.id o.vms ≡ none
      → let r = create_vm h sdk config o w in
        (is_err r.0 ≡ true)
        × (lookup chosen.id r.1.network_manager.tap_devices ≡ some tap)
        × (delete_vm h sdk chosen.id r.1 w3 ≡ (some vm_not_found, r.1, w3))
  delete_vm-create_vm_leak config chosen o w w1 tap m w2 w3 v e f broken absent =
      let o1 : Orchestrator M = record o { network_manager = m } in
      let (p, q) = add_machine-fails chosen tap o1 w2 broken in
      rw (create_vm_add config chosen o w w1 tap m w2 e f)
        (p, rw q (recorded), rw q (delete_vm_absent chosen.id o1 w3 absent))
    where
      recorded : lookup chosen.id m.tap_devices ≡ some tap
      recorded =
          sym (ap (λ r. lookup chosen.id r.1.tap_devices) f)
          ∙ create_tap_records h sdk chosen.id o.network_manager w1 tap v (ap (λ r. r.0) f)
