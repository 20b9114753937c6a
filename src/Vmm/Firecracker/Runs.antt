-- ===== src/Vmm/Firecracker/Runs.antt =====
-- Sequences of calls of a FirecrackerOrchestrator, from one with no VM.
use aetherium.Base.{
  ◌≡◌, refl, sym, ap, ◌∙◌, inl, inr, Bool, true, false, Option, none, some, ◌++◌, ◌∷◌, [], List,
  Bool-cases, Option-cases, Text, text_eq, lookup,
}
use aetherium.Network.Address.{mask, ip_string_pos}
use aetherium.Network.Allocator.Contract.{address}
use aetherium.Network.Host.{Host}
use aetherium.Network.Manager.{Manager}
use aetherium.Network.Manager.Leases.{IsValid}
use aetherium.Network.Manager.Release.{
  delete-absent, delete_tap_device-IsValid, delete_tap_device_frees,
}
use aetherium.Network.Manager.Tap.{delete_tap_device}
use aetherium.Vmm.{VmConfig, is_running}
use aetherium.Vmm.Firecracker.{Config, Sdk, VmmError, Orchestrator, with_network, vm_ip}
use aetherium.Vmm.Firecracker.Vms.{create_vm, start_vm, stop_vm, clean_up, delete_handle, delete_vm}
use aetherium.Vmm.Firecracker.Views.{ip_of, view-delete_self, view-delete_other}
use aetherium.Vmm.Firecracker.Leases.{
  Leased, vm_ip-append, create_vm-Leased, start_vm-Leased, stop_vm-Leased,
}

pub data Call : Type 0 where
  create : VmConfig → Call
  start : Text → Call
  stop : Text → Bool → Call
  remove : Text → Call

module _ {M W : Type 0} (h : Host W) (sdk : Sdk M W) where
  unfoldable pub call : Call → Orchestrator M → W → Orchestrator M × W
  call (create config) o w = let (r, o1, w1) = create_vm h sdk config o w in (o1, w1)
  call (start vm_id) o w = let (r, o1, w1) = start_vm h sdk vm_id o w in (o1, w1)
  call (stop vm_id force) o w = let (r, o1, w1) = stop_vm h sdk vm_id force o w in (o1, w1)
  call (remove vm_id) o w = let (r, o1, w1) = delete_vm h sdk vm_id o w in (o1, w1)

  -- The calls one after the other, whatever each returns.
  unfoldable pub run_calls : List Call → Orchestrator M → W → Orchestrator M × W
  unfolding call
  run_calls [] o w = (o, w)
  run_calls (c ∷ cs) o w = let (o1, w1) = call c o w in run_calls cs o1 w1

  -- DeleteTAPDevice, seen through the devices.
  delete_tap_lookup :
      (vm_id : Text) (m : Manager) (w : W)
      → IsValid m
      → (k : Text) → text_eq vm_id k ≡ false
      → lookup k (delete_tap_device h vm_id m w).0.tap_devices ≡ lookup k m.tap_devices
  delete_tap_lookup vm_id m w v k other = elim (Option-cases (lookup vm_id m.tap_devices)) [
    | inl e ↦ rw (delete-absent h vm_id m w e) refl
    | inr (t, e) ↦ (delete_tap_device_frees h vm_id m w t v e).0 k ∙ rw other refl
  ]

  clean_up-Leased :
      (vm_id socket_path : Text) (o : Orchestrator M) (w : W)
      → Leased o
      → Leased (clean_up h sdk vm_id socket_path o w).0
  unfolding clean_up
  clean_up-Leased vm_id socket_path o w l = record {
    network = delete_tap_device-IsValid h vm_id o.network_manager w l.network;
    leases = λ k ip e. elim (Bool-cases (text_eq vm_id k)) [
      | inl same ↦
          let gone : none ≡ some ip =
            sym (view-delete_self (λ x. x.ip_address) vm_id k o same) ∙ e in
          cc
      | inr other ↦
          let (t, there, q) =
            l.leases k ip (sym (view-delete_other (λ x. x.ip_address) vm_id k o other) ∙ e) in
          (t, delete_tap_lookup vm_id o.network_manager w l.network k other ∙ there, q)
    ];
  }

  delete_handle-Leased :
      (vm_id socket_path : Text) (r : Option VmmError × Orchestrator M × W)
      → Leased r.1
      → Leased (delete_handle h sdk vm_id socket_path r).1
  unfolding delete_handle
  delete_handle-Leased vm_id socket_path (some e, o, w) l = l
  delete_handle-Leased vm_id socket_path (none, o, w) l = clean_up-Leased vm_id socket_path o w l

  -- Deleting a VM keeps the network valid and every remaining VM on an address of its own, whether
  -- the call succeeds or fails.
  pub delete_vm-Leased :
      (vm_id : Text) (o : Orchestrator M) (w : W) → Leased o → Leased (delete_vm h sdk vm_id o w).1
  unfolding delete_vm
  delete_vm-Leased vm_id o w l = elim (Option-cases (lookup vm_id o.vms)) [
    | inl e ↦ rw (e, delete_vm) l
    | inr (handle, e) ↦
        let path = handle.vm.config.socket_path in
        elim (Bool-cases (is_running handle.vm.status)) [
          | inl q ↦
              rw (e, q, delete_vm)
                (delete_handle-Leased vm_id path (stop_vm h sdk vm_id true o w)
                  (stop_vm-Leased h sdk vm_id true o w l))
          | inr q ↦ rw (e, q, delete_vm) (delete_handle-Leased vm_id path (none, o, w) l)
        ]
  ]

  call-Leased : (c : Call) (o : Orchestrator M) (w : W) → Leased o → Leased (call c o w).0
  unfolding call
  call-Leased (create config) o w l = create_vm-Leased h sdk config o w l
  call-Leased (start vm_id) o w l = start_vm-Leased h sdk vm_id o w l
  call-Leased (stop vm_id force) o w l = stop_vm-Leased h sdk vm_id force o w l
  call-Leased (remove vm_id) o w l = delete_vm-Leased vm_id o w l

  run_calls-Leased :
      (cs : List Call) (o : Orchestrator M) (w : W) → Leased o → Leased (run_calls cs o w).0
  unfolding run_calls
  run_calls-Leased [] o w l = l
  run_calls-Leased (c ∷ cs) o w l =
      run_calls-Leased cs (call c o w).0 (call c o w).1 (call-Leased c o w l)

  pub with_network-Leased :
      (config : Config) (m : Manager) → IsValid m → Leased {M = M} (with_network config m)
  unfolding with_network lookup
  with_network-Leased config m v = record { network = v; leases = λ k ip e. cc }

-- Two VMs of a leased orchestrator with the same address are the same.
Leased-distinct :
    {M : Type 0} (o : Orchestrator M) (k k' ip : Text)
    → Leased o
    → ip_of k o ≡ some ip
    → ip_of k' o ≡ some ip
    → k ≡ k'
Leased-distinct o k k' ip l e e' =
    let (t, there, q) = l.leases k ip e in
    let (t', there', q') = l.leases k' ip e' in
    let (x, held) = l.network.holds k t there in
    let (x', held') = l.network.holds k' t' there' in
    let a = o.network_manager.ip_allocator in
    let s : vm_ip t.ip_address ≡ address a x =
      ap vm_ip held.named ∙ vm_ip-append (address a x) (ip_string_pos a.subnet x) in
    let s' : vm_ip t'.ip_address ≡ address a x' =
      ap vm_ip held'.named ∙ vm_ip-append (address a x') (ip_string_pos a.subnet x') in
    l.network.distinct k k' t t' there there'
      (held.named ∙ ap (λ z. z ++ mask) (sym s ∙ sym q ∙ q' ∙ s') ∙ sym held'.named)

-- After any sequence of calls, successful or not, on an orchestrator that starts with no VM and a
-- valid network, no two of its VMs have the same address.
pub run_calls_distinct :
    {M W : Type 0} (h : Host W) (sdk : Sdk M W) (config : Config) (m : Manager) (cs : List Call)
    (w : W) (k k' ip : Text)
    → IsValid m
    → ip_of k (run_calls h sdk cs (with_network config m) w).0 ≡ some ip
    → ip_of k' (run_calls h sdk cs (with_network config m) w).0 ≡ some ip
    → k ≡ k'
run_calls_distinct h sdk config m cs w k k' ip v e e' =
    Leased-distinct (run_calls h sdk cs (with_network config m) w).0 k k' ip
      (run_calls-Leased h sdk cs (with_network config m) w (with_network-Leased h sdk config m v)) e
      e'
