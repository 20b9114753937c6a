-- ===== src/Vmm/Firecracker/Views.antt =====
-- What can be seen of one VM of an orchestrator, and what the operations on its handle do to it.
use mathlib.Core.Option.{map as map_some}
use aetherium.Base.{
  ◌≡◌, refl, ◌∙◌, inl, inr, Bool, true, false, Option, none, some, if◌then◌else◌, Bool-cases,
  Option-cases, Text, text_eq, text_eq_iff, lookup, delete, lookup-insert, lookup-delete,
  lookup-insert_self,
}
use aetherium.Network.Host.{Host}
use aetherium.Vmm.{
  VmStatus, created, running, stopping, stopped, failed, is_created, is_running,
  created_of_is_created, running_of_is_running,
}
use aetherium.Vmm.Firecracker.{
  VmmError, vm_not_found, not_created, not_running, not_started, not_stopped, Sdk, VmHandle,
  Orchestrator, with_vm, set_status,
}
use aetherium.Vmm.Firecracker.Vms.{start_handle, start_vm, stop_handle, stop_vm}

module _ {M : Type 0} where
  abbrev pub view : {A : Type 0} → (VmHandle M → A) → Text → Orchestrator M → Option A
  view f k o = map_some f (lookup k o.vms)

  abbrev pub status_of : Text → Orchestrator M → Option VmStatus
  status_of = view (λ handle. handle.vm.status)

  abbrev pub ip_of : Text → Orchestrator M → Option Text
  ip_of = view (λ handle. handle.ip_address)

  pub view-with_vm :
      {A : Type 0} (f : VmHandle M → A) (vm_id k : Text) (handle : VmHandle M) (o : Orchestrator M)
      → view f k (with_vm vm_id handle o)
        ≡ (if text_eq vm_id k then some (f handle) else view f k o)
  unfolding with_vm
  view-with_vm f vm_id k handle o = elim (Bool-cases (text_eq vm_id k)) [
    | inl e ↦ rw (lookup-insert vm_id k handle o.vms, e) refl
    | inr e ↦ rw (lookup-insert vm_id k handle o.vms, e) refl
  ]

  pub view-with_vm_self :
      {A : Type 0} (f : VmHandle M → A) (vm_id k : Text) (handle : VmHandle M) (o : Orchestrator M)
      → text_eq vm_id k ≡ true
      → view f k (with_vm vm_id handle o) ≡ some (f handle)
  view-with_vm_self f vm_id k handle o e = view-with_vm f vm_id k handle o ∙ rw e refl

  pub view-with_vm_other :
      {A : Type 0} (f : VmHandle M → A) (vm_id k : Text) (handle : VmHandle M) (o : Orchestrator M)
      → text_eq vm_id k ≡ false
      → view f k (with_vm vm_id handle o) ≡ view f k o
  view-with_vm_other f vm_id k handle o e = view-with_vm f vm_id k handle o ∙ rw e refl

  pub view-delete_self :
      {A : Type 0} (f : VmHandle M → A) (vm_id k : Text) (o : Orchestrator M)
      → text_eq vm_id k ≡ true
      → map_some f (lookup k (delete vm_id o.vms)) ≡ none
  view-delete_self f vm_id k o e = rw (lookup-delete vm_id k o.vms, e) refl

  pub view-delete_other :
      {A : Type 0} (f : VmHandle M → A) (vm_id k : Text) (o : Orchestrator M)
      → text_eq vm_id k ≡ false
      → map_some f (lookup k (delete vm_id o.vms)) ≡ view f k o
  view-delete_other f vm_id k o e = rw (lookup-delete vm_id k o.vms, e) refl

  -- Replacing a VM's handle by one with the same view shows no difference.
  pub view-with_vm_same :
      {A : Type 0} (f : VmHandle M → A) (vm_id k : Text) (old new : VmHandle M) (o : Orchestrator M)
      → lookup vm_id o.vms ≡ some old
      → f new ≡ f old
      → view f k (with_vm vm_id new o) ≡ view f k o
  view-with_vm_same f vm_id k old new o e q = elim (Bool-cases (text_eq vm_id k)) [
    | inl same ↦
        let r : vm_id ≡ k = (text_eq_iff vm_id k).0 same in
        rw (view-with_vm f vm_id k new o, same, ← r, e, q) refl
    | inr other ↦ rw (view-with_vm f vm_id k new o, other) refl
  ]

-- What StartVM does to the status of its VM, by the error that it returns; the status is `none` for a
-- VM that does not exist.
pub data Starts : Option VmmError → Option VmStatus → Option VmStatus → Type 0 where
  missing : Starts (some vm_not_found) none none
  refused : (s : VmStatus) → is_created s ≡ false → Starts (some (not_created s)) (some s) (some s)
  starts : Starts none (some created) (some running)
  start_fails : Starts (some not_started) (some created) (some failed)

-- What StopVM does to it.
pub data Stops : Option VmmError → Option VmStatus → Option VmStatus → Type 0 where
  missing : Stops (some vm_not_found) none none
  refused : (s : VmStatus) → is_running s ≡ false → Stops (some (not_running s)) (some s) (some s)
  stops : Stops none (some running) (some stopped)
  stop_fails : Stops (some not_stopped) (some running) (some stopping)

-- A relation between the status before and after.
abbrev pub Moves : Type 1
Moves = Option VmStatus → Option VmStatus → Type 0

-- What a call that starts or stops a VM may do to the orchestrator: the network, all addresses and
-- all other VMs stay, and the VM's status makes one of the moves.
pub record Updates {M : Type 0} (Move : Moves) (vm_id : Text) (o o' : Orchestrator M) : Type 0 where
  pub same_network : o'.network_manager ≡ o.network_manager
  pub same_ips : (k : Text) → ip_of k o' ≡ ip_of k o
  pub others : (k : Text) → text_eq vm_id k ≡ false → lookup k o'.vms ≡ lookup k o.vms
  pub moves : Move (status_of vm_id o) (status_of vm_id o')

unchanged :
    {M : Type 0} (Move : Moves) (vm_id : Text) (o : Orchestrator M)
    → Move (status_of vm_id o) (status_of vm_id o)
    → Updates Move vm_id o o
unchanged Move vm_id o m = record {
  same_network = refl;
  same_ips = λ k. refl;
  others = λ k q. refl;
  moves = m;
}

module _ {M : Type 0} (Move : Moves) (vm_id : Text) (handle : VmHandle M) (o : Orchestrator M)
    (e : lookup vm_id o.vms ≡ some handle) where
  replaced :
      (new : VmHandle M)
      → new.ip_address ≡ handle.ip_address
      → Move (some handle.vm.status) (some new.vm.status)
      → Updates Move vm_id o (with_vm vm_id new o)
  unfolding with_vm
  replaced new q m = record {
    same_network = refl;
    same_ips = λ k. view-with_vm_same (λ x. x.ip_address) vm_id k handle new o e q;
    others = λ k other. rw (lookup-insert vm_id k new o.vms, other) refl;
    moves = rw (lookup-insert_self vm_id new o.vms, e) m;
  }

module _ {M W : Type 0} (h : Host W) (sdk : Sdk M W) where
  start_handle-Updates :
      (vm_id : Text) (handle : VmHandle M) (o : Orchestrator M) (w : W)
      → lookup vm_id o.vms ≡ some handle
      → let r = start_handle h sdk vm_id handle o w in Updates (Starts r.0) vm_id o r.1
  unfolding set_status start_handle
  start_handle-Updates vm_id handle o w e = elim (Bool-cases (is_created handle.vm.status)) [
    | inr q ↦
        rw (q, start_handle)
          (unchanged (Starts (some (not_created handle.vm.status))) vm_id o
            (rw e (Starts.refused handle.vm.status q)))
    | inl q ↦
        let s : handle.vm.status ≡ created = created_of_is_created handle.vm.status q in
        elim (Bool-cases (sdk.start_machine handle.machine w).0) [
          | inl r ↦
              rw (q, r, start_handle) (replaced (Starts none) vm_id handle o e _ refl (rw s starts))
          | inr r ↦
              rw (q, r, start_handle)
                (replaced (Starts (some not_started)) vm_id handle o e _ refl (rw s start_fails))
        ]
  ]

  stop_handle-Updates :
      (vm_id : Text) (force : Bool) (handle : VmHandle M) (o : Orchestrator M) (w : W)
      → lookup vm_id o.vms ≡ some handle
      → let r = stop_handle h sdk vm_id force handle o w in Updates (Stops r.0) vm_id o r.1
  unfolding set_status stop_handle
  stop_handle-Updates vm_id force handle o w e = elim (Bool-cases (is_running handle.vm.status)) [
    | inr q ↦
        rw (q, stop_handle)
          (unchanged (Stops (some (not_running handle.vm.status))) vm_id o
            (rw e (Stops.refused handle.vm.status q)))
    | inl q ↦
        let s : handle.vm.status ≡ running = running_of_is_running handle.vm.status q in
        elim (Bool-cases
          (if force then sdk.stop_vmm handle.machine w else sdk.shutdown handle.machine w).0) [
            | inl r ↦
                rw (q, r, stop_handle) (replaced (Stops none) vm_id handle o e _ refl (rw s stops))
            | inr r ↦
                rw (q, r, stop_handle)
                  (replaced (Stops (some not_stopped)) vm_id handle o e _ refl (rw s stop_fails))
          ]
  ]

  pub start_vm-Updates :
      (vm_id : Text) (o : Orchestrator M) (w : W)
      → let r = start_vm h sdk vm_id o w in Updates (Starts r.0) vm_id o r.1
  unfolding start_vm
  start_vm-Updates vm_id o w = elim (Option-cases (lookup vm_id o.vms)) [
    | inl e ↦
        rw (e, start_vm) (unchanged (Starts (some vm_not_found)) vm_id o (rw e Starts.missing))
    | inr (handle, e) ↦ rw (e, start_vm) (start_handle-Updates vm_id handle o w e)
  ]

  -- The same of StopVM, which takes a VM from running to stopped or, where it fails, to stopping.
  pub stop_vm-Updates :
      (vm_id : Text) (force : Bool) (o : Orchestrator M) (w : W)
      → let r = stop_vm h sdk vm_id force o w in Updates (Stops r.0) vm_id o r.1
  unfolding stop_vm
  stop_vm-Updates vm_id force o w = elim (Option-cases (lookup vm_id o.vms)) [
    | inl e ↦ rw (e, stop_vm) (unchanged (Stops (some vm_not_found)) vm_id o (rw e Stops.missing))
    | inr (handle, e) ↦ rw (e, stop_vm) (stop_handle-Updates vm_id force handle o w e)
  ]
