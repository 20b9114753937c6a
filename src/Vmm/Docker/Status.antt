-- ===== src/Vmm/Docker/Status.antt =====
-- What stopping, starting and deleting mean for a container (services/core/pkg/vmm/docker/docker.go).
use mathlib.Core.Option.{map as map_some}
use aetherium.Base.{
  ◌∙◌, true, false, ap, ◌≡◌, ◌≢◌, refl, ◌⊎◌, inl, inr, Bool, Option, none, some, arith,
  if◌then◌else◌, Bool-cases, [], ◌∷◌, Text, text, text_eq, lookup, lookup-insert_self,
  lookup-delete,
}
use aetherium.Vmm.{VmStatus, running, stopped}
use aetherium.Vmm.Docker.{
  not_stopped, VmHandle, Orchestrator, Docker, with_handle, start_vm, stop_vm, delete_vm,
}

abbrev pub status_of : Text → Orchestrator → Option VmStatus
status_of k o = map_some (λ handle. handle.vm.status) (lookup k o.vms)

status_of-with_handle :
    (vm_id : Text) (handle : VmHandle) (o : Orchestrator)
    → status_of vm_id (with_handle vm_id handle o) ≡ some handle.vm.status
unfolding with_handle
status_of-with_handle vm_id handle o =
    ap (map_some (λ (x : VmHandle). x.vm.status)) (lookup-insert_self vm_id handle o.vms)

module _ {W : Type 0} (d : Docker W) where
  -- `alive c w` says whether the container c runs. After `docker stop` or `docker kill` has succeeded,
  -- the container does not run, as the command documents.
  abbrev pub StopsContainers : (Text → W → Bool) → Type 0
  StopsContainers alive =
      (verb container_id : Text) (w : W)
      → (verb ≡ text "stop") ⊎ (verb ≡ text "kill")
      → (d.run (text "docker" ∷ verb ∷ container_id ∷ []) w).0 ≡ true
      → alive container_id (d.run (text "docker" ∷ verb ∷ container_id ∷ []) w).1 ≡ false

  stop_verb :
      (force : Bool)
      → let v = if force then text "kill" else text "stop" in (v ≡ text "stop") ⊎ (v ≡ text "kill")
  stop_verb true = inr refl
  stop_verb false = inl refl

  stop_vm_stops :
      (alive : Text → W → Bool) (vm_id : Text) (force : Bool) (o : Orchestrator) (w : W)
      (handle : VmHandle)
      → StopsContainers alive
      → lookup vm_id o.vms ≡ some handle
      → (stop_vm d vm_id force o w).0 ≡ none
      → let r = stop_vm d vm_id force o w in
        (new : VmHandle) × (lookup vm_id r.1.vms ≡ some new)
        × (new.vm.status ≡ stopped)
        × (new.container_id ≡ handle.container_id)
        × (alive handle.container_id r.2 ≡ false)
  unfolding stop_vm with_handle
  stop_vm_stops alive vm_id force o w handle law e f =
      elim (Bool-cases
        (d.run
          (text "docker" ∷ (if force then text "kill" else text "stop") ∷ handle.container_id ∷ [])
          w).0) [
            | inr q ↦
                let refused : (stop_vm d vm_id force o w).0 ≡ some not_stopped =
                  rw (e, q, stop_vm) refl in
                absurd cc
            | inl q ↦
                rw (e, q, stop_vm)
                  (_, lookup-insert_self vm_id _ o.vms, refl, refl, law _ _ w (stop_verb force) q)
          ]

  started :
      (vm_id : Text) (o : Orchestrator) (w : W) (handle : VmHandle)
      → lookup vm_id o.vms ≡ some handle
      → ((start_vm d vm_id o w).0 ≡ none)
        × (status_of vm_id (start_vm d vm_id o w).1 ≡ some running)
        × ((start_vm d vm_id o w).2 ≡ w)
  unfolding start_vm with_handle
  started vm_id o w handle e = rw (e, start_vm) (refl, status_of-with_handle vm_id _ o, refl)

  -- Where `docker stop` and `docker kill` stop a container as documented, a StopVM of a VM that succeeds
  -- shows it as stopped, and a StartVM right after it reports success and shows the VM as running, while
  -- the container of the VM does not run.
  pub start_vm-stop_vm :
      (alive : Text → W → Bool) (vm_id : Text) (force : Bool) (o : Orchestrator) (w : W)
      (handle : VmHandle)
      → StopsContainers alive
      → lookup vm_id o.vms ≡ some handle
      → (stop_vm d vm_id force o w).0 ≡ none
      → let s = stop_vm d vm_id force o w in
        let r = start_vm d vm_id s.1 s.2 in
        (status_of vm_id s.1 ≡ some stopped)
        × (r.0 ≡ none)
        × (status_of vm_id r.1 ≡ some running)
        × (alive handle.container_id r.2 ≡ false)
  start_vm-stop_vm alive vm_id force o w handle law e f =
      let (new, there, shown, same, gone) = stop_vm_stops alive vm_id force o w handle law e f in
      let s = stop_vm d vm_id force o w in
      let r = started vm_id s.1 s.2 new there in
      (
        ap (map_some (λ (x : VmHandle). x.vm.status)) there ∙ ap some shown,
        r.0,
        r.1,
        ap (alive handle.container_id) r.2 ∙ gone,
      )

  -- A deletion that succeeds removes the VM and no other; one that fails changes no VM.
  pub delete_vm_outcome :
      (vm_id : Text) (o : Orchestrator) (w : W)
      → let r = delete_vm d vm_id o w in
        ((r.0 ≡ none)
          × ((k : Text) → lookup k r.1.vms ≡ (if text_eq vm_id k then none else lookup k o.vms)))
        ⊎ ((r.0 ≢ none) × (r.1 ≡ o))
  unfolding delete_vm
  delete_vm_outcome vm_id o w = grind (arith, lookup-delete {V = VmHandle})
