-- ===== src/Vmm/Docker.antt =====
-- DockerOrchestrator of services/core/pkg/vmm/docker/docker.go. As for Firecracker, a handle is a value
-- in the map.
pub mod Status
pub mod Examples
use aetherium.Base.{
  ℕ, Bool, true, false, not, Option, none, some, List, [], ◌∷◌, ◌++◌, map, if◌then◌else◌, Result,
  ok, err, Text, text, text_eq, Map, lookup, insert, delete,
}
use aetherium.Vmm.{VmConfig, VmStatus, created, running, stopped, unknown, status_of_text, Vm}

pub record Config : Type 0 where
  pub network : Text
  pub image : Text

pub record VmHandle : Type 0 where
  pub container_id : Text
  pub vm : Vm

pub record Orchestrator : Type 0 where
  pub config : Config
  pub vms : Map VmHandle

-- `docker` and the clock. `output` is the output with the white space around it cut off, none on an
-- error; `combined_output` is the same with the error stream in it; `to_upper` is `strings.ToUpper`.
pub record Docker (W : Type 0) : Type 0 where
  pub run : List Text → W → Bool × W
  pub output : List Text → W → Option Text × W
  pub combined_output : List Text → W → Option Text × W
  pub now : W → ℕ
  pub to_upper : Text → Text

pub data DockerError : Type 0 where
  not_created not_found not_stopped no_status not_removed unavailable : DockerError

-- NewDockerOrchestrator, by the two values of the map that are strings.
unfoldable pub new_orchestrator : Option Text → Option Text → Orchestrator
new_orchestrator network image = record {
  config = record {
    network = elim network [ none ↦ text "bridge" | some n ↦ n ];
    image = elim image [ none ↦ text "ubuntu:22.04" | some i ↦ i ];
  };
  vms = [];
}

unfoldable pub list_vms : Orchestrator → List Vm
list_vms o = map (λ entry. entry.1.vm) o.vms

unfoldable pub with_handle : Text → VmHandle → Orchestrator → Orchestrator
with_handle vm_id handle o = record o { vms = insert vm_id handle o.vms }

module _ {W : Type 0} (d : Docker W) where
  unfoldable pub create_vm : VmConfig → Orchestrator → W → Result DockerError Vm × Orchestrator × W
  unfolding with_handle
  create_vm config o w =
      let (out, w1) =
        d.combined_output
          (text "docker"
            ∷ text "run"
            ∷ text "-d"
            ∷ text "--name"
            ∷ config.id
            ∷ text "--network"
            ∷ o.config.network
            ∷ o.config.image
            ∷ text "sleep"
            ∷ text "infinity"
            ∷ [])
          w in
      elim out [
        | none ↦ (err not_created, o, w1)
        | some container_id ↦
            let vm : Vm = record {
              id = config.id;
              status = created;
              config = config;
              created_at = d.now w1;
              started_at = none;
              stopped_at = none;
              metadata = [];
            } in
            (ok vm, with_handle config.id (record { container_id = container_id; vm = vm }) o, w1)
      ]

  unfoldable pub start_vm : Text → Orchestrator → W → Option DockerError × Orchestrator × W
  unfolding with_handle
  start_vm vm_id o w = elim (lookup vm_id o.vms) [
    | none ↦ (some not_found, o, w)
    | some handle ↦
        let vm = record handle.vm { status = running; started_at = some (d.now w) } in
        (none, with_handle vm_id (record handle { vm = vm }) o, w)
  ]

  unfoldable pub stop_vm : Text → Bool → Orchestrator → W → Option DockerError × Orchestrator × W
  unfolding with_handle
  stop_vm vm_id force o w = elim (lookup vm_id o.vms) [
    | none ↦ (some not_found, o, w)
    | some handle ↦
        let verb = if force then text "kill" else text "stop" in
        let (succeeded, w1) = d.run (text "docker" ∷ verb ∷ handle.container_id ∷ []) w in
        if not succeeded
        then (some not_stopped, o, w1)
        else let vm = record handle.vm { status = stopped; stopped_at = some (d.now w1) } in
          (none, with_handle vm_id (record handle { vm = vm }) o, w1)
  ]

  unfoldable pub status_read : Text → VmStatus
  status_read s =
      if text_eq s (text "running")
      then running
      else if text_eq s (text "exited")
      then stopped
      else status_of_text (d.to_upper s)

  unfoldable pub get_vm_status : Text → Orchestrator → W → Result DockerError Vm × Orchestrator × W
  unfolding with_handle status_read
  get_vm_status vm_id o w = elim (lookup vm_id o.vms) [
    | none ↦ (err not_found, o, w)
    | some handle ↦
        let (out, w1) =
          d.output
            (text "docker"
              ∷ text "inspect"
              ∷ text "-f"
              ∷ text "{{.State.Status}}"
              ∷ handle.container_id
              ∷ [])
            w in
        elim out [
          | none ↦ (err no_status, o, w1)
          | some s ↦
              let vm = record handle.vm { status = status_read s } in
              (ok vm, with_handle vm_id (record handle { vm = vm }) o, w1)
        ]
  ]

  unfoldable pub delete_vm : Text → Orchestrator → W → Option DockerError × Orchestrator × W
  delete_vm vm_id o w = elim (lookup vm_id o.vms) [
    | none ↦ (some not_found, o, w)
    | some handle ↦
        let (removed, w1) =
          d.run (text "docker" ∷ text "rm" ∷ text "-f" ∷ handle.container_id ∷ []) w in
        if not removed
        then (some not_removed, o, w1)
        else (none, record o { vms = delete vm_id o.vms }, w1)
  ]

  unfoldable pub health : W → Option DockerError × W
  health w =
      let (succeeded, w1) = d.run (text "docker" ∷ text "info" ∷ []) w in
      (if succeeded then none else some unavailable, w1)
