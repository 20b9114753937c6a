-- ===== src/Worker/Registration.antt =====
-- A worker's start, its registration, its heartbeat and its end (services/core/pkg/worker/worker.go).
-- Only a worker that has its WorkerInfo has a registry.
pub mod Stored
use aetherium.Base.{
  ℕ, Bool, true, false, ◌==◌, Option, none, some, List, [], if◌then◌else◌, length, Text, text,
  text_eq, Map, Action, ◌>>=◌, ◌>>◌, pure, modify, gets,
}
use aetherium.Storage.{WorkerRow}
use aetherium.Storage.Db.{Db, DbError}
use aetherium.Storage.Workers
use aetherium.Worker.{
  Backend, WorkerInfo, Usage, World, usages, used_cpu, used_memory, on_db, on_host, the_time,
}

-- Config, less the registry.
pub record WorkerConfig : Type 0 where
  pub id : Text
  pub hostname : Text
  pub address : Text
  pub zone : Text
  pub labels : Map Text
  pub capabilities : List Text
  pub cpu_cores : ℕ
  pub memory_mb : ℕ
  pub disk_gb : ℕ
  pub max_vms : ℕ

-- The WorkerInfo that NewWithConfig makes, with the id, the host's name and the number of its CPUs for
-- what the configuration leaves out.
unfoldable pub new_with_config : Text → Text → ℕ → ℕ → WorkerConfig → WorkerInfo
new_with_config new_id host cpus now c = record {
  id = if text_eq c.id [] then new_id else c.id;
  hostname = if text_eq c.hostname [] then host else c.hostname;
  address = c.address;
  zone = c.zone;
  labels = c.labels;
  capabilities = c.capabilities;
  status = text "active";
  started_at = now;
  last_seen = now;
  cpu_cores = if c.cpu_cores == 0 then cpus else c.cpu_cores;
  memory_mb = c.memory_mb;
  disk_gb = c.disk_gb;
  max_vms = if c.max_vms == 0 then 100 else c.max_vms;
  used_cpu_cores = 0;
  used_memory_mb = 0;
  used_disk_gb = 0;
  vm_count = 0;
}

unfoldable pub worker_info_to_storage : WorkerInfo → WorkerRow
worker_info_to_storage info = record {
  id = info.id;
  hostname = info.hostname;
  address = info.address;
  status = info.status;
  last_seen = info.last_seen;
  started_at = info.started_at;
  zone = info.zone;
  labels = info.labels;
  capabilities = info.capabilities;
  cpu_cores = info.cpu_cores;
  memory_mb = info.memory_mb;
  disk_gb = info.disk_gb;
  used_cpu_cores = info.used_cpu_cores;
  used_memory_mb = info.used_memory_mb;
  used_disk_gb = info.used_disk_gb;
  vm_count = info.vm_count;
  max_vms = info.max_vms;
}

-- The row is created, or else updated. The error, if there is one.
unfoldable pub store_worker : WorkerRow → Db → Option Text × Db
store_worker row db =
    let (problem, db1) = Workers.create row db in
    elim problem [
      | none ↦ (none, db1)
      | some e ↦
          let (problem2, db2) = Workers.update row db1 in
          elim problem2 [
            | none ↦ (none, db2)
            | some e2 ↦ (some (text "failed to register worker in database"), db2)
          ]
    ]

unfoldable pub with_usage : ℕ → List Usage → WorkerInfo → WorkerInfo
with_usage now us info = record info {
  last_seen = now;
  used_cpu_cores = used_cpu us;
  used_memory_mb = used_memory us;
  vm_count = length us;
}

module _ {W : Type 0} (b : Backend W) where
  -- A call of the registry, if there is one, and what is done if it does not fail.
  unfoldable pub with_registry :
      (Text → W → Bool × W)
      → Text
      → Text
      → Action (World W) (Option Text)
      → Action (World W) (Option Text)
  with_registry call id message next =
      if b.has_registry
      then (on_host (call id) >>= λ answered. if answered then next else pure (some message))
      else next

  unfoldable pub register : Action (World W) (Option Text)
  unfolding with_registry store_worker worker_info_to_storage
  register s = elim s.worker_info [
    | none ↦ (none, s)
    | some info ↦
        with_registry b.register info.id (text "failed to register with service discovery")
          (on_db (store_worker (worker_info_to_storage info))) s
  ]

  -- Only runs where there is a registry.
  unfoldable pub send_heartbeat : Action (World W) (Option Text)
  unfolding with_usage
  send_heartbeat s = elim s.worker_info [
    | none ↦ (none, s)
    | some info ↦
        let now = b.now s.host in
        let s1 = record s { worker_info = some (with_usage now (usages s.running_vms) info) } in
        let (answered, s2) = on_host (b.heartbeat info.id) s1 in
        if answered
        then (on_db (Workers.update_last_seen now info.id) >> pure none) s2
        else (some (text "failed to send heartbeat"), s2)
  ]

  unfoldable pub deregister : Action (World W) (Option Text)
  unfolding with_registry
  deregister s = elim s.worker_info [
    | none ↦ (none, s)
    | some info ↦
        with_registry b.deregister info.id (text "failed to deregister from service discovery")
          (on_db (Workers.update_status (b.now s.host) info.id (text "offline")) >> pure none) s
  ]
