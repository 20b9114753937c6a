-- ===== src/Service/Workers.antt =====
-- services/core/pkg/service/worker_service.go: the status of a worker, and the sums over all workers. The
-- percentages, which are floats, are left out.
use aetherium.Base.{
  ℕ, ◌+◌, ◌-◌, leb, Option, none, some, List, [], ◌∷◌, if◌then◌else◌, Result, ok, err, Text, text,
  text_eq, Map, lookup, insert, Action, ◌>>=◌, pure,
}
use aetherium.Storage.{WorkerRow}
use aetherium.Storage.Db.{Db, DbError}
use aetherium.Storage.Lists.{list_workers}
use aetherium.Storage.Workers as WorkerTable
use aetherium.Service.{Client, Site, on_db, on_host, the_time}

-- A Go int: `pos n` is n and `negsuc n` is -(n + 1).
pub data ℤ : Type 0 where
  pos : ℕ → ℤ
  negsuc : ℕ → ℤ

abbrev pub minus : ℕ → ℕ → ℤ
minus a b = if leb b a then pos (a - b) else negsuc (b - a - 1)

pub record ClusterStats : Type 0 where
  pub total_workers : ℕ
  pub active_workers : ℕ
  pub draining_workers : ℕ
  pub offline_workers : ℕ
  pub total_cpu_cores : ℕ
  pub total_memory_mb : ℕ
  pub used_cpu_cores : ℕ
  pub used_memory_mb : ℕ
  pub available_cpu_cores : ℤ
  pub available_memory_mb : ℤ
  pub total_vms : ℕ
  pub max_vms : ℕ
  pub available_vm_slots : ℤ
  pub zones : Map ℕ

abbrev pub no_stats : ClusterStats
no_stats = record {
  total_workers = 0;
  active_workers = 0;
  draining_workers = 0;
  offline_workers = 0;
  total_cpu_cores = 0;
  total_memory_mb = 0;
  used_cpu_cores = 0;
  used_memory_mb = 0;
  available_cpu_cores = pos 0;
  available_memory_mb = pos 0;
  total_vms = 0;
  max_vms = 0;
  available_vm_slots = pos 0;
  zones = [];
}

-- 1 where the worker has the status.
abbrev pub has_status : Text → WorkerRow → ℕ
has_status status w = if text_eq w.status status then 1 else 0

abbrev pub count_zone : Text → Map ℕ → Map ℕ
count_zone zone zones =
    if text_eq zone []
    then zones
    else insert zone (elim (lookup zone zones) [ none ↦ 1 | some n ↦ n + 1 ]) zones

-- One round of the loop.
unfoldable pub add_worker : WorkerRow → ClusterStats → ClusterStats
add_worker w stats = record stats {
  total_workers = stats.total_workers + 1;
  active_workers = stats.active_workers + has_status (text "active") w;
  draining_workers = stats.draining_workers + has_status (text "draining") w;
  offline_workers = stats.offline_workers + has_status (text "offline") w;
  total_cpu_cores = stats.total_cpu_cores + w.cpu_cores;
  total_memory_mb = stats.total_memory_mb + w.memory_mb;
  used_cpu_cores = stats.used_cpu_cores + w.used_cpu_cores;
  used_memory_mb = stats.used_memory_mb + w.used_memory_mb;
  total_vms = stats.total_vms + w.vm_count;
  max_vms = stats.max_vms + w.max_vms;
  zones = count_zone w.zone stats.zones;
}

unfoldable pub add_workers : List WorkerRow → ClusterStats → ClusterStats
unfolding add_worker
add_workers [] stats = stats
add_workers (w ∷ ws) stats = add_workers ws (add_worker w stats)

unfoldable pub cluster_stats : List WorkerRow → ClusterStats
unfolding add_workers
cluster_stats ws =
    let stats = add_workers ws no_stats in
    record stats {
      available_cpu_cores = minus stats.total_cpu_cores stats.used_cpu_cores;
      available_memory_mb = minus stats.total_memory_mb stats.used_memory_mb;
      available_vm_slots = minus stats.max_vms stats.total_vms;
    }

unfoldable pub get_cluster_stats : Db → Result DbError ClusterStats × Db
unfolding cluster_stats
get_cluster_stats db =
    let (listed, db1) = list_workers db in
    (elim listed [ err e ↦ err e | ok ws ↦ ok (cluster_stats ws) ], db1)

module _ {W : Type 0} (c : Client W) where
  -- The error, if there is one. The registry is told only once the database knows.
  unfoldable pub tell_registry : Text → Text → Option DbError → Action (Site W) (Option Text)
  tell_registry worker_id status (some e) = pure (some (text "failed to update worker status"))
  tell_registry worker_id status none = elim c.registry_update_status [
    | none ↦ pure none
    | some update ↦ do
      updated ← on_host (update worker_id status)
      pure (
          if updated
          then none
          else some (text "failed to update worker status in service discovery"))
  ]

  unfoldable pub set_worker_status : Text → Text → Action (Site W) (Option Text)
  unfolding tell_registry
  set_worker_status status worker_id = do
    now ← the_time c
    problem ← on_db (WorkerTable.update_status now worker_id status)
    tell_registry worker_id status problem

  unfoldable pub drain_worker : Text → Action (Site W) (Option Text)
  unfolding set_worker_status
  drain_worker worker_id = set_worker_status (text "draining") worker_id

  unfoldable pub activate_worker : Text → Action (Site W) (Option Text)
  unfolding set_worker_status
  activate_worker worker_id = set_worker_status (text "active") worker_id
