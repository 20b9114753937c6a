-- ===== src/Storage/Workers.antt =====
-- workerRepository of services/core/pkg/storage/postgres/workers.go.
use aetherium.Base.{ℕ, Option, if◌then◌else◌, Result, ok, err, Text, insert}
use aetherium.Storage.{WorkerRow}
use aetherium.Storage.Db.{Db, DbError, duplicate_row, execute, change, has_row}

unfoldable pub insert_worker : WorkerRow → Db → Result DbError Db
unfolding has_row
insert_worker w db =
    if has_row w.id db.workers
    then err duplicate_row
    else ok (record db { workers = insert w.id w db.workers })

unfoldable pub create : WorkerRow → Db → Option DbError × Db
unfolding execute insert_worker
create w db = execute (insert_worker w) db

unfoldable pub changed : Text → (WorkerRow → WorkerRow) → Db → Result DbError Db
unfolding change
changed id f db = elim (change id f db.workers) [
  | err e ↦ err e
  | ok rows ↦ ok (record db { workers = rows })
]

-- The map of resources that the callers give has no used_disk_gb.
unfoldable pub update_resources : ℕ → Text → ℕ → ℕ → ℕ → Db → Option DbError × Db
unfolding execute changed
update_resources now id used_cpu used_memory vm_count db =
    execute
      (changed id (λ w. record w {
        used_cpu_cores = used_cpu;
        used_memory_mb = used_memory;
        vm_count = vm_count;
        last_seen = now;
      }))
      db

unfoldable pub update_status : ℕ → Text → Text → Db → Option DbError × Db
unfolding execute changed
update_status now id status db =
    execute (changed id (λ w. record w { status = status; last_seen = now })) db

unfoldable pub update_last_seen : ℕ → Text → Db → Option DbError × Db
unfolding execute changed
update_last_seen now id db = execute (changed id (λ w. record w { last_seen = now })) db

-- Every column but the time of the start.
unfoldable pub update : WorkerRow → Db → Option DbError × Db
unfolding execute changed
update w db = execute (changed w.id (λ old. record w { started_at = old.started_at })) db
