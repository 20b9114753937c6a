-- ===== src/Memory/Tasks.antt =====
-- What becomes of a task in the in-memory queue (services/core/pkg/queue/memory/memory.go).
use aetherium.Base.{ℕ, ◌≡◌, refl, Option, none, some, Text, text, Map, lookup}
use aetherium.Memory.{Task}
use aetherium.Memory.Queue.{Handler, failed, settle, handle, process_task, after_error, work}

module _ {W : Type 0} where
  handled :
      (clock : W → ℕ) (r : Option Text × Task × W)
      → ((settle (clock r.2) r).0 ≡ none
          → (after_error (settle (clock r.2) r)).0.status ≡ text "COMPLETED")
        × ((m : Text)
            → (settle (clock r.2) r).0 ≡ some m
            → ((after_error (settle (clock r.2) r)).0.status ≡ text "FAILED")
              × ((after_error (settle (clock r.2) r)).0.error_message ≡ some m))
  unfolding settle after_error failed
  handled clock (none, t, w) = ((λ e. refl), λ m e. cc)
  handled clock (some n, t, w) = ((λ e. cc), λ m e. (refl, e))

  missing :
      (clock : W → ℕ) (o : Option (Handler W)) (t : Task) (w : W)
      → ((handle clock o t w).0 ≡ none
          → (after_error (handle clock o t w)).0.status ≡ text "COMPLETED")
        × ((m : Text)
            → (handle clock o t w).0 ≡ some m
            → ((after_error (handle clock o t w)).0.status ≡ text "FAILED")
              × ((after_error (handle clock o t w)).0.error_message ≡ some m))
  unfolding handle after_error failed
  missing clock none t w = ((λ e. cc), λ m e. (refl, e))
  missing clock (some h) t w =
      handled clock (h (record t { status = text "RUNNING"; started_at = some (clock w) }) w)

  -- A task that a worker has received ends as COMPLETED where processTask returns no error, and
  -- otherwise as FAILED with that error as its message; it is never left as RUNNING, whatever its
  -- handler does to it.
  pub work-status :
      (clock : W → ℕ) (handlers : Map (Handler W)) (t : Task) (w : W)
      → ((process_task clock handlers t w).0 ≡ none
          → (work clock handlers t w).0.status ≡ text "COMPLETED")
        × ((m : Text)
            → (process_task clock handlers t w).0 ≡ some m
            → ((work clock handlers t w).0.status ≡ text "FAILED")
              × ((work clock handlers t w).0.error_message ≡ some m))
  unfolding work process_task
  work-status clock handlers t w = missing clock (lookup t.task_type handlers) t w
