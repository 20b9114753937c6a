-- ===== src/Memory/Queue.antt =====
-- MemoryQueue of services/core/pkg/queue/memory/memory.go: the channel of tasks as a list, and the steps
-- of its callers and its workers. A select takes any of its cases that can go on.
use aetherium.Base.{
  ℕ, ◌+◌, ◌-◌, ◌<◌, ◌≡◌, Bool, true, false, ◌==◌, Option, none, some, List, Result, ok, err, [],
  ◌∷◌, ◌++◌, if◌then◌else◌, length, Text, text, Map, lookup, insert,
}
use aetherium.Memory.{Task}

-- A handler may change its task; its error is a message.
abbrev pub Handler : Type 0 → Type 0
Handler W = Task → W → Option Text × Task × W

-- `done` says that the channel of that name is closed, `crashed` that it was closed twice.
pub record MemoryQueue (W : Type 0) : Type 0 where
  pub tasks : List Task
  pub capacity : ℕ
  pub handlers : Map (Handler W)
  pub workers : ℕ
  pub running : ℕ
  pub done : Bool
  pub crashed : Bool

-- The errors of Enqueue and Dequeue.
pub data QueueError : Type 0 where
  task_nil cancelled queue_closed : QueueError

unfoldable pub failed : Text → Task → Task
failed message t = record t { status = text "FAILED"; error_message = some message }

module _ {W : Type 0} where
  unfoldable pub new_memory_queue : ℕ → ℕ → MemoryQueue W
  new_memory_queue buffer_size workers = record {
    tasks = [];
    capacity = if buffer_size == 0 then 100 else buffer_size;
    handlers = [];
    workers = if workers == 0 then 1 else workers;
    running = 0;
    done = false;
    crashed = false;
  }

  -- The send of Enqueue.
  unfoldable pub send : Task → MemoryQueue W → MemoryQueue W
  send t q = record q { tasks = q.tasks ++ t ∷ [] }

  -- A receive of the first task, by Dequeue or a worker.
  unfoldable pub receive : List Task → MemoryQueue W → MemoryQueue W
  receive rest q = record q { tasks = rest }

  unfoldable pub register_free :
      Option (Handler W) → Text → Handler W → MemoryQueue W → Bool × MemoryQueue W
  register_free (some old) task_type h q = (false, q)
  register_free none task_type h q = (true, record q { handlers = insert task_type h q.handlers })

  unfoldable pub register_handler : Text → Handler W → MemoryQueue W → Bool × MemoryQueue W
  unfolding register_free
  register_handler task_type h q = register_free (lookup task_type q.handlers) task_type h q

  unfoldable pub start : MemoryQueue W → MemoryQueue W
  start q = record q { running = q.running + q.workers }

  -- The close of `done` in Stop.
  unfoldable pub stop : MemoryQueue W → MemoryQueue W
  stop q = if q.done then record q { crashed = true } else record q { done = true }

  unfoldable pub get_queue_size : MemoryQueue W → ℕ
  get_queue_size q = length q.tasks

  unfoldable pub health : MemoryQueue W → Bool
  health q = if q.done then false else true

  -- processTask after the handler.
  unfoldable pub settle : ℕ → Option Text × Task × W → Option Text × Task × W
  unfolding failed
  settle now (none, t, w) =
      (none, record t { completed_at = some now; status = text "COMPLETED" }, w)
  settle now (some message, t, w) =
      (some message, failed message (record t { completed_at = some now }), w)

  unfoldable pub handle : (W → ℕ) → Option (Handler W) → Task → W → Option Text × Task × W
  unfolding settle
  handle clock none t w = (some (text "no handler registered for task type: " ++ t.task_type), t, w)
  handle clock (some h) t w =
      let result = h (record t { status = text "RUNNING"; started_at = some (clock w) }) w in
      settle (clock result.2) result

  unfoldable pub process_task : (W → ℕ) → Map (Handler W) → Task → W → Option Text × Task × W
  unfolding handle
  process_task clock handlers t w = handle clock (lookup t.task_type handlers) t w

  unfoldable pub after_error : Option Text × Task × W → Task × W
  unfolding failed
  after_error (none, t, w) = (t, w)
  after_error (some message, t, w) = (failed message t, w)

  -- The case of a worker that has received a task.
  unfoldable pub work : (W → ℕ) → Map (Handler W) → Task → W → Task × W
  unfolding process_task after_error
  work clock handlers t w = after_error (process_task clock handlers t w)

  -- Enqueue of a task, none for nil. A select takes any case that can go on; `ended` says whether the
  -- caller's context has ended.
  pub data Enqueues (ended : Bool) (q : MemoryQueue W)
      : Option Task → Option QueueError → MemoryQueue W → Type 0 where
    is_nil : Enqueues ended q none (some task_nil) q
    sends : (t : Task) → length q.tasks < q.capacity → Enqueues ended q (some t) none (send t q)
    cancels : (t : Task) → ended ≡ true → Enqueues ended q (some t) (some cancelled) q
    refuses : (t : Task) → q.done ≡ true → Enqueues ended q (some t) (some queue_closed) q

  -- Dequeue.
  pub data Dequeues (ended : Bool) (q : MemoryQueue W)
      : Result QueueError Task → MemoryQueue W → Type 0 where
    receives :
        (t : Task) (rest : List Task)
        → q.tasks ≡ t ∷ rest
        → Dequeues ended q (ok t) (receive rest q)
    cancels : ended ≡ true → Dequeues ended q (err cancelled) q
    refuses : q.done ≡ true → Dequeues ended q (err queue_closed) q

  -- A round of a worker: it takes a task, or returns.
  pub data WorkerRound (ended : Bool) (q : MemoryQueue W)
      : Option Task → MemoryQueue W → Type 0 where
    receives :
        (t : Task) (rest : List Task)
        → q.tasks ≡ t ∷ rest
        → WorkerRound ended q (some t) (receive rest q)
    cancels : ended ≡ true → WorkerRound ended q none (record q { running = q.running - 1 })
    returns : q.done ≡ true → WorkerRound ended q none (record q { running = q.running - 1 })

  -- What callers and workers do to the queue.
  pub data Step (q : MemoryQueue W) : MemoryQueue W → Type 0 where
    enqueue :
        {r : MemoryQueue W} (ended : Bool) (t : Option Task) (e : Option QueueError)
        → Enqueues ended q t e r
        → Step q r
    dequeue :
        {r : MemoryQueue W} (ended : Bool) (a : Result QueueError Task)
        → Dequeues ended q a r
        → Step q r
    work_on :
        {r : MemoryQueue W} (ended : Bool) (t : Option Task)
        → 0 < q.running
        → WorkerRound ended q t r
        → Step q r
    register : (task_type : Text) (h : Handler W) → Step q (register_handler task_type h q).1
    start_workers : Step q (start q)
    stop_queue : Step q (stop q)

  pub data Reach (q : MemoryQueue W) : MemoryQueue W → Type 0 where
    here : Reach q q
    next : {r s : MemoryQueue W} → Reach q r → r.crashed ≡ false → Step r s → Reach q s
