-- ===== src/Queue.antt =====
-- Tasks and the asynq queue: services/core/pkg/queue/queue.go and services/core/pkg/queue/asynq. Redis
-- and the asynq library are not part of the model: it ends at the options that a task is handed over
-- with, and at what the wrapper around a handler reports.
pub mod Priorities
pub mod Payloads
use aetherium.Base.{
  ℕ, ◌*◌, Bool, true, false, ◌==◌, leb, Option, none, some, List, [], ◌∷◌, ◌++◌, if◌then◌else◌,
  Result, ok, err, Text, text, text_eq, Map, lookup, insert,
}
use aetherium.Storage.{Json, string, number, strings, texts, null}
use aetherium.Worker.{TaskResult, HandlerError, Outcome}

pub record Task : Type 0 where
  pub id : Text
  pub task_type : Text
  pub payload : Map Json
  pub priority : ℕ

pub record TaskOptions : Type 0 where
  pub process_at : Option ℕ
  pub max_retry : ℕ
  pub timeout : ℕ
  pub queue : Text
  pub priority : ℕ

-- asynq.Option.
pub data QueueOption : Type 0 where
  process_at : ℕ → QueueOption
  max_retry : ℕ → QueueOption
  timeout : ℕ → QueueOption
  queue : Text → QueueOption

abbrev pub minute : ℕ
minute = 60000

unfoldable pub get_queue_for_priority : ℕ → Text
get_queue_for_priority priority =
    if leb 8 priority
    then text "critical"
    else if leb 5 priority
    then text "high"
    else if leb 2 priority
    then text "default"
    else text "low"

-- The options, in the order in which Enqueue appends them.
unfoldable pub asynq_options : Option TaskOptions → List QueueOption
unfolding get_queue_for_priority
asynq_options none = max_retry 3 ∷ timeout (10 * minute) ∷ []
asynq_options (some o) =
    (elim o.process_at [ none ↦ [] | some t ↦ process_at t ∷ [] ])
    ++ ((if leb 1 o.max_retry then max_retry o.max_retry else max_retry 3)
        ∷ (if leb 1 o.timeout then timeout o.timeout else timeout (10 * minute))
        ∷ ((if text_eq o.queue [] then [] else queue o.queue ∷ [])
            ++ (if leb 1 o.priority then queue (get_queue_for_priority o.priority) ∷ [] else [])))

-- The queues of NewQueue with their weights, where the configuration names none.
abbrev pub default_queues : Map ℕ
default_queues =
    (text "critical", 6) ∷ (text "high", 5) ∷ (text "default", 3) ∷ (text "low", 1) ∷ []

-- RegisterHandler: false if the type has a handler already.
unfoldable pub register_handler : {H : Type 0} → Text → H → Map H → Bool × Map H
register_handler task_type handler handlers = elim (lookup task_type handlers) [
  | some h ↦ (false, handlers)
  | none ↦ (true, insert task_type handler handlers)
]

-- The error of the wrapper around a handler, for which asynq runs the task again.
pub data TaskError : Type 0 where
  handler_failed : HandlerError → TaskError
  task_failed : Text → TaskError

unfoldable pub task_error : Outcome → Option TaskError
task_error (err e) = some (handler_failed e)
task_error (ok r) = if r.success then none else some (task_failed r.error)

-- UnmarshalPayload into a field of a struct: the zero value where the key is missing, none where the
-- value has another type.
unfoldable pub text_field : Text → Map Json → Option Text
text_field key payload = elim (lookup key payload) [
  | none ↦ some []
  | some (string s) ↦ some s
  | some null ↦ some []
  | some v ↦ none
]

unfoldable pub number_field : Text → Map Json → Option ℕ
number_field key payload = elim (lookup key payload) [
  | none ↦ some 0
  | some (number n) ↦ some n
  | some null ↦ some 0
  | some v ↦ none
]

unfoldable pub strings_field : Text → Map Json → Option (List Text)
strings_field key payload = elim (lookup key payload) [
  | none ↦ some []
  | some (strings s) ↦ some s
  | some null ↦ some []
  | some v ↦ none
]

unfoldable pub texts_field : Text → Map Json → Option (Map Text)
texts_field key payload = elim (lookup key payload) [
  | none ↦ some []
  | some (texts s) ↦ some s
  | some null ↦ some []
  | some v ↦ none
]
