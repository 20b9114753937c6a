-- ===== src/Memory/Examples.antt =====
-- A store and a queue with a few tasks.
use aetherium.Base.{
  ℕ, ◌≤◌, ◌<◌, ◌≡◌, refl, arith, none, some, List, [], ◌∷◌, length, Text, text, text_eq, lookup,
  sym, ◌∙◌, reverse,
}
use aetherium.Memory.{Task}
use aetherium.Memory.Pages.{All, Passes, at, list_tasks_beyond, list_tasks_bounds}
use aetherium.Memory.Queue.{Handler, process_task, work}
use aetherium.Memory.Store.{MemoryStore, TaskFilters, get_task, list_tasks}
use aetherium.Memory.Tasks.{work-status}

abbrev task : Text → Text → Task
task id agent = record {
  id = id;
  project_id = text "site";
  parent_task_id = none;
  task_type = text "review";
  status = text "PENDING";
  description = [];
  agent_type = agent;
  prompt = [];
  container_id = none;
  vm_id = none;
  pull_request = none;
  error_message = none;
  metadata = [];
  created_at = 0;
  updated_at = 0;
  started_at = none;
  completed_at = none;
}

abbrev store : MemoryStore
store = record {
  projects = [];
  tasks =
      (text "a", task (text "a") (text "claude"))
      ∷ (text "b", task (text "b") (text "amp"))
      ∷ (text "c", task (text "c") (text "claude"))
      ∷ [];
  vms = [];
}

-- The tasks of one agent, at most one of them.
abbrev filters : TaskFilters
filters = record {
  project_id = none;
  parent_task_id = none;
  status = none;
  agent_type = some (text "claude");
  limit = 1;
  offset = 0;
}

abbrev in_order : List Task → List Task
in_order ts = ts

matching-two : length (list_tasks in_order (some (at 0 0 filters)) store) ≡ 2
unfolding list_tasks text_eq
matching-two = refl

list_tasks_bounds_example :
    All (Passes filters) (list_tasks in_order (some filters) store)
    × (0 < filters.limit → length (list_tasks in_order (some filters) store) ≤ filters.limit)
list_tasks_bounds_example = list_tasks_bounds in_order filters store

-- The other order.
abbrev turned : List Task → List Task
turned ts = reverse ts

turned-two : length (list_tasks turned (some (at 0 0 filters)) store) ≡ 2
unfolding list_tasks text_eq
turned-two = refl

list_tasks_beyond_example :
    length (list_tasks turned (some (at 1 5 filters)) store)
    ≡ length (list_tasks in_order (some (at 1 0 filters)) store)
list_tasks_beyond_example =
    list_tasks_beyond in_order turned filters store 5 (turned-two ∙ sym matching-two)
      (omega (arith, matching-two))

abbrev new_task : Task
new_task = task (text "d") (text "amp")

new_task-free : get_task (text "d") store ≡ none
unfolding get_task lookup text_eq
new_task-free = refl

-- A handler that fails and marks its task as completed.
abbrev liar : Handler ℕ
liar t w = (some (text "no"), record t { status = text "COMPLETED" }, w)

work-status_example :
    ((process_task (λ n. n) ((text "review", liar) ∷ []) new_task 5).0 ≡ none
      → (work (λ n. n) ((text "review", liar) ∷ []) new_task 5).0.status ≡ text "COMPLETED")
    × ((m : Text)
        → (process_task (λ n. n) ((text "review", liar) ∷ []) new_task 5).0 ≡ some m
        → ((work (λ n. n) ((text "review", liar) ∷ []) new_task 5).0.status ≡ text "FAILED")
          × ((work (λ n. n) ((text "review", liar) ∷ []) new_task 5).0.error_message ≡ some m))
work-status_example = work-status (λ n. n) ((text "review", liar) ∷ []) new_task 5
