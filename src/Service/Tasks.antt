-- ===== src/Service/Tasks.antt =====
-- services/core/pkg/service/task_service.go: what it puts in the queue.
use aetherium.Base.{
  ℕ, ◌*◌, none, List, [], ◌∷◌, ◌++◌, if◌then◌else◌, Result, ok, err, Text, text, Map, Action, ◌>>=◌,
  pure,
}
use aetherium.Storage.{Json, string, number, strings, texts, null}
use aetherium.Queue.{TaskOptions, minute}
use aetherium.Service.{Client, Site, on_host, enqueue}

abbrev pub vm_options : ℕ → ℕ → TaskOptions
vm_options max_retry timeout = record {
  process_at = none;
  max_retry = max_retry;
  timeout = timeout;
  queue = text "default";
  priority = 5;
}

-- `if len(xs) > 0 { payload[key] = xs }`.
abbrev pub entry_unless_empty : {A : Type 0} → Text → (List A → Json) → List A → Map Json
entry_unless_empty key f [] = []
entry_unless_empty key f (x ∷ xs) = (key, f (x ∷ xs)) ∷ []

unfoldable pub create_payload : Text → ℕ → ℕ → List Text → Map Text → Map Json
create_payload name vcpus memory_mb additional_tools tool_versions =
    (text "name", string name)
    ∷ (text "vcpus", number vcpus)
    ∷ (text "memory_mb", number memory_mb)
    ∷ (entry_unless_empty (text "additional_tools") strings additional_tools
        ++ entry_unless_empty (text "tool_versions") texts tool_versions)

-- A nil slice is null.
unfoldable pub execute_payload : Text → Text → List Text → Map Json
execute_payload vm_id command args =
    (text "vm_id", string vm_id)
    ∷ (text "command", string command)
    ∷ (text "args", elim args [ [] ↦ null | a ∷ rest ↦ strings (a ∷ rest) ])
    ∷ []

module _ {W : Type 0} (c : Client W) where
  -- The id of the task, or the message of the failure.
  unfoldable pub submit : Text → Map Json → TaskOptions → Text → Action (Site W) (Result Text Text)
  unfolding enqueue
  submit task_type payload options message = do
    id ← on_host c.new_id
    taken ←
        enqueue c (record { id = id; task_type = task_type; payload = payload; priority = 0 })
          options
    pure (if taken then ok id else err message)

  unfoldable pub create_vm_task_with_tools :
      Text → ℕ → ℕ → List Text → Map Text → Action (Site W) (Result Text Text)
  unfolding submit create_payload
  create_vm_task_with_tools name vcpus memory_mb additional_tools tool_versions =
      submit (text "vm:create") (create_payload name vcpus memory_mb additional_tools tool_versions)
        (vm_options 3 (25 * minute)) (text "failed to enqueue VM creation task")

  unfoldable pub create_vm_task : Text → ℕ → ℕ → Action (Site W) (Result Text Text)
  unfolding create_vm_task_with_tools
  create_vm_task name vcpus memory_mb = create_vm_task_with_tools name vcpus memory_mb [] []

  unfoldable pub execute_command_task : Text → Text → List Text → Action (Site W) (Result Text Text)
  unfolding submit execute_payload
  execute_command_task vm_id command args =
      submit (text "vm:execute") (execute_payload vm_id command args) (vm_options 2 (10 * minute))
        (text "failed to enqueue execution task")

  unfoldable pub delete_vm_task : Text → Action (Site W) (Result Text Text)
  unfolding submit
  delete_vm_task vm_id =
      submit (text "vm:delete") ((text "vm_id", string vm_id) ∷ []) (vm_options 2 (2 * minute))
        (text "failed to enqueue deletion task")
