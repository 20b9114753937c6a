-- ===== src/Memory/Store.antt =====
-- MemoryStore of services/core/pkg/storage/memory/memory.go. Each call is one step under the mutex. A
-- row is a value: the times that a call writes to its caller's row are those of the stored one.
use aetherium.Base.{
  ℕ, Bool, true, false, ◌&&◌, ltb, Option, none, some, List, [], ◌∷◌, if◌then◌else◌, take, drop,
  length, Text, text, text_eq, Map, lookup, insert, delete,
}
use aetherium.Memory.{Task, Project}
use aetherium.Vmm.{Vm, VmStatus, starting, running, stopping, stopped, unknown}

pub record MemoryStore : Type 0 where
  pub projects : Map Project
  pub tasks : Map Task
  pub vms : Map Vm

unfoldable pub new_memory_store : MemoryStore
new_memory_store = record { projects = []; tasks = []; vms = [] }

pub record ProjectFilters : Type 0 where
  pub limit : ℕ
  pub offset : ℕ

pub record TaskFilters : Type 0 where
  pub project_id : Option Text
  pub parent_task_id : Option Text
  pub status : Option Text
  pub agent_type : Option Text
  pub limit : ℕ
  pub offset : ℕ

pub record VmFilters : Type 0 where
  pub status : Option VmStatus
  pub limit : ℕ
  pub offset : ℕ

pub data StoreError : Type 0 where
  already_exists not_found : StoreError

module _ {V : Type 0} where
  -- The checks of the ids.
  abbrev pub if_free : {A : Type 0} → Option V → A → A → A
  if_free none free taken = free
  if_free (some v) free taken = taken

  -- Of a list, what is left by an offset and a limit.
  unfoldable pub page : ℕ → ℕ → List V → List V
  page limit offset rows =
      let rest : List V =
        if ltb 0 offset && ltb offset (length rows) then drop offset rows else rows in
      if ltb 0 limit && ltb limit (length rest) then take limit rest else rest

  -- The rows of a map; `order` is the order in which the runtime visits them
  -- in one call.
  abbrev pub values : Map V → List V
  values [] = []
  values ((k, v) ∷ m) = v ∷ values m

  unfoldable pub select : (V → Bool) → List V → List V
  select keep [] = []
  select keep (v ∷ vs) = let rest = select keep vs in if keep v then v ∷ rest else rest

unfoldable pub create_project : ℕ → ℕ → Project → MemoryStore → Option StoreError × MemoryStore
create_project created updated p s =
    if_free (lookup p.id s.projects)
      (
        none,
        record s {
          projects =
              insert p.id (record p { created_at = created; updated_at = updated }) s.projects;
        },
      )
      (some already_exists, s)

unfoldable pub get_project : Text → MemoryStore → Option Project
get_project id s = lookup id s.projects

unfoldable pub update_project : ℕ → Project → MemoryStore → Option StoreError × MemoryStore
update_project now p s =
    if_free (lookup p.id s.projects) (some not_found, s)
      (none, record s { projects = insert p.id (record p { updated_at = now }) s.projects })

unfoldable pub delete_project : Text → MemoryStore → Option StoreError × MemoryStore
delete_project id s =
    if_free (lookup id s.projects) (some not_found, s)
      (none, record s { projects = delete id s.projects })

unfoldable pub list_projects :
    (List Project → List Project) → Option ProjectFilters → MemoryStore → List Project
list_projects order none s = order (values s.projects)
list_projects order (some f) s = page f.limit f.offset (order (values s.projects))

unfoldable pub create_task : ℕ → ℕ → Task → MemoryStore → Option StoreError × MemoryStore
create_task created updated t s =
    if_free (lookup t.id s.tasks)
      (
        none,
        record s {
          tasks = insert t.id (record t { created_at = created; updated_at = updated }) s.tasks;
        },
      )
      (some already_exists, s)

unfoldable pub get_task : Text → MemoryStore → Option Task
get_task id s = lookup id s.tasks

unfoldable pub update_task : ℕ → Task → MemoryStore → Option StoreError × MemoryStore
update_task now t s =
    if_free (lookup t.id s.tasks) (some not_found, s)
      (none, record s { tasks = insert t.id (record t { updated_at = now }) s.tasks })

unfoldable pub delete_task : Text → MemoryStore → Option StoreError × MemoryStore
delete_task id s =
    if_free (lookup id s.tasks) (some not_found, s) (none, record s { tasks = delete id s.tasks })

-- A filter that is not set lets everything through.
abbrev pub admits : Option Text → Text → Bool
admits none value = true
admits (some wanted) value = text_eq value wanted

abbrev pub admits_option : Option Text → Option Text → Bool
admits_option none value = true
admits_option (some wanted) none = false
admits_option (some wanted) (some value) = text_eq value wanted

unfoldable pub task_matches : TaskFilters → Task → Bool
task_matches f t =
    admits f.project_id t.project_id
    && (admits_option f.parent_task_id t.parent_task_id
        && (admits f.status t.status && admits f.agent_type t.agent_type))

unfoldable pub list_tasks : (List Task → List Task) → Option TaskFilters → MemoryStore → List Task
unfolding page select task_matches
list_tasks order none s = order (values s.tasks)
list_tasks order (some f) s =
    page f.limit f.offset (select (task_matches f) (order (values s.tasks)))

unfoldable pub create_vm : ℕ → Vm → MemoryStore → Option StoreError × MemoryStore
create_vm now vm s =
    if_free (lookup vm.id s.vms)
      (none, record s { vms = insert vm.id (record vm { created_at = now }) s.vms })
      (some already_exists, s)

unfoldable pub get_vm : Text → MemoryStore → Option Vm
get_vm id s = lookup id s.vms

unfoldable pub update_vm : Vm → MemoryStore → Option StoreError × MemoryStore
update_vm vm s =
    if_free (lookup vm.id s.vms) (some not_found, s)
      (none, record s { vms = insert vm.id vm s.vms })

unfoldable pub delete_vm : Text → MemoryStore → Option StoreError × MemoryStore
delete_vm id s =
    if_free (lookup id s.vms) (some not_found, s) (none, record s { vms = delete id s.vms })

abbrev pub status_text : VmStatus → Text
status_text VmStatus.created = text "CREATED"
status_text starting = text "STARTING"
status_text running = text "RUNNING"
status_text stopping = text "STOPPING"
status_text stopped = text "STOPPED"
status_text VmStatus.failed = text "FAILED"
status_text (unknown t) = t

abbrev pub admits_status : Option VmStatus → VmStatus → Bool
admits_status none value = true
admits_status (some wanted) value = text_eq (status_text value) (status_text wanted)

unfoldable pub list_vms : (List Vm → List Vm) → Option VmFilters → MemoryStore → List Vm
unfolding page select
list_vms order none s = order (values s.vms)
list_vms order (some f) s =
    page f.limit f.offset (select (λ vm. admits_status f.status vm.status) (order (values s.vms)))
