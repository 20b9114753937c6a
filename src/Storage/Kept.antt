-- ===== src/Storage/Kept.antt =====
-- The statements that leave the prompts as they are, and the one that does not.
use aetherium.Base.{
  ℕ, ◌≡◌, refl, sym, ap, subst, ◌∙◌, ◌||◌, Option, none, some, [], if◌then◌else◌, Result, ok, err,
  Text, text, text_eq, Map, lookup, insert, lookup-insert_self, Preserves,
}
use aetherium.Storage.{VmRow, Workspace, PromptTask, PromptResult, WorkerRow}
use aetherium.Storage.Db.{
  Db, DbError, row_not_found, missing_reference, any_row, row, change, has_row,
}
use aetherium.Storage.Vms as VmTable
use aetherium.Storage.Prompts as PromptTable
use aetherium.Storage.Workers
use aetherium.Storage.Workspaces as WorkspaceTable
use aetherium.Storage.Workspaces.{refers}
use aetherium.Storage.Answers.{
  Calm, Stays, Stays-if, Stays-and_then, Stays-chain, and_then, result_of, execute-Preserves,
  query-Preserves, query-calm, execute-calm,
}

-- A database that answers, and whose prompts satisfy the predicate.
abbrev pub Prompts : (Map PromptTask → Type 0) → Db → Type 0
Prompts R = Calm (λ db. R db.prompts)

module _ (R : Map PromptTask → Type 0) where
  abbrev OnPrompts : Db → Type 0
  OnPrompts d = R d.prompts

  changed-Stays :
      (id : Text) (f : Workspace → Workspace) (db : Db)
      → Prompts R db
      → Stays OnPrompts (WorkspaceTable.changed id f db)
  unfolding WorkspaceTable.changed
  changed-Stays id f db c =
      Stays-and_then OnPrompts (change id f db.workspaces)
        (λ rows. ok (record db { workspaces = rows })) (λ rows. c)

  pub update_status-Prompts :
      (id status : Text) → Preserves (Prompts R) (WorkspaceTable.update_status id status)
  unfolding WorkspaceTable.update_status
  update_status-Prompts id status =
      execute-Preserves OnPrompts (WorkspaceTable.changed id (λ w. record w { status = status }))
        (changed-Stays id (λ w. record w { status = status }))

  pub set_ready-Prompts :
      (now : ℕ) (id : Text) → Preserves (Prompts R) (WorkspaceTable.set_ready now id)
  unfolding WorkspaceTable.set_ready
  set_ready-Prompts now id =
      let f : Workspace → Workspace =
        λ w. record w { status = text "ready"; ready_at = some now } in
      execute-Preserves OnPrompts (WorkspaceTable.changed id f) (changed-Stays id f)

  pub update_idle_since-Prompts :
      (id : Text) (t : Option ℕ) → Preserves (Prompts R) (WorkspaceTable.update_idle_since id t)
  unfolding WorkspaceTable.update_idle_since
  update_idle_since-Prompts id t =
      execute-Preserves OnPrompts (WorkspaceTable.changed id (λ w. record w { idle_since = t }))
        (changed-Stays id (λ w. record w { idle_since = t }))

  link_vm-Stays :
      (id vm_id : Text) (db : Db)
      → Prompts R db
      → Stays OnPrompts (WorkspaceTable.link_vm id vm_id db)
  unfolding WorkspaceTable.link_vm
  link_vm-Stays id vm_id db c =
      Stays-chain OnPrompts (WorkspaceTable.changed id (λ w. record w { vm_id = some vm_id }) db)
        (λ db1. if has_row vm_id db.vms then ok db1 else err missing_reference)
        (changed-Stays id (λ w. record w { vm_id = some vm_id }) db c)
        (λ db1 c1. Stays-if OnPrompts (has_row vm_id db.vms) _ _ c1 tt)

  pub set_vm_id-Prompts :
      (id vm_id : Text) → Preserves (Prompts R) (WorkspaceTable.set_vm_id id vm_id)
  unfolding WorkspaceTable.set_vm_id
  set_vm_id-Prompts id vm_id =
      execute-Preserves OnPrompts (WorkspaceTable.link_vm id vm_id) (link_vm-Stays id vm_id)

  insert_vm-Stays : (v : VmRow) (db : Db) → Prompts R db → Stays OnPrompts (VmTable.insert_vm v db)
  unfolding VmTable.insert_vm
  insert_vm-Stays v db c =
      Stays-if OnPrompts (has_row v.id db.vms || any_row (λ x. text_eq x.name v.name) db.vms) _ _ tt
        (Stays-if OnPrompts (refers v.worker_id db.workers) _ _ c tt)

  pub create_vm-Prompts : (v : VmRow) → Preserves (Prompts R) (VmTable.create v)
  unfolding VmTable.create
  create_vm-Prompts v = execute-Preserves OnPrompts (VmTable.insert_vm v) (insert_vm-Stays v)

  worker-Stays :
      (id : Text) (f : WorkerRow → WorkerRow) (db : Db)
      → Prompts R db
      → Stays OnPrompts (Workers.changed id f db)
  unfolding Workers.changed
  worker-Stays id f db c =
      Stays-and_then OnPrompts (change id f db.workers) (λ rows. ok (record db { workers = rows }))
        (λ rows. c)

  pub update_resources-Prompts :
      (now : ℕ) (id : Text) (cpu memory count : ℕ)
      → Preserves (Prompts R) (Workers.update_resources now id cpu memory count)
  unfolding Workers.update_resources
  update_resources-Prompts now id cpu memory count =
      let f : WorkerRow → WorkerRow = λ w. record w {
        used_cpu_cores = cpu;
        used_memory_mb = memory;
        vm_count = count;
        last_seen = now;
      } in
      execute-Preserves OnPrompts (Workers.changed id f) (worker-Stays id f)

  pub get_environment-Prompts : (id : Text) → Preserves (Prompts R) (VmTable.get_environment id)
  unfolding VmTable.get_environment
  get_environment-Prompts id = query-Preserves OnPrompts (λ d. row id d.environments)

-- The status of the prompt, if it has a row.
abbrev pub status_of : Text → Map PromptTask → Option Text
status_of id m = elim (lookup id m) [ none ↦ none | some p ↦ some p.status ]

abbrev pub HasStatus : Text → Text → Map PromptTask → Type 0
HasStatus id status m = status_of id m ≡ some status

-- The prompt has a row, and keeps one.
abbrev prompt_change :
    Text
    → (PromptTask → PromptTask)
    → Map PromptTask
    → Option PromptTask
    → Result DbError (Map PromptTask)
prompt_change id f m o = elim o [ none ↦ err row_not_found | some p ↦ ok (insert id (f p) m) ]

pub changed-found :
    (id : Text) (f : PromptTask → PromptTask) (db : Db) (p : PromptTask)
    → lookup id db.prompts ≡ some p
    → PromptTable.changed id f db ≡ ok (record db { prompts = insert id (f p) db.prompts })
unfolding PromptTable.changed change
changed-found id f db p found =
    ap (λ o. and_then (prompt_change id f db.prompts o) (λ rows. ok (record db { prompts = rows })))
      found

pub update_status-found :
    (now : ℕ) (id status : Text) (r : Option PromptResult) (db : Db) (p : PromptTask)
    → db.faults ≡ []
    → lookup id db.prompts ≡ some p
    → PromptTable.update_status now id status r db ≡ (
      none,
      record db { prompts = insert id (PromptTable.with_status now status r p) db.prompts },
    )
unfolding PromptTable.update_status
update_status-found now id status r db p calm found =
    execute-calm (PromptTable.changed id (PromptTable.with_status now status r)) db calm
    ∙ ap (λ x. result_of x db) (changed-found id (PromptTable.with_status now status r) db p found)

pub get_prompt-found :
    (id : Text) (db : Db) (p : PromptTask)
    → db.faults ≡ []
    → lookup id db.prompts ≡ some p
    → PromptTable.get id db ≡ (ok p, db)
unfolding PromptTable.get row
get_prompt-found id db p calm found =
    query-calm (λ d. row id d.prompts) db calm
    ∙ ap (λ o. (elim o [ none ↦ err row_not_found | some v ↦ ok v ], db)) found

abbrev pub Present : Text → Map PromptTask → Type 0
Present id m = (p : PromptTask) × (lookup id m ≡ some p)

with_status-status :
    (now : ℕ) (status : Text) (r : Option PromptResult) (p : PromptTask)
    → (PromptTable.with_status now status r p).status ≡ status
unfolding PromptTable.with_status
with_status-status now status none p = refl
with_status-status now status (some r) p = refl

-- The update of a prompt that is there sets its status.
pub update_status-HasStatus :
    (now : ℕ) (id status : Text) (r : Option PromptResult) (db : Db)
    → Prompts (Present id) db
    → Prompts (HasStatus id status) (PromptTable.update_status now id status r db).1
update_status-HasStatus now id status r db (calm, (p, found)) =
    let q = PromptTable.with_status now status r p in
    subst (λ x. Prompts (HasStatus id status) x.1)
      (sym (update_status-found now id status r db p calm found))
      (
        calm,
        ap (λ o. elim o as (λ x. Option Text) [ none ↦ none | some p ↦ some p.status ])
              (lookup-insert_self id q db.prompts)
            ∙ ap (λ s. some s) (with_status-status now status r p),
      )

pub update_status-Present :
    (now : ℕ) (id status : Text) (r : Option PromptResult)
    → Preserves (Prompts (Present id)) (PromptTable.update_status now id status r)
update_status-Present now id status r db (calm, (p, found)) =
    let q = PromptTable.with_status now status r p in
    subst (λ x. Prompts (Present id) x.1)
      (sym (update_status-found now id status r db p calm found))
      (calm, (q, lookup-insert_self id q db.prompts))
