-- ===== src/Storage/Workspaces.antt =====
-- workspaceRepository of services/core/pkg/storage/postgres/workspaces.go.
use aetherium.Base.{
  ℕ, Bool, true, false, ◌&&◌, ◌||◌, Option, none, some, List, [], ◌∷◌, if◌then◌else◌, leb, Result,
  ok, err, Text, text, text_eq, Map, insert,
}
use aetherium.Storage.{Workspace}
use aetherium.Storage.Db.{
  Db, DbError, row_not_found, duplicate_row, missing_reference, execute, query, any_row, rows_where,
  row, change, has_row, drop_workspaces,
}

-- A reference that is NULL or to a row that is there.
unfoldable pub refers : {V : Type 0} → Option Text → Map V → Bool
unfolding has_row
refers none m = true
refers (some id) m = has_row id m

-- The primary key, the unique name, and the references to vms and environments.
unfoldable pub insert_workspace : Workspace → Db → Result DbError Db
unfolding refers any_row has_row
insert_workspace w db =
    if has_row w.id db.workspaces || any_row (λ x. text_eq x.name w.name) db.workspaces
    then err duplicate_row
    else if refers w.vm_id db.vms && refers w.environment_id db.environments
    then ok (record db { workspaces = insert w.id w db.workspaces })
    else err missing_reference

unfoldable pub create : Workspace → Db → Option DbError × Db
unfolding execute insert_workspace
create w db =
    let inserted = record w { idle_since = none; ready_at = none; stopped_at = none } in
    execute (insert_workspace inserted) db

unfoldable pub get : Text → Db → Result DbError Workspace × Db
unfolding query row
get id db = query (λ d. row id d.workspaces) db

unfoldable pub first_where : {A : Type 0} → List A → Result DbError A
first_where [] = err row_not_found
first_where (x ∷ xs) = ok x

unfoldable pub get_by_name : Text → Db → Result DbError Workspace × Db
unfolding query first_where rows_where
get_by_name name db =
    query (λ d. first_where (rows_where (λ w. text_eq w.name name) d.workspaces)) db

unfoldable pub get_by_vm_id : Text → Db → Result DbError Workspace × Db
unfolding query first_where rows_where
get_by_vm_id vm_id db =
    query
      (λ d.
        first_where
          (rows_where (λ w. elim w.vm_id [ none ↦ false | some v ↦ text_eq v vm_id ]) d.workspaces))
      db

unfoldable pub changed : Text → (Workspace → Workspace) → Db → Result DbError Db
unfolding change
changed id f db = elim (change id f db.workspaces) [
  | err e ↦ err e
  | ok rows ↦ ok (record db { workspaces = rows })
]

unfoldable pub update_status : Text → Text → Db → Option DbError × Db
unfolding execute changed
update_status id status db = execute (changed id (λ w. record w { status = status })) db

-- The row in vms that the new value refers to must be there.
unfoldable pub link_vm : Text → Text → Db → Result DbError Db
unfolding changed has_row
link_vm id vm_id db = elim (changed id (λ w. record w { vm_id = some vm_id }) db) [
  | err e ↦ err e
  | ok db1 ↦ if has_row vm_id db.vms then ok db1 else err missing_reference
]

unfoldable pub set_vm_id : Text → Text → Db → Option DbError × Db
unfolding execute link_vm
set_vm_id id vm_id db = execute (link_vm id vm_id) db

unfoldable pub set_environment_id : Text → Text → Db → Option DbError × Db
unfolding execute changed has_row
set_environment_id id environment_id db =
    execute
      (λ d. elim (changed id (λ w. record w { environment_id = some environment_id }) d) [
        | err e ↦ err e
        | ok d1 ↦ if has_row environment_id d.environments then ok d1 else err missing_reference
      ])
      db

unfoldable pub set_ready : ℕ → Text → Db → Option DbError × Db
unfolding execute changed
set_ready now id db =
    execute (changed id (λ w. record w { status = text "ready"; ready_at = some now })) db

unfoldable pub clear_vm_id : Text → Db → Option DbError × Db
unfolding execute changed
clear_vm_id id db = execute (changed id (λ w. record w { vm_id = none })) db

unfoldable pub update_idle_since : Text → Option ℕ → Db → Option DbError × Db
unfolding execute changed
update_idle_since id idle_since db =
    execute (changed id (λ w. record w { idle_since = idle_since })) db

unfoldable pub delete_workspace : Text → Db → Result DbError Db
unfolding has_row drop_workspaces
delete_workspace id db =
    if has_row id db.workspaces
    then ok (drop_workspaces (λ k. text_eq k id) db)
    else err row_not_found

unfoldable pub delete_row : Text → Db → Option DbError × Db
unfolding execute delete_workspace
delete_row id db = execute (delete_workspace id) db

-- `ORDER BY idle_since ASC`, earlier rows first among equals.
unfoldable pub insert_by : {A : Type 0} → (A → ℕ) → A → List A → List A
insert_by key x [] = x ∷ []
insert_by key x (y ∷ ys) = if leb (key x) (key y) then x ∷ y ∷ ys else y ∷ insert_by key x ys

unfoldable pub order_by : {A : Type 0} → (A → ℕ) → List A → List A
unfolding insert_by
order_by key [] = []
order_by key (x ∷ xs) = insert_by key x (order_by key xs)

abbrev pub is_some : {A : Type 0} → Option A → Bool
is_some none = false
is_some (some a) = true

unfoldable pub list_idle_with_vms : Db → Result DbError (List Workspace) × Db
unfolding query rows_where order_by
list_idle_with_vms db =
    query
      (λ d. ok (
        order_by (λ w. elim w.idle_since [ none ↦ 0 | some t ↦ t ])
          (rows_where
            (λ w. text_eq w.status (text "ready") && is_some w.vm_id && is_some w.idle_since)
            d.workspaces)))
      db
