-- ===== src/Storage/Vms.antt =====
-- vmRepository and executionRepository of services/core/pkg/storage/postgres (vms.go, executions.go),
-- and environmentRepository.Get of environments.go.
use aetherium.Base.{◌||◌, Option, none, if◌then◌else◌, Result, ok, err, Text, text_eq, insert}
use aetherium.Storage.{VmRow, Execution, Environment}
use aetherium.Storage.Db.{
  Db, DbError, row_not_found, duplicate_row, missing_reference, execute, query, any_row, row,
  has_row, drop_vm,
}
use aetherium.Storage.Workspaces.{refers}

unfoldable pub insert_vm : VmRow → Db → Result DbError Db
unfolding refers any_row has_row
insert_vm v db =
    if has_row v.id db.vms || any_row (λ x. text_eq x.name v.name) db.vms
    then err duplicate_row
    else if refers v.worker_id db.workers
    then ok
        (record db { vms = insert v.id (record v { started_at = none; stopped_at = none }) db.vms })
    else err missing_reference

unfoldable pub create : VmRow → Db → Option DbError × Db
unfolding execute insert_vm
create v db = execute (insert_vm v) db

unfoldable pub get : Text → Db → Result DbError VmRow × Db
unfolding query row
get id db = query (λ d. row id d.vms) db

unfoldable pub delete_vm : Text → Db → Result DbError Db
unfolding has_row drop_vm
delete_vm id db = if has_row id db.vms then ok (drop_vm id db) else err row_not_found

unfoldable pub delete_row : Text → Db → Option DbError × Db
unfolding execute delete_vm
delete_row id db = execute (delete_vm id) db

unfoldable pub create_execution : Execution → Db → Option DbError × Db
unfolding execute refers has_row
create_execution e db =
    execute
      (λ d.
        if has_row e.id d.executions
        then err duplicate_row
        else if refers e.vm_id d.vms
        then ok (record d { executions = insert e.id e d.executions })
        else err missing_reference)
      db

unfoldable pub get_environment : Text → Db → Result DbError Environment × Db
unfolding query row
get_environment id db = query (λ d. row id d.environments) db
