-- ===== src/Storage/Secrets.antt =====
-- secretRepository of services/core/pkg/storage/postgres/workspaces.go.
use aetherium.Base.{
  Bool, true, false, ◌&&◌, ◌||◌, Option, none, some, List, if◌then◌else◌, Result, ok, err, Text,
  text_eq, insert, delete,
}
use aetherium.Storage.{WorkspaceSecret}
use aetherium.Storage.Db.{
  Db, DbError, row_not_found, duplicate_row, missing_reference, execute, query, any_row, rows_where,
  row, has_row, points_to,
}
use aetherium.Storage.Workspaces.{refers, first_where}

-- NULL is equal to NULL: the constraint says NULLS NOT DISTINCT.
abbrev pub same_owner : Option Text → Option Text → Bool
same_owner none none = true
same_owner none (some b) = false
same_owner (some a) none = false
same_owner (some a) (some b) = text_eq a b

unfoldable pub insert_secret : WorkspaceSecret → Db → Result DbError Db
unfolding has_row any_row refers
insert_secret s db =
    if has_row s.id db.secrets
      || any_row (λ x. same_owner x.workspace_id s.workspace_id && text_eq x.name s.name) db.secrets
    then err duplicate_row
    else if refers s.workspace_id db.workspaces
    then ok (record db { secrets = insert s.id s db.secrets })
    else err missing_reference

unfoldable pub create : WorkspaceSecret → Db → Option DbError × Db
unfolding execute insert_secret
create s db = execute (insert_secret s) db

unfoldable pub get : Text → Db → Result DbError WorkspaceSecret × Db
unfolding query row
get id db = query (λ d. row id d.secrets) db

unfoldable pub get_by_name : Option Text → Text → Db → Result DbError WorkspaceSecret × Db
unfolding query first_where rows_where
get_by_name workspace_id name db =
    query
      (λ d.
        first_where (
          rows_where (λ s. same_owner s.workspace_id workspace_id && text_eq s.name name)
            d.secrets))
      db

-- The order by name is that of no use to the callers, which make a map of the rows.
unfoldable pub list_by_workspace : Text → Db → Result DbError (List WorkspaceSecret) × Db
unfolding query rows_where
list_by_workspace workspace_id db =
    query (λ d. ok (rows_where (λ s. points_to workspace_id s.workspace_id) d.secrets)) db

unfoldable pub delete_row : Text → Db → Option DbError × Db
unfolding execute has_row
delete_row id db =
    execute
      (λ d.
        if has_row id d.secrets
        then ok (record d { secrets = delete id d.secrets })
        else err row_not_found)
      db
