-- ===== src/Storage/Sessions.antt =====
-- sessionRepository and sessionMessageRepository of
-- services/core/pkg/storage/postgres/workspaces.go.
use aetherium.Base.{
  ℕ, ◌||◌, Option, none, some, if◌then◌else◌, Result, ok, err, Text, text, text_eq, Map, lookup,
  insert,
}
use aetherium.Storage.{WorkspaceSession, SessionMessage}
use aetherium.Storage.Db.{
  Db, DbError, duplicate_row, missing_reference, execute, query, row, has_row,
}

unfoldable pub create : WorkspaceSession → Db → Option DbError × Db
unfolding execute has_row
create s db =
    execute
      (λ d.
        if has_row s.id d.sessions
        then err duplicate_row
        else if has_row s.workspace_id d.workspaces
        then ok
            (record d { sessions = insert s.id (record s { disconnected_at = none }) d.sessions })
        else err missing_reference)
      db

unfoldable pub get : Text → Db → Result DbError WorkspaceSession × Db
unfolding query row
get id db = query (λ d. row id d.sessions) db

-- An update of no row is no error here.
unfoldable pub touched :
    Text → (WorkspaceSession → WorkspaceSession) → Map WorkspaceSession → Map WorkspaceSession
touched id f m = elim (lookup id m) [ none ↦ m | some s ↦ insert id (f s) m ]

unfoldable pub update_last_activity : ℕ → Text → Db → Option DbError × Db
unfolding execute touched
update_last_activity now id db =
    execute
      (λ d.
        ok (record d { sessions = touched id (λ s. record s { last_activity = now }) d.sessions }))
      db

unfoldable pub update_status : ℕ → Text → Text → Db → Option DbError × Db
unfolding execute touched
update_status now id status db =
    execute
      (λ d. ok (record d {
        sessions =
            touched id
              (λ s.
                if text_eq status (text "disconnected") || text_eq status (text "terminated")
                then record s { status = status; disconnected_at = some now }
                else record s { status = status })
              d.sessions;
      }))
      db

unfoldable pub create_message : SessionMessage → Db → Option DbError × Db
unfolding execute has_row
create_message m db =
    execute
      (λ d.
        if has_row m.id d.messages
        then err duplicate_row
        else if has_row m.session_id d.sessions
        then ok (record d { messages = insert m.id m d.messages })
        else err missing_reference)
      db
