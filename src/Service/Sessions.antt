-- ===== src/Service/Sessions.antt =====
-- The sessions of services/core/pkg/service/workspace_service.go.
use aetherium.Base.{
  ℕ, Option, none, some, if◌then◌else◌, Result, ok, err, Text, text, text_eq, Action, ◌>>=◌, pure,
}
use aetherium.Storage.{Workspace}
use aetherium.Storage.Db.{DbError}
use aetherium.Storage.Sessions as SessionTable
use aetherium.Storage.Workspaces as WorkspaceTable
use aetherium.Service.{Client, Site, string_ptr, on_db, on_host, the_time}

module _ {W : Type 0} (c : Client W) where
  unfoldable pub insert_session : Text → Text → Text → Action (Site W) (Result Text Text)
  insert_session workspace_id client_ip user_agent = do
    id ← on_host c.new_id
    now ← the_time c
    problem ← on_db (
        SessionTable.create (record {
          id = id;
          workspace_id = workspace_id;
          status = text "active";
          client_ip = string_ptr client_ip;
          user_agent = string_ptr user_agent;
          last_activity = now;
          disconnected_at = none;
        }))
    elim problem [ some e ↦ pure (err (text "failed to create session")) | none ↦ pure (ok id) ]

  unfoldable pub create_for :
      Text → Text → Text → Result DbError Workspace → Action (Site W) (Result Text Text)
  unfolding insert_session
  create_for workspace_id client_ip user_agent (err e) = pure (err (text "workspace not found"))
  create_for workspace_id client_ip user_agent (ok w) =
      if text_eq w.status (text "ready")
      then insert_session workspace_id client_ip user_agent
      else pure (err (text "workspace is not ready"))

  unfoldable pub create_session : Text → Text → Text → Action (Site W) (Result Text Text)
  unfolding create_for
  create_session workspace_id client_ip user_agent =
      on_db (WorkspaceTable.get workspace_id) >>= create_for workspace_id client_ip user_agent

  unfoldable pub end_session : Text → Action (Site W) (Option DbError)
  end_session session_id = do
    now ← the_time c
    on_db (SessionTable.update_status now session_id (text "terminated"))

  unfoldable pub add_session_message :
      Text → Text → Text → Option ℕ → Action (Site W) (Result Text Text)
  add_session_message session_id message_type content exit_code = do
    id ← on_host c.new_id
    problem ← on_db (
        SessionTable.create_message (record {
          id = id;
          session_id = session_id;
          message_type = message_type;
          content = content;
          exit_code = exit_code;
        }))
    elim problem [
      | some e ↦ pure (err (text "failed to add session message"))
      | none ↦ pure (ok id)
    ]
