-- ===== src/Gateway/Sessions/Manager.antt =====
-- SessionManager of services/gateway/pkg/websocket/session.go, and the steps that its goroutines take.
use aetherium.Base.{
  ℕ, ◌+◌, ◌-◌, Bool, true, false, not, Option, none, some, List, [], ◌∷◌, ◌++◌, if◌then◌else◌,
  Result, ok, err, Text, text, text_eq, Map, lookup, insert, delete,
}
use aetherium.Storage.{Workspace}
use aetherium.Storage.Db.{Db, DbError}
use aetherium.Storage.Sessions as SessionTable
use aetherium.Storage.Workspaces as WorkspaceTable
use aetherium.Gateway.Sessions.{
  SessionBackend, IncomingMessage, OutgoingMessage, Session, blank_message, enqueue, handle_frame,
}

-- The gateway's memory: `objects` are the session objects that goroutines point to, by id, and
-- `sessions` the map of that name, each entry with the id of the object that it points to. A close of
-- a closed channel panics, which ends the program: `crashed`.
pub record Gateway (W : Type 0) : Type 0 where
  pub db : Db
  pub host : W
  pub objects : Map Session
  pub sessions : Map Text
  pub crashed : Bool

unfoldable pub adjust : Text → (Session → Session) → Map Session → Map Session
adjust id f m = elim (lookup id m) [ none ↦ m | some o ↦ insert id (f o) m ]

-- The answers of HandleSession.
pub data Handled : Type 0 where
  workspace_not_found workspace_not_ready upgrade_failed not_recorded : Handled
  connected : Text → Handled

unfoldable pub new_session : Text → Text → Session
new_session id workspace_id = record {
  id = id;
  workspace_id = workspace_id;
  send = [];
  written = [];
  done = false;
  connected = true;
  reading = true;
  writing = true;
  at_done = 0;
  at_conn = 0;
  at_status = 0;
  at_entry = 0;
}

unfoldable pub welcome : ℕ → Text → Text → OutgoingMessage
welcome now id name = record (blank_message now (text "status")) {
  session_id = id;
  content = text "Connected to workspace: " ++ name;
}

-- writePump on the head of `send`; `sent` says whether the write succeeds. A failed write ends it, and
-- with it the connection.
abbrev pub write_first : Bool → List OutgoingMessage → Session → Session
write_first sent [] o = o
write_first true (m ∷ rest) o = record o { send = rest; written = o.written ++ m ∷ [] }
write_first false (m ∷ rest) o = record o { send = rest; connected = false; writing = false }

unfoldable pub write_message : Bool → Session → Session
write_message sent o = write_first sent o.send o

-- writePump returns, by a failed ping or because `done` is closed.
unfoldable pub stop_writing : Session → Session
stop_writing o = record o { connected = false; writing = false }

-- The channel `done` and the connection are closed.
abbrev pub shut : Session → Session
shut o = record o { done = true; connected = false }

abbrev pub object : Map Session → Option Text → Option Session
object objects none = none
object objects (some ref) = lookup ref objects

module _ {W : Type 0} where
  unfoldable pub get_session : Text → Gateway W → Option Session
  get_session id g = object g.objects (lookup id g.sessions)

  -- The session object is made, registered and welcomed where its row has been stored.
  unfoldable pub register :
      Option DbError → Text → Text → Text → ℕ → Gateway W → Handled × Gateway W
  unfolding new_session welcome enqueue
  register (some e) id workspace_id name now g = (not_recorded, g)
  register none id workspace_id name now g = (
    connected id,
    record g {
      objects = insert id (enqueue (welcome now id name) (new_session id workspace_id)) g.objects;
      sessions = insert id id g.sessions;
    },
  )

  -- The first action of cleanup: `done` is closed, which panics where it is closed already.
  unfoldable pub close_done : Session → Gateway W → Gateway W
  close_done o g =
      if o.done
      then record g { crashed = true }
      else let o' = record o { done = true; at_conn = o.at_conn + 1 } in
        record g { objects = insert o.id o' g.objects }

  -- The second one: the connection is closed.
  unfoldable pub close_conn : Session → Gateway W → Gateway W
  close_conn o g =
      let o' = record o {
        connected = false;
        at_conn = o.at_conn - 1;
        at_status = o.at_status + 1;
      } in
      record g { objects = insert o.id o' g.objects }

  -- The last one, under the lock: the entry of the map is deleted.
  unfoldable pub delete_entry : Session → Gateway W → Gateway W
  delete_entry o g = record g {
    objects = insert o.id (record o { at_entry = o.at_entry - 1 }) g.objects;
    sessions = delete o.id g.sessions;
  }

  -- readPump leaves its loop by a failed read, and its deferred cleanup begins.
  unfoldable pub end_reading : Session → Gateway W → Gateway W
  unfolding close_done
  end_reading o g = close_done (record o { reading = false }) g

  -- CloseSession looks for the session, and is about to begin its cleanup where there is one.
  unfoldable pub begin_close : Option Session → Gateway W → Gateway W
  begin_close none g = g
  begin_close (some o) g = record g {
    objects = insert o.id (record o { at_done = o.at_done + 1 }) g.objects;
  }

  unfoldable pub close_session : Text → Gateway W → Gateway W
  unfolding get_session begin_close
  close_session id g = begin_close (get_session id g) g

  -- The cleanup of a CloseSession begins.
  unfoldable pub go_on_closing : Session → Gateway W → Gateway W
  unfolding close_done
  go_on_closing o g = close_done (record o { at_done = o.at_done - 1 }) g

module _ {W : Type 0} (b : SessionBackend W) where
  unfoldable pub record_session : Text → Text → Text → Text → Gateway W → Handled × Gateway W
  unfolding register
  record_session id workspace_id name client_ip g =
      let now : ℕ = b.now g.host in
      let (problem, db1) =
        SessionTable.create
          (record {
            id = id;
            workspace_id = workspace_id;
            status = text "connected";
            client_ip = some client_ip;
            user_agent = none;
            last_activity = now;
            disconnected_at = none;
          })
          g.db in
      register problem id workspace_id name now (record g { db = db1 })

  -- `upgraded` says whether the request becomes a websocket.
  unfoldable pub open_session :
      Bool → Text → Result DbError Workspace → Text → Gateway W → Handled × Gateway W
  unfolding record_session
  open_session upgraded workspace_id (err e) client_ip g = (workspace_not_found, g)
  open_session upgraded workspace_id (ok w) client_ip g =
      if not (text_eq w.status (text "ready"))
      then (workspace_not_ready, g)
      else if not upgraded
      then (upgrade_failed, g)
      else let (id, h) = b.new_id g.host in
        record_session id workspace_id w.name client_ip (record g { host = h })

  unfoldable pub handle_session : Bool → Text → Text → Gateway W → Handled × Gateway W
  unfolding open_session
  handle_session upgraded workspace_id client_ip g =
      let (found, db1) = WorkspaceTable.get workspace_id g.db in
      open_session upgraded workspace_id found client_ip (record g { db = db1 })

  -- A frame that readPump reads.
  unfoldable pub receive : Workspace → Option IncomingMessage → Session → Gateway W → Gateway W
  unfolding handle_frame
  receive w frame o g =
      let t = (handle_frame b w frame (record { db = g.db; host = g.host; session = o })).1 in
      record g { db = t.db; host = t.host; objects = insert o.id t.session g.objects }

  -- The third action of cleanup: the end is recorded in the database.
  unfoldable pub record_end : Session → Gateway W → Gateway W
  record_end o g =
      let (problem, db1) =
        SessionTable.update_status (b.now g.host) o.id (text "disconnected") g.db in
      let o' = record o { at_status = o.at_status - 1; at_entry = o.at_entry + 1 } in
      record g { db = db1; objects = insert o.id o' g.objects }
