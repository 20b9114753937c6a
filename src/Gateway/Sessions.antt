-- ===== src/Gateway/Sessions.antt =====
-- A session of services/gateway/pkg/websocket/session.go and the messages of its client. Frames come
-- decoded, none where the JSON does not fit, and are sent as the records that json.Marshal encodes. A
-- message is handled in one step, with the session's `send` channel as a list. The file has a copy of
-- the worker's escapeShellArg, which is Worker/Shell here.
pub mod Manager
pub mod Growth
pub mod Steps
pub mod Objects
pub mod Actions
pub mod Soundness
pub mod Runs
pub mod Closing
pub mod Draining
pub mod Order
pub mod Delivery
pub mod Stored
pub mod Records
use aetherium.Base.{
  ℕ, Bool, true, false, not, ◌&&◌, ◌||◌, ◌==◌, ltb, Option, none, some, List, [], ◌∷◌, ◌++◌,
  if◌then◌else◌, length, Result, ok, err, Text, text, text_eq, Map, Action, ◌>>=◌, ◌>>◌, pure,
  modify, gets,
}
use aetherium.Storage.{Json, Workspace, SessionMessage}
use aetherium.Storage.Db.{Db, DbError}
use aetherium.Storage.Sessions as SessionTable
use aetherium.Worker.{Command, ExecResult, or_nil}
use aetherium.Worker.Shell.{escape_shell_arg}

-- What the sessions call: the orchestrator, and the libraries for ids and the time. An error is its
-- message.
pub record SessionBackend (W : Type 0) : Type 0 where
  pub execute_command : Text → Command → W → Result Text ExecResult × W
  pub new_id : W → Text × W
  pub now : W → ℕ

pub record IncomingMessage : Type 0 where
  pub message_type : Text
  pub prompt : Text
  pub system_prompt : Text
  pub working_directory : Text
  pub environment : Map Json

pub record OutgoingMessage : Type 0 where
  pub message_type : Text
  pub session_id : Text
  pub message_id : Text
  pub content : Text
  pub exit_code : Option ℕ
  pub error : Text
  pub timestamp : ℕ

-- `done` says that the channel of that name is closed, `connected` that the connection is open,
-- `reading` and `writing` that readPump and writePump run. `written` is what the client was sent. The
-- last four count the cleanups of it that are under way, by what they do next: close `done`, close the
-- connection, record the end in the database, delete the entry of the map.
pub record Session : Type 0 where
  pub id : Text
  pub workspace_id : Text
  pub send : List OutgoingMessage
  pub written : List OutgoingMessage
  pub done : Bool
  pub connected : Bool
  pub reading : Bool
  pub writing : Bool
  pub at_done : ℕ
  pub at_conn : ℕ
  pub at_status : ℕ
  pub at_entry : ℕ

-- The capacity of `send`.
abbrev pub send_buffer : ℕ
send_buffer = 256

-- The send in sendMessage: a message is dropped where the buffer is full.
unfoldable pub enqueue : OutgoingMessage → Session → Session
enqueue m s = if ltb (length s.send) send_buffer then record s { send = s.send ++ m ∷ [] } else s

-- A session with the database and the rest of the world.
pub record Talk (W : Type 0) : Type 0 where
  pub db : Db
  pub host : W
  pub session : Session

abbrev pub blank_message : ℕ → Text → OutgoingMessage
blank_message now kind = record {
  message_type = kind;
  session_id = or_nil none;
  message_id = or_nil none;
  content = [];
  exit_code = none;
  error = [];
  timestamp = now;
}

-- The command of handlePrompt, none for an assistant that it does not know.
unfoldable pub prompt_cmd : Text → Text → Text → Option Text
prompt_cmd assistant working_dir prompt =
    if text_eq assistant (text "claude-code")
    then some (
        text "cd "
        ++ (working_dir
            ++ (text " && claude-code --dangerously-skip-permissions '"
                ++ (escape_shell_arg prompt ++ text "'"))))
    else if text_eq assistant (text "ampcode") || text_eq assistant (text "amp")
    then some
        (text "cd " ++ (working_dir ++ (text " && amp '" ++ (escape_shell_arg prompt ++ text "'"))))
    else none

abbrev pub nonempty : Text → Bool
nonempty s = not (text_eq s [])

-- What the client is sent of a result, and what is stored of it.
unfoldable pub response_content : ExecResult → Text
response_content r =
    if nonempty r.stderr && not (r.exit_code == 0)
    then r.stdout ++ (text "\n\nStderr:\n" ++ r.stderr)
    else r.stdout

unfoldable pub stored_content : Result Text ExecResult → Text
stored_content (err e) = e
stored_content (ok r) = if nonempty r.stderr then r.stdout ++ (text "\n" ++ r.stderr) else r.stdout

unfoldable pub exit_code_of : Result Text ExecResult → Option ℕ
exit_code_of (err e) = none
exit_code_of (ok r) = some r.exit_code

abbrev pub chosen_dir : Workspace → IncomingMessage → Text
chosen_dir w m = if nonempty m.working_directory then m.working_directory else w.working_directory

module _ {W : Type 0} where
  abbrev pub on_db : {A : Type 0} → (Db → A × Db) → Action (Talk W) A
  on_db f t = let (a, d) = f t.db in (a, record t { db = d })

  abbrev pub on_host : {A : Type 0} → (W → A × W) → Action (Talk W) A
  on_host f t = let (a, v) = f t.host in (a, record t { host = v })

  unfoldable pub send_message : OutgoingMessage → Action (Talk W) (Unit {0})
  send_message m = modify (λ t. record t { session = enqueue m t.session })

module _ {W : Type 0} (b : SessionBackend W) where
  abbrev pub the_time : Action (Talk W) ℕ
  the_time = gets (λ t. b.now t.host)

  unfoldable pub send_error : Text → Action (Talk W) (Unit {0})
  unfolding send_message
  send_error message = do
    now ← the_time
    send_message (record (blank_message now (text "error")) { error = message })

  -- A row of session_messages. A failure is only logged.
  unfoldable pub store_message : Text → Text → Text → Option ℕ → Action (Talk W) (Option DbError)
  store_message id kind content exit_code t =
      on_db
        (SessionTable.create_message (record {
          id = id;
          session_id = t.session.id;
          message_type = kind;
          content = content;
          exit_code = exit_code;
        }))
        t

  unfoldable pub send_result : Text → Result Text ExecResult → Action (Talk W) (Unit {0})
  unfolding send_message
  send_result message_id (err e) = do
    now ← the_time
    send_message (record (blank_message now (text "error")) {
      message_id = message_id;
      error = text "Failed to execute command: " ++ e;
    })
  send_result message_id (ok r) = do
    now ← the_time
    send_message (record (blank_message now (text "response")) {
      message_id = message_id;
      content = response_content r;
      exit_code = some r.exit_code;
    })

  unfoldable pub run_prompt : Text → Text → Text → Action (Talk W) (Unit {0})
  unfolding send_result store_message
  run_prompt message_id vm_id cmd = do
    result ←
        on_host
          (b.execute_command vm_id (record { cmd = text "bash"; args = text "-c" ∷ cmd ∷ [] }))
    send_result message_id result
    response_id ← on_host b.new_id
    store_message response_id (text "ai_response") (stored_content result) (exit_code_of result)
    pure tt

  -- The two early returns of handlePrompt.
  unfoldable pub with_cmd : Text → Text → Option Text → Option Text → Action (Talk W) (Unit {0})
  unfolding run_prompt send_error
  with_cmd message_id assistant none vm_id = send_error (text "Unknown AI assistant: " ++ assistant)
  with_cmd message_id assistant (some cmd) none = send_error (text "Workspace has no VM assigned")
  with_cmd message_id assistant (some cmd) (some vm_id) = run_prompt message_id vm_id cmd

  unfoldable pub handle_prompt : Workspace → IncomingMessage → Action (Talk W) (Unit {0})
  unfolding with_cmd store_message send_message
  handle_prompt w m = do
    message_id ← on_host b.new_id
    prompt_id ← on_host b.new_id
    store_message prompt_id (text "user_prompt") m.prompt none
    now ← the_time
    send_message (record (blank_message now (text "status")) {
      message_id = message_id;
      content = text "Processing prompt...";
    })
    with_cmd message_id w.ai_assistant (prompt_cmd w.ai_assistant (chosen_dir w m) m.prompt) w.vm_id

  unfoldable pub send_pong : Action (Talk W) (Unit {0})
  unfolding send_message
  send_pong = do now ← the_time; send_message (blank_message now (text "pong"))

  unfoldable pub dispatch : Workspace → IncomingMessage → Action (Talk W) (Unit {0})
  unfolding handle_prompt send_pong send_error
  dispatch w m =
      if text_eq m.message_type (text "ping")
      then send_pong
      else if text_eq m.message_type (text "prompt")
      then handle_prompt w m
      else send_error (text "Unknown message type: " ++ m.message_type)

  unfoldable pub update_activity : Action (Talk W) (Option DbError)
  update_activity t = on_db (SessionTable.update_last_activity (b.now t.host) t.session.id) t

  -- One round of readPump on a frame that was read.
  unfoldable pub handle_frame : Workspace → Option IncomingMessage → Action (Talk W) (Unit {0})
  unfolding dispatch send_error update_activity
  handle_frame w none = send_error (text "Invalid message format")
  handle_frame w (some m) = do dispatch w m; update_activity; pure tt
