-- ===== src/Gateway/Sessions/Stored.antt =====
-- The rows of a prompt and its response, and what the client is sent, step by step
-- (handlePrompt of services/gateway/pkg/websocket/session.go).
use aetherium.Base.{
  ℕ, ◌≡◌, refl, ap, ◌∙◌, arith, Bool, true, false, Option, none, some, [], ◌∷◌, ◌++◌, if◌then◌else◌,
  Result, ok, err, Text, text, insert,
}
use aetherium.Storage.{Workspace, SessionMessage}
use aetherium.Storage.Answers.{execute-calm, result_of}
use aetherium.Storage.Db.{Db, DbError, has_row}
use aetherium.Storage.Sessions as SessionTable
use aetherium.Worker.{Command, ExecResult}
use aetherium.Gateway.Sessions.{
  SessionBackend, IncomingMessage, OutgoingMessage, Session, Talk, blank_message, chosen_dir,
  enqueue, exit_code_of, handle_prompt, on_host, prompt_cmd, response_content, run_prompt,
  send_message, send_result, store_message, stored_content, with_cmd,
}

abbrev pub message_row : Text → Text → Text → Text → Option ℕ → SessionMessage
message_row id session_id kind content code = record {
  id = id;
  session_id = session_id;
  message_type = kind;
  content = content;
  exit_code = code;
}

-- What the client is told of a result.
abbrev pub reply : ℕ → Text → Result Text ExecResult → OutgoingMessage
reply now message_id (err e) = record (blank_message now (text "error")) {
  message_id = message_id;
  error = text "Failed to execute command: " ++ e;
}
reply now message_id (ok r) = record (blank_message now (text "response")) {
  message_id = message_id;
  content = response_content r;
  exit_code = some r.exit_code;
}

abbrev pub acknowledgment : ℕ → Text → OutgoingMessage
acknowledgment now message_id = record (blank_message now (text "status")) {
  message_id = message_id;
  content = text "Processing prompt...";
}

abbrev pub bash : Text → Command
bash cmd = record { cmd = text "bash"; args = text "-c" ∷ cmd ∷ [] }

abbrev pub prompt_row : Text → Text → Text → SessionMessage
prompt_row id session_id prompt = message_row id session_id (text "user_prompt") prompt none

abbrev pub response_row : Text → Text → Result Text ExecResult → SessionMessage
response_row id session_id r =
    message_row id session_id (text "ai_response") (stored_content r) (exit_code_of r)

abbrev row_result : Bool → Bool → SessionMessage → Db → Result DbError Db
row_result taken known m d =
    if taken
    then err DbError.duplicate_row
    else if known
    then ok (record d { messages = insert m.id m d.messages })
    else err DbError.missing_reference

create_message_stored :
    (m : SessionMessage) (db : Db)
    → db.faults ≡ []
    → has_row m.id db.messages ≡ false
    → has_row m.session_id db.sessions ≡ true
    → SessionTable.create_message m db ≡ (none, record db { messages = insert m.id m db.messages })
unfolding SessionTable.create_message
create_message_stored m db calm free known =
    execute-calm (λ d. row_result (has_row m.id d.messages) (has_row m.session_id d.sessions) m d)
      db calm
    ∙ ap (λ x. result_of (row_result x (has_row m.session_id db.sessions) m db) db) free
    ∙ ap (λ x. result_of (row_result false x m db) db) known

module _ {W : Type 0} (b : SessionBackend W) where
  abbrev with_message : Text → Text → Text → Option ℕ → Talk W → Talk W
  with_message id kind content code t = record t {
    db = record t.db {
      messages = insert id (message_row id t.session.id kind content code) t.db.messages;
    };
  }

  store_message_stored :
      (id kind content : Text) (code : Option ℕ) (t : Talk W)
      → t.db.faults ≡ []
      → has_row id t.db.messages ≡ false
      → has_row t.session.id t.db.sessions ≡ true
      → store_message b id kind content code t ≡ (none, with_message id kind content code t)
  unfolding store_message
  store_message_stored id kind content code t calm free known =
      ap (λ r. (r.0, record t { db = r.1 }))
        (create_message_stored (message_row id t.session.id kind content code) t.db calm free known)

  send_result_lem :
      (message_id : Text) (r : Result Text ExecResult) (t : Talk W)
      → send_result b message_id r t
        ≡ (tt, record t { session = enqueue (reply (b.now t.host) message_id r) t.session })
  unfolding send_result send_message
  send_result_lem message_id (err e) t = refl
  send_result_lem message_id (ok r) t = refl

pub enqueue-id : (m : OutgoingMessage) (s : Session) → (enqueue m s).id ≡ s.id
unfolding enqueue
enqueue-id m s = ground arith

module _ {W : Type 0} (b : SessionBackend W) where
  -- run_prompt from the answer of the orchestrator on, and from the message to the client on.
  abbrev respond : Result Text ExecResult → (Unit {0}) × Talk W → (Unit {0}) × Talk W
  respond result sent =
      let named = on_host b.new_id sent.1 in
      (
        tt,
        (store_message b named.0 (text "ai_response") (stored_content result) (exit_code_of result)
            named.1).1,
      )

  abbrev finish : Text → Talk W → Result Text ExecResult × W → (Unit {0}) × Talk W
  finish message_id t x = respond x.0 (send_result b message_id x.0 (record t { host = x.1 }))

  abbrev pub answered : Text → Result Text ExecResult → W → Talk W → Talk W
  answered message_id result h t = record t {
    host = (b.new_id h).1;
    session = enqueue (reply (b.now h) message_id result) t.session;
    db = record t.db {
      messages =
          insert (b.new_id h).0
            (message_row (b.new_id h).0 t.session.id (text "ai_response") (stored_content result)
              (exit_code_of result))
            t.db.messages;
    };
  }

  -- The row and the message of a result.
  pub run_prompt_recorded :
      (message_id vm_id cmd : Text) (result : Result Text ExecResult) (h : W) (t : Talk W)
      → b.execute_command vm_id (bash cmd) t.host ≡ (result, h)
      → t.db.faults ≡ []
      → has_row (b.new_id h).0 t.db.messages ≡ false
      → has_row t.session.id t.db.sessions ≡ true
      → run_prompt b message_id vm_id cmd t ≡ (tt, answered message_id result h t)
  unfolding run_prompt
  run_prompt_recorded message_id vm_id cmd result h t e calm free known =
      let m = reply (b.now h) message_id result in
      let same = enqueue-id m t.session in
      let t' = record t { host = (b.new_id h).1; session = enqueue m t.session } in
      ap (finish message_id t) e
      ∙ ap (respond result) (send_result_lem b message_id result (record t { host = h }))
      ∙ ap (λ r. (tt, r.1))
          (store_message_stored b (b.new_id h).0 (text "ai_response") (stored_content result)
            (exit_code_of result) t' calm free (ap (λ id. has_row id t.db.sessions) same ∙ known))
      ∙ ap
          (λ id. (
            tt,
            record t' {
              db = record t.db {
                messages =
                    insert (b.new_id h).0
                      (message_row (b.new_id h).0 id (text "ai_response") (stored_content result)
                        (exit_code_of result))
                      t.db.messages;
              };
            },
          ))
          same

  -- handlePrompt up to the choice of the command.
  abbrev pub accepted : Text → Text → W → Talk W → Talk W
  accepted message_id prompt h t = record t {
    host = (b.new_id h).1;
    session = enqueue (acknowledgment (b.now (b.new_id h).1) message_id) t.session;
    db = record t.db {
      messages =
          insert (b.new_id h).0
            (message_row (b.new_id h).0 t.session.id (text "user_prompt") prompt none)
            t.db.messages;
    };
  }

  abbrev acknowledge :
      Workspace → IncomingMessage → Text → Option DbError × Talk W → (Unit {0}) × Talk W
  acknowledge w m message_id stored =
      let t = stored.1 in
      with_cmd b message_id w.ai_assistant (prompt_cmd w.ai_assistant (chosen_dir w m) m.prompt)
        w.vm_id
        (record t { session = enqueue (acknowledgment (b.now t.host) message_id) t.session })

  pub handle_prompt-accepted :
      (w : Workspace) (m : IncomingMessage) (t : Talk W)
      → t.db.faults ≡ []
      → has_row (b.new_id (b.new_id t.host).1).0 t.db.messages ≡ false
      → has_row t.session.id t.db.sessions ≡ true
      → handle_prompt b w m t
        ≡ with_cmd b
            (b.new_id t.host).0
            w.ai_assistant
            (prompt_cmd w.ai_assistant (chosen_dir w m) m.prompt)
            w.vm_id
            (accepted (b.new_id t.host).0 m.prompt (b.new_id t.host).1 t)
  unfolding handle_prompt send_message
  handle_prompt-accepted w m t calm free known =
      let h = (b.new_id t.host).1 in
      ap (acknowledge w m (b.new_id t.host).0) (
        store_message_stored b (b.new_id h).0 (text "user_prompt") m.prompt none
          (record t { host = (b.new_id h).1 }) calm free known)
