-- ===== src/Gateway/Sessions/Records.antt =====
-- What a prompt leaves in the database and tells the client
-- (handlePrompt of services/gateway/pkg/websocket/session.go).
use aetherium.Base.{
  ◌≡◌, ◌⊎◌, inl, inr, refl, ap, ◌∙◌, true, false, Option, none, some, [], ◌++◌, Text, text, insert,
}
use aetherium.Storage.{Workspace}
use aetherium.Storage.Db.{has_row}
use aetherium.Gateway.Sessions.{
  SessionBackend, IncomingMessage, Talk, blank_message, chosen_dir, enqueue, handle_prompt,
  prompt_cmd, send_error, send_message, with_cmd,
}
use aetherium.Gateway.Sessions.Stored.{acknowledgment, prompt_row, accepted, handle_prompt-accepted}

module _ {W : Type 0} (b : SessionBackend W) where
  abbrev pub message_id_of : Talk W → Text
  message_id_of t = (b.new_id t.host).0

  -- The id of the prompt's row, and the host behind it.
  abbrev pub prompt_id_of : Talk W → Text × W
  prompt_id_of t = b.new_id (b.new_id t.host).1

  abbrev told : Text → Talk W → Talk W
  told problem t = record t {
    session =
        enqueue (record (blank_message (b.now t.host) (text "error")) { error = problem })
          t.session;
  }

  with_cmd_refused :
      (message_id assistant : Text) (c vm : Option Text) (t : Talk W)
      → (c ≡ none) ⊎ (vm ≡ none)
      → (problem : Text) × (with_cmd b message_id assistant c vm t ≡ (tt, told problem t))
  unfolding with_cmd send_error send_message
  with_cmd_refused message_id assistant none vm t h =
      (text "Unknown AI assistant: " ++ assistant, refl)
  with_cmd_refused message_id assistant (some c) none t h =
      (text "Workspace has no VM assigned", refl)
  with_cmd_refused message_id assistant (some c) (some v) t (inl e) = cc
  with_cmd_refused message_id assistant (some c) (some v) t (inr e) = cc

  module _ (w : Workspace) (m : IncomingMessage) (t : Talk W) (calm : t.db.faults ≡ [])
      (free : has_row (prompt_id_of t).0 t.db.messages ≡ false)
      (known : has_row t.session.id t.db.sessions ≡ true) where
    -- Where the database answers, the session has a row and the new id is free, a prompt for an
    -- unknown assistant, or in a workspace with no VM, is stored with no response, no command is run,
    -- and the client is sent the acknowledgment and then an error.
    pub handle_prompt-refused :
        (prompt_cmd w.ai_assistant (chosen_dir w m) m.prompt ≡ none) ⊎ (w.vm_id ≡ none)
        → (problem : Text) × ((handle_prompt b w m t).1.db.messages
            ≡ insert
                (prompt_id_of t).0
                (prompt_row (prompt_id_of t).0 t.session.id m.prompt)
                t.db.messages)
          × ((handle_prompt b w m t).1.host ≡ (prompt_id_of t).1)
          × ((handle_prompt b w m t).1.session
              ≡ enqueue
                  (record (blank_message (b.now (prompt_id_of t).1) (text "error")) {
                    error = problem;
                  })
                  (enqueue (acknowledgment (b.now (prompt_id_of t).1) (message_id_of t)) t.session))
    handle_prompt-refused h =
        let t' = accepted b (message_id_of t) m.prompt (b.new_id t.host).1 t in
        let refused = with_cmd_refused (message_id_of t) w.ai_assistant _ w.vm_id t' h in
        let run = handle_prompt-accepted b w m t calm free known ∙ refused.1 in
        (
          refused.0,
          ap (λ (r : (Unit {0}) × Talk W). r.1.db.messages) run,
          ap (λ (r : (Unit {0}) × Talk W). r.1.host) run,
          ap (λ (r : (Unit {0}) × Talk W). r.1.session) run,
        )
