-- ===== src/Gateway/Sessions/Growth.antt =====
-- What the handling of a frame does to its session: messages are added behind those that wait.
use mathlib.Core.List.{append_assoc, append-nil}
use aetherium.Base.{
  ◌≤◌, ◌≡◌, refl, sym, ap, ◌∙◌, arith, Bool, true, false, ltb, Option, none, some, List, [], ◌∷◌,
  ◌++◌, length, length-append, if◌then◌else◌, Result, ok, err, Text, text, text_eq, Preserves,
  Preserves-if,
}
use aetherium.Storage.{Workspace}
use aetherium.Gateway.Sessions.{
  SessionBackend, IncomingMessage, OutgoingMessage, Session, Talk, enqueue, on_host, send_message,
  send_error, store_message, send_result, run_prompt, with_cmd, handle_prompt, send_pong, dispatch,
  update_activity, handle_frame,
}

-- The one session is the other with some messages more to send, and no more than fit.
pub record Grows (o s : Session) : Type 0 where
  pub added : List OutgoingMessage
  pub same : s ≡ record o { send = o.send ++ added }
  pub fits : length s.send ≤ 256

enqueue_grown :
    (m : OutgoingMessage) (o s : Session) (added : List OutgoingMessage)
    → s ≡ record o { send = o.send ++ added }
    → length s.send ≤ 256
    → (fits : Bool) → ltb (length s.send) 256 ≡ fits
    → Grows o (if fits then record s { send = s.send ++ m ∷ [] } else s)
enqueue_grown m o s added same fit true q = record {
  added = added ++ m ∷ [];
  same =
      ap (λ (x : Session). record x { send = x.send ++ m ∷ [] }) same
      ∙ ap (λ (l : List OutgoingMessage). record o { send = l })
          (append_assoc o.send added (m ∷ []));
  fits = ground (arith, length-append s.send (m ∷ []));
}
enqueue_grown m o s added same fit false q = record { added = added; same = same; fits = fit }

pub enqueue-Grows : (m : OutgoingMessage) (o s : Session) → Grows o s → Grows o (enqueue m s)
unfolding enqueue
enqueue-Grows m o s g = enqueue_grown m o s g.added g.same g.fits _ refl

pub Grows-refl : (o : Session) → length o.send ≤ 256 → Grows o o
Grows-refl o fit = record {
  added = [];
  same = ap (λ (l : List OutgoingMessage). record o { send = l }) (sym (append-nil o.send));
  fits = fit;
}

module _ {W : Type 0} (o : Session) where
  abbrev Growing : Talk W → Type 0
  Growing t = Grows o t.session

  send : (m : OutgoingMessage) → Preserves Growing (send_message m)
  unfolding send_message
  send m t g = enqueue-Grows m o t.session g

module _ {W : Type 0} (b : SessionBackend W) (o : Session) where
  error : (message : Text) → Preserves (Growing o) (send_error b message)
  unfolding send_error
  error message t g = send o _ t g

  result :
      (message_id : Text) (r : Result Text _) → Preserves (Growing o) (send_result b message_id r)
  unfolding send_result
  result message_id (err e) t g = send o _ t g
  result message_id (ok r) t g = send o _ t g

  run : (message_id vm_id cmd : Text) → Preserves (Growing o) (run_prompt b message_id vm_id cmd)
  unfolding run_prompt
  run message_id vm_id cmd t g =
      let done =
        on_host
          (b.execute_command vm_id (record { cmd = text "bash"; args = text "-c" ∷ cmd ∷ [] })) t in
      result message_id done.0 done.1 g

  cmd :
      (message_id assistant : Text) (c vm : Option Text)
      → Preserves (Growing o) (with_cmd b message_id assistant c vm)
  unfolding with_cmd
  cmd message_id assistant none vm = error _
  cmd message_id assistant (some c) none = error _
  cmd message_id assistant (some c) (some vm_id) = run message_id vm_id c

  prompt : (w : Workspace) (m : IncomingMessage) → Preserves (Growing o) (handle_prompt b w m)
  unfolding handle_prompt
  prompt w m t g =
      let named = on_host b.new_id (on_host b.new_id t).1 in
      let stored = store_message b named.0 (text "user_prompt") m.prompt none named.1 in
      cmd _ _ _ _ _ (send o _ stored.1 g)

  pong : Preserves (Growing o) (send_pong b)
  unfolding send_pong
  pong t g = send o _ t g

  dispatched : (w : Workspace) (m : IncomingMessage) → Preserves (Growing o) (dispatch b w m)
  unfolding dispatch
  dispatched w m =
      Preserves-if (Growing o) (text_eq m.message_type (text "ping")) _ _ pong (
        Preserves-if (Growing o) (text_eq m.message_type (text "prompt")) _ _ (prompt w m)
          (error _))

  -- A frame, whatever it holds, only adds messages behind those that wait, and never more than fit.
  pub handle_frame-Grows :
      (w : Workspace) (frame : Option IncomingMessage)
      → Preserves (λ t. Grows o t.session) (handle_frame b w frame)
  unfolding handle_frame update_activity
  handle_frame-Grows w none t g = error _ t g
  handle_frame-Grows w (some m) t g = dispatched w m t g
