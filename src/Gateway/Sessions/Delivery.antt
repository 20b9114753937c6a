-- ===== src/Gateway/Sessions/Delivery.antt =====
-- The order in which a client is sent the messages of its session
-- (sendMessage and writePump of services/gateway/pkg/websocket/session.go).
use aetherium.Base.{
  true, ℕ, ◌-◌, insert, ◌≡◌, refl, ap, ◌∙◌, subst, if_ind, not, Bool, false, Option, none, some,
  Result, ok, err, Text, text, text_eq, lookup,
}
use aetherium.Storage.{Workspace}
use aetherium.Storage.Db.{Db, DbError}
use aetherium.Gateway.Sessions.{SessionBackend, Session}
use aetherium.Gateway.Sessions.Growth.{Grows-refl, handle_frame-Grows}
use aetherium.Gateway.Sessions.Manager.{
  Gateway, Handled, register, record_session, open_session, handle_session, receive, get_session,
  close_done, close_conn, record_end, delete_entry, end_reading, begin_close, go_on_closing,
  close_session, write_message, stop_writing,
}
use aetherium.Gateway.Sessions.Runs.{new_gateway-Sound}
use aetherium.Gateway.Sessions.Objects.{found}
use aetherium.Gateway.Sessions.Soundness.{GatewayIsSound, session_there, Reach-Sound}
use aetherium.Gateway.Sessions.Steps.{
  new_gateway, PumpStep, connect, read_frame, read_failure, write, write_end, done_closes,
  conn_closes, end_is_recorded, entry_goes, Step, pump, close, Reach, here, next,
}
use aetherium.Gateway.Sessions.Order.{
  Delivers, unmoved, Grows-Delivers, write_first-Delivers, Follows, Follows-refl, Follows-trans,
  AllFollow, insert-fresh, insert-goes_on, goes_on,
}

module _ {W : Type 0} (b : SessionBackend W) where
  abbrev FollowsIn : Gateway W → Gateway W → Type 0
  FollowsIn g h = AllFollow g.objects h.objects

  FollowsIn-refl : (g : Gateway W) → FollowsIn g g
  FollowsIn-refl g k = Follows-refl (lookup k g.objects)

  register-follows :
      (problem : Option DbError) (id workspace_id name : Text) (now : ℕ) (g : Gateway W)
      → lookup id g.objects ≡ none
      → FollowsIn g (register problem id workspace_id name now g).1
  unfolding register
  register-follows (some e) id workspace_id name now g f = FollowsIn-refl g
  register-follows none id workspace_id name now g f = insert-fresh id _ g.objects f

  open_session-follows :
      (upgraded : Bool) (workspace_id client_ip : Text) (r : Result DbError Workspace)
      (g : Gateway W)
      → lookup (b.new_id g.host).0 g.objects ≡ none
      → FollowsIn g (open_session b upgraded workspace_id r client_ip g).1
  unfolding open_session record_session
  open_session-follows upgraded workspace_id client_ip (err e) g f = FollowsIn-refl g
  open_session-follows upgraded workspace_id client_ip (ok w) g f =
      if_ind (λ (r : Handled × Gateway W). FollowsIn g r.1) (not (text_eq w.status (text "ready")))
        _ _ (λ _. FollowsIn-refl g)
        (λ _.
          if_ind (λ (r : Handled × Gateway W). FollowsIn g r.1) (not upgraded) _ _
            (λ _. FollowsIn-refl g) (λ _. register-follows _ _ workspace_id w.name _ _ f))

  -- An object is replaced by one with the same messages.
  changed :
      (o o' : Session) (g : Gateway W)
      → lookup o.id g.objects ≡ some o
      → o'.written ≡ o.written
      → o'.send ≡ o.send
      → o'.writing ≡ o.writing
      → (o.done ≡ true → o'.done ≡ true)
      → AllFollow g.objects (insert o.id o' g.objects)
  changed o o' g e p q r d = insert-goes_on o.id o o' g.objects e (unmoved o o' p q (λ n. r ∙ n) d)

  close_done-follows :
      (o : Session) (reading : Bool) (waiting : ℕ) (g : Gateway W)
      → lookup o.id g.objects ≡ some o
      → FollowsIn g (close_done (record o { reading = reading; at_done = waiting }) g)
  unfolding close_done
  close_done-follows o reading waiting g e =
      if_ind (FollowsIn g) o.done _ _ (λ _. FollowsIn-refl g)
        (λ _. changed o _ g e refl refl refl (λ _. refl))

  begin_close-follows :
      (id : Text) (o : Option Session) (g : Gateway W)
      → get_session id g ≡ o
      → GatewayIsSound g
      → FollowsIn g (begin_close o g)
  unfolding begin_close
  begin_close-follows id none g e s = FollowsIn-refl g
  begin_close-follows id (some o) g e s =
      let there = session_there id g o s e in
      let own = (found g.objects g.sessions id o s there).own_id in
      changed o _ g (ap (λ k. lookup k g.objects) own ∙ there) refl refl refl (λ d. d)

  PumpStep-follows : {g h : Gateway W} → PumpStep b g h → GatewayIsSound g → FollowsIn g h
  unfolding handle_session receive write_message stop_writing end_reading go_on_closing close_conn
      record_end delete_entry
  PumpStep-follows (connect upgraded workspace_id client_ip f) s =
      open_session-follows upgraded workspace_id client_ip _ _ f
  PumpStep-follows {g} (read_frame w frame o e r) s =
      let fits = (found g.objects g.sessions o.id o s e).fits in
      let grown = handle_frame-Grows b o w frame _ (Grows-refl o fits) in
      insert-goes_on o.id o _ g.objects e (Grows-Delivers o _ grown)
  PumpStep-follows {g} (read_failure o e r) s = close_done-follows o false o.at_done g e
  PumpStep-follows {g} (write sent o e r c) s =
      insert-goes_on o.id o _ g.objects e (write_first-Delivers sent o.send o refl r)
  PumpStep-follows {g} (write_end o e r) s =
      insert-goes_on o.id o _ g.objects e (unmoved o _ refl refl (λ _. refl) (λ d. d))
  PumpStep-follows {g} (done_closes o e h) s = close_done-follows o o.reading (o.at_done - 1) g e
  PumpStep-follows {g} (conn_closes o e h) s = changed o _ g e refl refl refl (λ d. d)
  PumpStep-follows {g} (end_is_recorded o e h) s = changed o _ g e refl refl refl (λ d. d)
  PumpStep-follows {g} (entry_goes o e h) s = changed o _ g e refl refl refl (λ d. d)

  Step-follows : {g h : Gateway W} → Step b g h → GatewayIsSound g → FollowsIn g h
  unfolding close_session
  Step-follows (pump p) s = PumpStep-follows p s
  Step-follows {g} (close id) s = begin_close-follows id (get_session id g) g refl s

  Reach-follows : {g h : Gateway W} → GatewayIsSound g → Reach b g h → FollowsIn g h
  Reach-follows {g} s here k = Follows-refl (lookup k g.objects)
  Reach-follows s (next r c st) k =
      Follows-trans (Reach-follows s r k) (Step-follows st (Reach-Sound b s r) k)

  goes_on-inverted :
      (o : Session) (x : Option Session)
      → Follows (some o) x
      → (o' : Session) × (x ≡ some o') × Delivers o o'
  goes_on-inverted o none f = elim f [ ]
  goes_on-inverted o (some o') (goes_on d) = (o', refl, d)

  -- Between two states of a run from a new SessionManager, a session object stays, and what its client
  -- has been sent goes on with the messages that waited and with those added since, in their order:
  -- none is left out, as long as its writePump runs, and nothing is written once that has ended; and a `done`
  -- channel that is closed stays closed.
  pub Reach-Delivers :
      (db : Db) (w : W) {g h : Gateway W}
      → Reach b (new_gateway db w) g
      → Reach b g h
      → (k : Text) (o : Session) → lookup k g.objects ≡ some o
      → (o' : Session) × (lookup k h.objects ≡ some o') × Delivers o o'
  Reach-Delivers db w {g} {h} r r' k o e = goes_on-inverted o (lookup k h.objects) (
      subst (λ x. Follows x (lookup k h.objects)) e
        (Reach-follows (Reach-Sound b (new_gateway-Sound b db w) r) r' k))
