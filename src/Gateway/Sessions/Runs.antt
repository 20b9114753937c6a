-- ===== src/Gateway/Sessions/Runs.antt =====
-- Runs of the gateway from its start (services/gateway/pkg/websocket/session.go).
use aetherium.Base.{
  ◌∙◌, arith, ◌≡◌, refl, ap, subst, ℕ, Bool-cases, List, ◌∷◌, if_ind, not, inl, inr, text, Bool,
  true, false, Option, none, some, [], Text, text_eq, Map, lookup, insert, lookup-insert, Result,
  ok, err,
}
use aetherium.Storage.{Workspace}
use aetherium.Storage.Db.{Db, DbError}
use aetherium.Gateway.Sessions.{SessionBackend, Session, OutgoingMessage, handle_frame}
use aetherium.Gateway.Sessions.Growth.{Grows-refl, handle_frame-Grows}
use aetherium.Gateway.Sessions.Manager.{
  Gateway, Handled, register, record_session, open_session, handle_session, receive, close_done,
  close_conn, record_end, delete_entry, end_reading, write_message, write_first, stop_writing,
}
use aetherium.Gateway.Sessions.Objects.{IsSound, found}
use aetherium.Gateway.Sessions.Soundness.{GatewayIsSound, PumpStep-Sound, Reach-Sound}
use aetherium.Gateway.Sessions.Steps.{
  new_gateway, PumpStep, connect, read_frame, read_failure, write, write_end, done_closes,
  conn_closes, end_is_recorded, entry_goes, Reach, here, next, PumpReach,
}

module _ {W : Type 0} (b : SessionBackend W) where
  pub new_gateway-Sound : (db : Db) (w : W) → GatewayIsSound (new_gateway db w)
  unfolding new_gateway lookup
  new_gateway-Sound db w k = refl

  -- In every state that a run from a new SessionManager reaches, also between the actions of cleanups
  -- that are under way, each session object has at most 256 messages to send, and an entry under its id
  -- points to it. While its `done` channel is open it has its entry, its readPump runs, and no cleanup
  -- has got further than to be about to close `done`. Once `done` is closed, the entry is gone or a
  -- cleanup is still under way, and the connection is closed or a cleanup is about to close it.
  pub Reach-IsSound :
      (db : Db) (w : W) {h : Gateway W}
      → Reach b (new_gateway db w) h
      → (k : Text) (o : Session) → lookup k h.objects ≡ some o
      → IsSound k (lookup k h.sessions) o
  Reach-IsSound db w {h} r k o e =
      found h.objects h.sessions k o (Reach-Sound b (new_gateway-Sound db w) r) e

  -- No CloseSession is about to close the object's `done`, and it is not read once that is closed.
  abbrev Quietly : Session → Type 0
  Quietly o = (o.done ≡ true → o.reading ≡ false) × (o.at_done ≡ 0)

  abbrev Ended : Option Session → Type 0
  Ended none = Unit {0}
  Ended (some o) = Quietly o

  abbrev AllEnded : Map Session → Type 0
  AllEnded objects = (k : Text) → Ended (lookup k objects)

  -- The program runs, and all objects are quiet.
  abbrev Quiet : Gateway W → Type 0
  Quiet g = AllEnded g.objects × (g.crashed ≡ false)

  insert-AllEnded :
      (id : Text) (o : Session) (objects : Map Session)
      → AllEnded objects
      → Quietly o
      → AllEnded (insert id o objects)
  insert-AllEnded id o objects a f k =
      rw (lookup-insert id k o objects)
        (if_ind Ended (text_eq id k) (some o) (lookup k objects) (λ _. f) (λ _. a k))

  ended :
      (id : Text) (o : Session) (objects : Map Session)
      → AllEnded objects
      → lookup id objects ≡ some o
      → Quietly o
  ended id o objects a e = subst Ended e (a id)

  register-Quiet :
      (problem : Option DbError) (id workspace_id name : Text) (now : ℕ) (g : Gateway W)
      → Quiet g
      → Quiet (register problem id workspace_id name now g).1
  unfolding register
  register-Quiet (some e) id workspace_id name now g q = q
  register-Quiet none id workspace_id name now g q =
      (insert-AllEnded id _ g.objects q.0 ((λ d. cc), refl), q.1)

  open_session-Quiet :
      (upgraded : Bool) (workspace_id client_ip : Text) (r : Result DbError Workspace)
      (g : Gateway W)
      → Quiet g
      → Quiet (open_session b upgraded workspace_id r client_ip g).1
  unfolding open_session record_session
  open_session-Quiet upgraded workspace_id client_ip (err e) g q = q
  open_session-Quiet upgraded workspace_id client_ip (ok w) g q =
      if_ind (λ (r : Handled × Gateway W). Quiet r.1) (not (text_eq w.status (text "ready"))) _ _
        (λ _. q)
        (λ _.
          if_ind (λ (r : Handled × Gateway W). Quiet r.1) (not upgraded) _ _ (λ _. q)
            (λ _. register-Quiet _ _ workspace_id w.name _ _ q))

  end_reading-Quiet :
      (o : Session) (g : Gateway W)
      → o.done ≡ false
      → o.at_done ≡ 0
      → Quiet g
      → Quiet (end_reading o g)
  unfolding end_reading close_done
  end_reading-Quiet o g d z q =
      if_ind Quiet o.done _ _ (λ t. cc)
        (λ _. (insert-AllEnded o.id _ g.objects q.0 ((λ _. refl), z), q.1))

  write_first-ended :
      (sent : Bool) (l : List OutgoingMessage) (o : Session)
      → Quietly o
      → Quietly (write_first sent l o)
  write_first-ended sent [] o f = f
  write_first-ended true (m ∷ l) o f = f
  write_first-ended false (m ∷ l) o f = f

  not_done : (o : Session) → o.reading ≡ true → (o.done ≡ true → o.reading ≡ false) → o.done ≡ false
  not_done o r f = elim (Bool-cases o.done) [ inl d ↦ let apart = f d in cc | inr d ↦ d ]

  done_apart :
      (s o : Session) → s.done ≡ true → s.done ≡ o.done → o.done ≡ false → s.reading ≡ false
  done_apart s o d e f = cc

  PumpStep-Quiet : {g h : Gateway W} → PumpStep b g h → Quiet g → GatewayIsSound g → Quiet h
  unfolding handle_session receive write_message stop_writing close_conn record_end delete_entry
  PumpStep-Quiet (connect upgraded workspace_id client_ip fresh) q s =
      open_session-Quiet upgraded workspace_id client_ip _ _ q
  PumpStep-Quiet {g} (read_frame w frame o e r) q s =
      let i = found g.objects g.sessions o.id o s e in
      let grown = handle_frame-Grows b o w frame _ (Grows-refl o i.fits) in
      let quiet = ended o.id o g.objects q.0 e in
      let still = not_done o r quiet.0 in
      let after =
        (handle_frame b w frame (record { db = g.db; host = g.host; session = o })).1.session in
      (
        insert-AllEnded o.id after g.objects q.0 (
          λ d. done_apart after o d (ap (λ (x : Session). x.done) grown.same) still,
          ap (λ (x : Session). x.at_done) grown.same ∙ quiet.1,
        ),
        q.1,
      )
  PumpStep-Quiet {g} (read_failure o e r) q s =
      let quiet = ended o.id o g.objects q.0 e in
      end_reading-Quiet o g (not_done o r quiet.0) quiet.1 q
  PumpStep-Quiet {g} (write sent o e r c) q s = (
    insert-AllEnded o.id _ g.objects q.0
        (write_first-ended sent o.send o (ended o.id o g.objects q.0 e)),
    q.1,
  )
  PumpStep-Quiet {g} (write_end o e r) q s =
      (insert-AllEnded o.id _ g.objects q.0 (ended o.id o g.objects q.0 e), q.1)
  PumpStep-Quiet {g} (done_closes o e h) q s =
      let quiet = ended o.id o g.objects q.0 e in absurd (omega (arith, quiet.1))
  PumpStep-Quiet {g} (conn_closes o e h) q s =
      (insert-AllEnded o.id _ g.objects q.0 (ended o.id o g.objects q.0 e), q.1)
  PumpStep-Quiet {g} (end_is_recorded o e h) q s =
      (insert-AllEnded o.id _ g.objects q.0 (ended o.id o g.objects q.0 e), q.1)
  PumpStep-Quiet {g} (entry_goes o e h) q s =
      (insert-AllEnded o.id _ g.objects q.0 (ended o.id o g.objects q.0 e), q.1)

  PumpReach-Quiet :
      (db : Db) (w : W) {h : Gateway W}
      → PumpReach b (new_gateway db w) h
      → Quiet h × GatewayIsSound h
  unfolding new_gateway lookup
  PumpReach-Quiet db w here = (((λ k. tt), refl), λ k. refl)
  PumpReach-Quiet db w (next r c st) =
      let q = PumpReach-Quiet db w r in (PumpStep-Quiet st q.0 q.1, PumpStep-Sound b st q.1)

  -- A run from a new SessionManager in which CloseSession is never called does not crash: no readPump
  -- closes a `done` channel that is closed.
  pub PumpReach-runs :
      (db : Db) (w : W) {h : Gateway W} → PumpReach b (new_gateway db w) h → h.crashed ≡ false
  PumpReach-runs db w r = (PumpReach-Quiet db w r).0.1
