-- ===== src/Gateway/Sessions/Closing.antt =====
-- What CloseSession does to a session that is read (services/gateway/pkg/websocket/session.go).
use aetherium.Base.{
  ◌+◌, ◌-◌, ◌≡◌, subst, ◌<◌, false, refl, sym, ap, ◌∙◌, if_ind, arith, true, none, some, Text,
  lookup, insert, lookup-insert_self, lookup-delete, text_eq_refl,
}
use aetherium.Storage.Db.{Db}
use aetherium.Gateway.Sessions.{SessionBackend, Session}
use aetherium.Gateway.Sessions.Manager.{
  Gateway, get_session, close_done, close_conn, record_end, delete_entry, end_reading, begin_close,
  go_on_closing, close_session,
}
use aetherium.Gateway.Sessions.Delivery.{Reach-Delivers}
use aetherium.Gateway.Sessions.Objects.{found}
use aetherium.Gateway.Sessions.Soundness.{session_there, Reach-Sound}
use aetherium.Gateway.Sessions.Steps.{
  Reach-trans, new_gateway, Reach, PumpStep, here, next, pump, done_closes, conn_closes,
  end_is_recorded, entry_goes, read_failure,
}
use aetherium.Gateway.Sessions.Runs.{new_gateway-Sound}

module _ {W : Type 0} (b : SessionBackend W) where
  -- A state that is reached from `g` after a cleanup of the session under an id: the entry is gone, the
  -- connection is closed, readPump runs, and its return is a step that crashes.
  pub record ClosesTwice (g : Gateway W) (id : Text) : Type 0 where
    pub after : Gateway W
    pub session : Session
    pub reached : Reach b g after
    pub calm : after.crashed ≡ false
    pub there : lookup id after.objects ≡ some session
    pub closed : session.done ≡ true
    pub gone : lookup id after.sessions ≡ none
    pub apart : session.connected ≡ false
    pub still_read : session.reading ≡ true
    pub returns : PumpStep b after (end_reading session after)
    pub panics : (end_reading session after).crashed ≡ true

  end_reading-done :
      (o : Session) (g : Gateway W) → o.done ≡ true → (end_reading o g).crashed ≡ true
  unfolding end_reading close_done
  end_reading-done o g d =
      if_ind (λ (h : Gateway W). h.crashed ≡ true) o.done _ _ (λ _. refl) (λ n. cc)

  go_on_closing-open :
      (o : Session) (g : Gateway W)
      → o.done ≡ false
      → go_on_closing o g ≡ record g {
        objects =
            insert o.id
              (record o { done = true; at_done = o.at_done - 1; at_conn = o.at_conn + 1 })
              g.objects;
      }
  unfolding go_on_closing close_done
  go_on_closing-open o g d = rw d refl

  -- The cleanup that a CloseSession is about to begin, with no other step in between.
  cleaned :
      (o : Session) (g : Gateway W)
      → lookup o.id g.objects ≡ some o
      → 0 < o.at_done
      → o.done ≡ false
      → o.reading ≡ true
      → g.crashed ≡ false
      → ClosesTwice g o.id
  unfolding close_conn record_end delete_entry
  cleaned o g e h d r c =
      let o1 = record o { done = true; at_done = o.at_done - 1; at_conn = o.at_conn + 1 } in
      let g1 : Gateway W = record g { objects = insert o.id o1 g.objects } in
      let self1 = lookup-insert_self o.id o1 g.objects in
      let o2 = record o1 {
        connected = false;
        at_conn = o1.at_conn - 1;
        at_status = o.at_status + 1;
      } in
      let g2 = close_conn o1 g1 in
      let self2 = lookup-insert_self o.id o2 g1.objects in
      let o3 = record o2 { at_status = o2.at_status - 1; at_entry = o.at_entry + 1 } in
      let g3 = record_end b o2 g2 in
      let self3 = lookup-insert_self o.id o3 g2.objects in
      let o4 = record o3 { at_entry = o3.at_entry - 1 } in
      let g4 = delete_entry o3 g3 in
      let self4 = lookup-insert_self o.id o4 g3.objects in
      let first : PumpStep b g g1 =
        subst (PumpStep b g) (go_on_closing-open o g d) (done_closes o e h) in
      let second : PumpStep b g1 g2 = conn_closes o1 self1 (omega arith) in
      let third : PumpStep b g2 g3 = end_is_recorded o2 self2 (omega arith) in
      let fourth : PumpStep b g3 g4 = entry_goes o3 self3 (omega arith) in
      record {
        after = g4;
        session = o4;
        reached =
            next (next (next (next here c (pump first)) c (pump second)) c (pump third)) c
              (pump fourth);
        calm = c;
        there = self4;
        closed = refl;
        gone = lookup-delete o.id o.id g.sessions ∙ rw (text_eq_refl o.id) refl;
        apart = refl;
        still_read = r;
        returns = read_failure o4 self4 r;
        panics = end_reading-done o4 g4 refl;
      }

  -- CloseSession of a session whose `done` is open, at any point of a run from a new SessionManager, can
  -- go through its whole cleanup: it then has closed the connection and deleted the entry, while readPump
  -- still runs; and when that returns, its deferred cleanup closes `done` again: the program panics.
  pub end_reading-close_session :
      (db : Db) (w : W) {g : Gateway W}
      → Reach b (new_gateway db w) g
      → g.crashed ≡ false
      → (id : Text) (o : Session) → get_session id g ≡ some o
      → o.done ≡ false
      → ClosesTwice (close_session id g) id
  unfolding close_session begin_close
  end_reading-close_session db w {g} r c id o e d =
      let s = Reach-Sound b (new_gateway-Sound b db w) r in
      let i = found g.objects g.sessions id o s (session_there id g o s e) in
      let o' = record o { at_done = o.at_done + 1 } in
      let g' : Gateway W = record g { objects = insert o.id o' g.objects } in
      let run =
        cleaned o' g' (lookup-insert_self o.id o' g.objects) (omega arith) d (i.open_reads d) c in
      subst (λ k. ClosesTwice (close_session id g) k) i.own_id
        (subst (λ h. ClosesTwice h o.id) (sym (ap (λ x. begin_close x g) e)) run)

  -- Once `done` of a session is closed, whatever steps a run from a new SessionManager goes on with, the
  -- return of its readPump, as long as that still runs, is a step that panics.
  pub end_reading-crashed :
      (db : Db) (w : W) {g h : Gateway W}
      → Reach b (new_gateway db w) g
      → Reach b g h
      → (k : Text) (o o' : Session) → lookup k g.objects ≡ some o
      → o.done ≡ true
      → lookup k h.objects ≡ some o'
      → o'.reading ≡ true
      → PumpStep b h (end_reading o' h) × ((end_reading o' h).crashed ≡ true)
  end_reading-crashed db w {g} {h} r r' k o o' e d e' reads =
      let (x, there, goes_on) = Reach-Delivers b db w r r' k o e in
      let same : some x ≡ some o' = sym there ∙ e' in
      let closed : o'.done ≡ true = let now = goes_on.closed d in cc in
      let s = Reach-Sound b (new_gateway-Sound b db w) (Reach-trans r r') in
      let i = found h.objects h.sessions k o' s e' in
      (
        read_failure o' (ap (λ j. lookup j h.objects) i.own_id ∙ e') reads,
        end_reading-done o' h closed,
      )
