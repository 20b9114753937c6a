-- ===== src/Gateway/Sessions/Draining.antt =====
-- What waits for a client can be sent (writePump of services/gateway/pkg/websocket/session.go).
use mathlib.Core.List.{append_assoc, append-nil}
use aetherium.Base.{
  ◌≡◌, refl, sym, ap, ◌∙◌, subst, true, false, some, List, [], ◌∷◌, ◌++◌, Text, lookup,
  lookup-insert_self,
}
use aetherium.Storage.Db.{Db}
use aetherium.Gateway.Sessions.{SessionBackend, OutgoingMessage, Session}
use aetherium.Gateway.Sessions.Manager.{Gateway, write_first, write_message}
use aetherium.Gateway.Sessions.Runs.{Reach-IsSound}
use aetherium.Gateway.Sessions.Steps.{new_gateway, put, write, Step, pump, Reach, here, next}

module _ {W : Type 0} (b : SessionBackend W) where
  step_first : {g h k : Gateway W} → g.crashed ≡ false → Step b g h → Reach b h k → Reach b g k
  step_first c s here = next here c s
  step_first c s (next r d t) = next (step_first c s r) d t

  -- A state that is reached, in which nothing waits for the client.
  pub record Drained (g : Gateway W) (k : Text) (o : Session) : Type 0 where
    pub after : Gateway W
    pub reached : Reach b g after
    pub session : Session
    pub there : lookup k after.objects ≡ some session
    pub empty : session.send ≡ []
    pub sent : session.written ≡ o.written ++ o.send
    pub runs : after.crashed ≡ false

  drain :
      (l : List OutgoingMessage) (g : Gateway W) (o : Session)
      → o.send ≡ l
      → lookup o.id g.objects ≡ some o
      → o.writing ≡ true
      → o.connected ≡ true
      → g.crashed ≡ false
      → Drained g o.id o
  unfolding write_message
  drain [] g o e f r live c = record {
    after = g;
    reached = here;
    session = o;
    there = f;
    empty = e;
    sent = sym (append-nil o.written) ∙ ap (λ (x : List OutgoingMessage). o.written ++ x) (sym e);
    runs = c;
  }
  drain (m ∷ l) g o e f r live c =
      let o' = record o { send = l; written = o.written ++ m ∷ [] } in
      let h = put o.id (write_message true o) g in
      let put_there =
        lookup-insert_self o.id (write_message true o) g.objects
        ∙ ap (λ (x : List OutgoingMessage). some (write_first true x o)) e in
      let rest = drain l h o' refl put_there r live c in
      record {
        after = rest.after;
        reached = step_first c (pump (write true o f r (λ _. live))) rest.reached;
        session = rest.session;
        there = rest.there;
        empty = rest.empty;
        sent =
            rest.sent
            ∙ append_assoc o.written (m ∷ []) l
            ∙ ap (λ (x : List OutgoingMessage). o.written ++ x) (sym e);
        runs = rest.runs;
      }

  -- From every state of a run from a new SessionManager that has not crashed, a session whose writePump
  -- runs and whose connection is open can get to a state in which nothing waits for its client, which
  -- has been sent all that waited, in its order.
  pub Reach-Drained :
      (db : Db) (w : W) {g : Gateway W}
      → Reach b (new_gateway db w) g
      → g.crashed ≡ false
      → (k : Text) (o : Session) → lookup k g.objects ≡ some o
      → o.writing ≡ true
      → o.connected ≡ true
      → Drained g k o
  Reach-Drained db w {g} r c k o e p live =
      let own = (Reach-IsSound b db w r k o e).own_id in
      subst (λ i. Drained g i o) own
        (drain o.send g o refl (ap (λ i. lookup i g.objects) own ∙ e) p live c)
