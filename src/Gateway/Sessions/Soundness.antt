-- ===== src/Gateway/Sessions/Soundness.antt =====
-- The session objects and the map of SessionManager, through every run.
use aetherium.Base.{
  ℕ, ◌-◌, ◌<◌, ap, ◌∙◌, ◌≡◌, refl, sym, subst, if_ind, not, text, arith, Bool, false, Option, none,
  some, Result, ok, err, Text, text_eq, Map, lookup, lookup-insert, lookup-delete,
}
use aetherium.Storage.{Workspace}
use aetherium.Storage.Db.{DbError}
use aetherium.Gateway.Sessions.{SessionBackend, Session, enqueue}
use aetherium.Gateway.Sessions.Growth.{Grows-refl, handle_frame-Grows}
use aetherium.Gateway.Sessions.Manager.{
  Gateway, Handled, new_session, welcome, record_session, open_session, handle_session, receive,
  register, object, get_session, close_done, close_conn, record_end, delete_entry, end_reading,
  begin_close, go_on_closing, close_session, write_message, stop_writing,
}
use aetherium.Gateway.Sessions.Steps.{
  PumpStep, connect, read_frame, read_failure, write, write_end, done_closes, conn_closes,
  end_is_recorded, entry_goes, Step, pump, close, Reach, here, next,
}
use aetherium.Gateway.Sessions.Objects.{
  IsSound, AllSound, replaced, insert-AllSound, found, registered, altered, Grows-IsSound,
  write_first-IsSound,
}
use aetherium.Gateway.Sessions.Actions.{
  close_done-IsSound, close_conn-IsSound, record_end-IsSound, delete_entry-IsSound,
  begin_close-IsSound,
}

module _ {W : Type 0} where
  abbrev pub GatewayIsSound : Gateway W → Type 0
  GatewayIsSound g = AllSound g.objects g.sessions

object_there :
    (entry : Option Text) (objects : Map Session) (o : Session)
    → object objects entry ≡ some o
    → (k : Text) × (entry ≡ some k) × (lookup k objects ≡ some o)
object_there none objects o e = cc
object_there (some k) objects o e = (k, refl, e)

module _ {W : Type 0} where
  -- What GetSession returns is the object under that id.
  pub session_there :
      (id : Text) (g : Gateway W) (o : Session)
      → GatewayIsSound g
      → get_session id g ≡ some o
      → lookup id g.objects ≡ some o
  unfolding get_session
  session_there id g o s e =
      let (ref, h, there) = object_there (lookup id g.sessions) g.objects o e in
      let (x, f, same) = registered g.objects g.sessions id ref s h in
      ap (λ k. lookup k g.objects) (sym same) ∙ there

module _ {W : Type 0} (b : SessionBackend W) where
  welcomed :
      (id workspace_id name : Text) (now : ℕ)
      → IsSound id (some id) (enqueue (welcome now id name) (new_session id workspace_id))
  unfolding enqueue welcome new_session
  welcomed id workspace_id name now = record {
    own_id = refl;
    fits = omega arith;
    own_entry = λ ref e. ground (arith, e);
    open_entry = λ d. refl;
    open_reads = λ d. refl;
    open_calm = λ d. refl;
    done_entry = λ d z. cc;
    done_apart = λ d z. cc;
  }

  register-Sound :
      (problem : Option DbError) (id workspace_id name : Text) (now : ℕ) (g : Gateway W)
      → GatewayIsSound g
      → GatewayIsSound (register problem id workspace_id name now g).1
  unfolding register
  register-Sound (some e) id workspace_id name now g s = s
  register-Sound none id workspace_id name now g s =
      replaced g.objects _ g.sessions _ id _ (some id) s (λ k. lookup-insert id k _ g.objects)
        (λ k. lookup-insert id k id g.sessions) (welcomed id workspace_id name now)

  open_session-Sound :
      (upgraded : Bool) (workspace_id client_ip : Text) (r : Result DbError Workspace)
      (g : Gateway W)
      → GatewayIsSound g
      → GatewayIsSound (open_session b upgraded workspace_id r client_ip g).1
  unfolding open_session record_session
  open_session-Sound upgraded workspace_id client_ip (err e) g s = s
  open_session-Sound upgraded workspace_id client_ip (ok w) g s =
      if_ind (λ (r : Handled × Gateway W). GatewayIsSound r.1)
        (not (text_eq w.status (text "ready"))) _ _ (λ _. s)
        (λ _.
          if_ind (λ (r : Handled × Gateway W). GatewayIsSound r.1) (not upgraded) _ _ (λ _. s)
            (λ _. register-Sound _ _ workspace_id w.name _ _ s))

  close_done-Sound :
      (o : Session) (reading : Bool) (waiting : ℕ) (g : Gateway W)
      → lookup o.id g.objects ≡ some o
      → GatewayIsSound g
      → GatewayIsSound (close_done (record o { reading = reading; at_done = waiting }) g)
  unfolding close_done
  close_done-Sound o reading waiting g e s =
      if_ind GatewayIsSound o.done _ _ (λ _. s)
        (λ _.
          insert-AllSound g.objects g.sessions o.id _ s
            (close_done-IsSound o.id _ o reading waiting (found g.objects g.sessions o.id o s e)))

  delete_entry-Sound :
      (o : Session) (g : Gateway W)
      → lookup o.id g.objects ≡ some o
      → 0 < o.at_entry
      → GatewayIsSound g
      → GatewayIsSound (delete_entry o g)
  unfolding delete_entry
  delete_entry-Sound o g e h s =
      replaced g.objects _ g.sessions _ o.id _ none s (λ k. lookup-insert o.id k _ g.objects)
        (λ k. lookup-delete o.id k g.sessions)
        (delete_entry-IsSound o.id _ o (found g.objects g.sessions o.id o s e) h)

  begin_close-Sound :
      (o : Option Session) (id : Text) (g : Gateway W)
      → get_session id g ≡ o
      → GatewayIsSound g
      → GatewayIsSound (begin_close o g)
  unfolding begin_close
  begin_close-Sound none id g e s = s
  begin_close-Sound (some o) id g e s =
      let i = found g.objects g.sessions id o s (session_there id g o s e) in
      insert-AllSound g.objects g.sessions o.id _ s (
        begin_close-IsSound o.id _ o
          (subst (λ k. IsSound k (lookup k g.sessions) o) (sym i.own_id) i))

  pub PumpStep-Sound : {g h : Gateway W} → PumpStep b g h → GatewayIsSound g → GatewayIsSound h
  unfolding handle_session receive write_message stop_writing end_reading go_on_closing close_conn
      record_end
  PumpStep-Sound (connect upgraded workspace_id client_ip fresh) s =
      open_session-Sound upgraded workspace_id client_ip _ _ s
  PumpStep-Sound {g} (read_frame w frame o e r) s =
      let i = found g.objects g.sessions o.id o s e in
      insert-AllSound g.objects g.sessions o.id _ s
        (Grows-IsSound o.id _ o _ (handle_frame-Grows b o w frame _ (Grows-refl o i.fits)) i)
  PumpStep-Sound {g} (read_failure o e r) s = close_done-Sound o false o.at_done g e s
  PumpStep-Sound {g} (write sent o e r c) s =
      insert-AllSound g.objects g.sessions o.id _ s
        (write_first-IsSound sent o.send o.id _ o refl (found g.objects g.sessions o.id o s e))
  PumpStep-Sound {g} (write_end o e r) s =
      let i = found g.objects g.sessions o.id o s e in
      insert-AllSound g.objects g.sessions o.id _ s
        (altered o.id _ o o.send o.written false false i i.fits (λ _. refl))
  PumpStep-Sound {g} (done_closes o e h) s = close_done-Sound o o.reading (o.at_done - 1) g e s
  PumpStep-Sound {g} (conn_closes o e h) s =
      insert-AllSound g.objects g.sessions o.id _ s
        (close_conn-IsSound o.id _ o (found g.objects g.sessions o.id o s e) h)
  PumpStep-Sound {g} (end_is_recorded o e h) s =
      insert-AllSound g.objects g.sessions o.id _ s
        (record_end-IsSound o.id _ o (found g.objects g.sessions o.id o s e) h)
  PumpStep-Sound {g} (entry_goes o e h) s = delete_entry-Sound o g e h s

  pub Step-Sound : {g h : Gateway W} → Step b g h → GatewayIsSound g → GatewayIsSound h
  unfolding close_session
  Step-Sound (pump p) s = PumpStep-Sound p s
  Step-Sound {g} (close id) s = begin_close-Sound (get_session id g) id g refl s

  pub Reach-Sound : {g h : Gateway W} → GatewayIsSound g → Reach b g h → GatewayIsSound h
  Reach-Sound s here = s
  Reach-Sound s (next r c st) = Step-Sound st (Reach-Sound s r)
