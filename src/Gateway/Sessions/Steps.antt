-- ===== src/Gateway/Sessions/Steps.antt =====
-- What the gateway's goroutines and its callers can do to its sessions, in any order
-- (services/gateway/pkg/websocket/session.go).
use aetherium.Base.{◌<◌, ◌≡◌, Bool, true, false, Option, none, some, [], Text, lookup, insert}
use aetherium.Storage.{Workspace}
use aetherium.Storage.Db.{Db}
use aetherium.Gateway.Sessions.{SessionBackend, IncomingMessage, Session}
use aetherium.Gateway.Sessions.Manager.{
  Gateway, handle_session, receive, end_reading, close_session, write_message, stop_writing,
  go_on_closing, close_conn, record_end, delete_entry,
}

module _ {W : Type 0} where
  -- NewSessionManager.
  unfoldable pub new_gateway : Db → W → Gateway W
  new_gateway db w = record { db = db; host = w; objects = []; sessions = []; crashed = false }

  abbrev pub put : Text → Session → Gateway W → Gateway W
  put id o g = record g { objects = insert id o g.objects }

  -- A step other than a call of CloseSession: a request for a session under an id that is new, a frame
  -- that is read, a read that fails, a write, which succeeds only on a connection that is open, the end
  -- of writePump, and the actions of the cleanups that are under way, each on its own.
  pub data PumpStep (b : SessionBackend W) (g : Gateway W) : Gateway W → Type 0 where
    connect :
        (upgraded : Bool) (workspace_id client_ip : Text)
        → lookup (b.new_id g.host).0 g.objects ≡ none
        → PumpStep b g (handle_session b upgraded workspace_id client_ip g).1
    read_frame :
        (w : Workspace) (frame : Option IncomingMessage) (o : Session)
        → lookup o.id g.objects ≡ some o
        → o.reading ≡ true
        → PumpStep b g (receive b w frame o g)
    read_failure :
        (o : Session)
        → lookup o.id g.objects ≡ some o
        → o.reading ≡ true
        → PumpStep b g (end_reading o g)
    write :
        (sent : Bool) (o : Session)
        → lookup o.id g.objects ≡ some o
        → o.writing ≡ true
        → (sent ≡ true → o.connected ≡ true)
        → PumpStep b g (put o.id (write_message sent o) g)
    write_end :
        (o : Session)
        → lookup o.id g.objects ≡ some o
        → o.writing ≡ true
        → PumpStep b g (put o.id (stop_writing o) g)
    done_closes :
        (o : Session)
        → lookup o.id g.objects ≡ some o
        → 0 < o.at_done
        → PumpStep b g (go_on_closing o g)
    conn_closes :
        (o : Session)
        → lookup o.id g.objects ≡ some o
        → 0 < o.at_conn
        → PumpStep b g (close_conn o g)
    end_is_recorded :
        (o : Session)
        → lookup o.id g.objects ≡ some o
        → 0 < o.at_status
        → PumpStep b g (record_end b o g)
    entry_goes :
        (o : Session)
        → lookup o.id g.objects ≡ some o
        → 0 < o.at_entry
        → PumpStep b g (delete_entry o g)

  pub data Step (b : SessionBackend W) (g : Gateway W) : Gateway W → Type 0 where
    pump : {h : Gateway W} → PumpStep b g h → Step b g h
    close : (id : Text) → Step b g (close_session id g)

  -- What a run leads to; a program that has crashed takes no step.
  pub data Reach (b : SessionBackend W) (g : Gateway W) : Gateway W → Type 0 where
    here : Reach b g g
    next : {h k : Gateway W} → Reach b g h → h.crashed ≡ false → Step b h k → Reach b g k

  pub data PumpReach (b : SessionBackend W) (g : Gateway W) : Gateway W → Type 0 where
    here : PumpReach b g g
    next :
        {h k : Gateway W} → PumpReach b g h → h.crashed ≡ false → PumpStep b h k → PumpReach b g k

  pub Reach-trans :
      {b : SessionBackend W} {g h k : Gateway W} → Reach b g h → Reach b h k → Reach b g k
  Reach-trans r here = r
  Reach-trans r (next s c t) = next (Reach-trans r s) c t
