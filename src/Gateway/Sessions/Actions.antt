-- ===== src/Gateway/Sessions/Actions.antt =====
-- The actions of a cleanup keep a session sound (cleanup of
-- services/gateway/pkg/websocket/session.go).
use aetherium.Base.{
  ℕ, ◌+◌, ◌-◌, ◌<◌, ◌≡◌, refl, inl, inr, arith, Bool, true, false, Option, none, Text, Bool-cases,
}
use aetherium.Gateway.Sessions.{Session}
use aetherium.Gateway.Sessions.Objects.{IsSound, under_way}

-- The actions of a cleanup on a session.
pub close_done-IsSound :
    (k : Text) (entry : Option Text) (o : Session) (reading : Bool) (waiting : ℕ)
    → IsSound k entry o
    → IsSound k entry
        (record o { done = true; reading = reading; at_done = waiting; at_conn = o.at_conn + 1 })
close_done-IsSound k entry o reading waiting i = record {
  own_id = i.own_id;
  own_entry = i.own_entry;
  fits = i.fits;
  open_entry = λ d. cc;
  open_reads = λ d. cc;
  open_calm = λ d. cc;
  done_entry = λ d z. absurd (omega arith);
  done_apart = λ d z. absurd (omega arith);
}

-- A cleanup that has closed `done` moves on where `done` is closed.
is_done :
    (k : Text) (entry : Option Text) (o : Session)
    → IsSound k entry o
    → 0 < under_way o
    → o.done ≡ true
is_done k entry o i h = elim (Bool-cases o.done) [
  | inl d ↦ d
  | inr d ↦ let calm = i.open_calm d in absurd (omega arith)
]

pub close_conn-IsSound :
    (k : Text) (entry : Option Text) (o : Session)
    → IsSound k entry o
    → 0 < o.at_conn
    → IsSound k entry
        (record o { connected = false; at_conn = o.at_conn - 1; at_status = o.at_status + 1 })
close_conn-IsSound k entry o i h =
    let d = is_done k entry o i (omega arith) in
    record {
      own_id = i.own_id;
      own_entry = i.own_entry;
      fits = i.fits;
      open_entry = λ n. cc;
      open_reads = λ n. cc;
      open_calm = λ n. cc;
      done_entry = λ _ z. absurd (omega arith);
      done_apart = λ _ z. refl;
    }

pub record_end-IsSound :
    (k : Text) (entry : Option Text) (o : Session)
    → IsSound k entry o
    → 0 < o.at_status
    → IsSound k entry (record o { at_status = o.at_status - 1; at_entry = o.at_entry + 1 })
record_end-IsSound k entry o i h =
    let d = is_done k entry o i (omega arith) in
    record {
      own_id = i.own_id;
      own_entry = i.own_entry;
      fits = i.fits;
      open_entry = λ n. cc;
      open_reads = λ n. cc;
      open_calm = λ n. cc;
      done_entry = λ _ z. absurd (omega arith);
      done_apart = i.done_apart;
    }

pub delete_entry-IsSound :
    (k : Text) (entry : Option Text) (o : Session)
    → IsSound k entry o
    → 0 < o.at_entry
    → IsSound k none (record o { at_entry = o.at_entry - 1 })
delete_entry-IsSound k entry o i h =
    let d = is_done k entry o i (omega arith) in
    record {
      own_id = i.own_id;
      own_entry = λ ref e. cc;
      fits = i.fits;
      open_entry = λ n. cc;
      open_reads = λ n. cc;
      open_calm = λ n. cc;
      done_entry = λ _ _. refl;
      done_apart = i.done_apart;
    }

-- One more CloseSession has found the session.
pub begin_close-IsSound :
    (k : Text) (entry : Option Text) (o : Session)
    → IsSound k entry o
    → IsSound k entry (record o { at_done = o.at_done + 1 })
begin_close-IsSound k entry o i = record {
  own_id = i.own_id;
  own_entry = i.own_entry;
  fits = i.fits;
  open_entry = i.open_entry;
  open_reads = i.open_reads;
  open_calm = i.open_calm;
  done_entry = i.done_entry;
  done_apart = i.done_apart;
}
