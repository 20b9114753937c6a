-- ===== src/Gateway/Sessions/Objects.antt =====
-- A session object and its entry in the map of SessionManager
-- (services/gateway/pkg/websocket/session.go).
use aetherium.Base.{
  ℕ, ◌+◌, ◌≤◌, ◌≡◌, refl, sym, ap, subst, inl, inr, arith, Bool, true, false, Option, none, some,
  List, [], ◌∷◌, ◌++◌, length, if◌then◌else◌, Text, text_eq, text_eq_iff, Map, lookup, insert,
  lookup-insert, Bool-cases,
}
use aetherium.Gateway.Sessions.{OutgoingMessage, Session}
use aetherium.Gateway.Sessions.Growth.{Grows}
use aetherium.Gateway.Sessions.Manager.{write_first}

-- The cleanups that have closed `done` and have not yet deleted the entry.
abbrev pub under_way : Session → ℕ
under_way o = o.at_conn + (o.at_status + o.at_entry)

-- A session object under an id, with what the map has under that id.
pub record IsSound (k : Text) (entry : Option Text) (o : Session) : Type 0 where
  pub own_id : o.id ≡ k
  pub own_entry : (ref : Text) → entry ≡ some ref → ref ≡ k
  pub fits : length o.send ≤ 256
  pub open_entry : o.done ≡ false → entry ≡ some k
  pub open_reads : o.done ≡ false → o.reading ≡ true
  pub open_calm : o.done ≡ false → under_way o ≡ 0
  pub done_entry : o.done ≡ true → under_way o ≡ 0 → entry ≡ none
  pub done_apart : o.done ≡ true → o.at_conn ≡ 0 → o.connected ≡ false

-- Every entry of the map points to the object of its id.
abbrev pub SoundAt : Text → Option Session → Option Text → Type 0
SoundAt k none entry = entry ≡ none
SoundAt k (some o) entry = IsSound k entry o

abbrev pub AllSound : Map Session → Map Text → Type 0
AllSound objects sessions = (k : Text) → SoundAt k (lookup k objects) (lookup k sessions)

pub same_key :
    {V : Type 0} (j k : Text) (m : Map V)
    → lookup k m ≡ (if text_eq j k then lookup j m else lookup k m)
same_key j k m = elim (Bool-cases (text_eq j k)) [
  | inl t ↦ rw t (ap (λ (i : Text). lookup i m) (sym ((text_eq_iff j k).0 t)))
  | inr t ↦ rw t refl
]

-- One object changes, and the entries change under its id alone.
pub replaced :
    (objects objects' : Map Session) (sessions sessions' : Map Text) (id : Text) (o : Session)
    (entry : Option Text)
    → AllSound objects sessions
    → ((k : Text) → lookup k objects' ≡ (if text_eq id k then some o else lookup k objects))
    → ((k : Text) → lookup k sessions' ≡ (if text_eq id k then entry else lookup k sessions))
    → IsSound id entry o
    → AllSound objects' sessions'
replaced objects objects' sessions sessions' id o entry s p q i k =
    elim (Bool-cases (text_eq id k)) [
      | inl t ↦ rw (p k, q k, t) (subst (λ j. IsSound j entry o) ((text_eq_iff id k).0 t) i)
      | inr t ↦ rw (p k, q k, t) (s k)
    ]

pub insert-AllSound :
    (objects : Map Session) (sessions : Map Text) (id : Text) (o : Session)
    → AllSound objects sessions
    → IsSound id (lookup id sessions) o
    → AllSound (insert id o objects) sessions
insert-AllSound objects sessions id o s i =
    replaced objects (insert id o objects) sessions sessions id o (lookup id sessions) s
      (λ k. lookup-insert id k o objects) (λ k. same_key id k sessions) i

pub found :
    (objects : Map Session) (sessions : Map Text) (k : Text) (o : Session)
    → AllSound objects sessions
    → lookup k objects ≡ some o
    → IsSound k (lookup k sessions) o
found objects sessions k o s e = subst (λ x. SoundAt k x (lookup k sessions)) e (s k)

entry_of :
    (id ref : Text) (x : Option Session)
    → SoundAt id x (some ref)
    → (o : Session) × (x ≡ some o) × (ref ≡ id)
entry_of id ref none s = cc
entry_of id ref (some o) s = (o, refl, s.own_entry ref refl)

-- What an entry of the map points to.
pub registered :
    (objects : Map Session) (sessions : Map Text) (id ref : Text)
    → AllSound objects sessions
    → lookup id sessions ≡ some ref
    → (o : Session) × (lookup id objects ≡ some o) × (ref ≡ id)
registered objects sessions id ref s e =
    entry_of id ref (lookup id objects) (subst (λ x. SoundAt id (lookup id objects) x) e (s id))

-- A session with other messages, which is no longer connected or is as before.
pub altered :
    (k : Text) (entry : Option Text) (o : Session) (send written : List OutgoingMessage)
    (connected writing : Bool)
    → IsSound k entry o
    → length send ≤ 256
    → (o.connected ≡ false → connected ≡ false)
    → IsSound k entry
        (record o { send = send; written = written; connected = connected; writing = writing })
altered k entry o send written connected writing i fit apart = record {
  own_id = i.own_id;
  own_entry = i.own_entry;
  fits = fit;
  open_entry = i.open_entry;
  open_reads = i.open_reads;
  open_calm = i.open_calm;
  done_entry = i.done_entry;
  done_apart = λ d z. apart (i.done_apart d z);
}

pub Grows-IsSound :
    (k : Text) (entry : Option Text) (o s : Session)
    → Grows o s
    → IsSound k entry o
    → IsSound k entry s
Grows-IsSound k entry o s g i = subst (IsSound k entry) (sym g.same) (
    altered k entry o (o.send ++ g.added) o.written o.connected o.writing i
      (omega (arith, ap (λ (x : Session). length x.send) g.same, g.fits)) (λ d. d))

pub write_first-IsSound :
    (sent : Bool) (l : List OutgoingMessage) (k : Text) (entry : Option Text) (o : Session)
    → o.send ≡ l
    → IsSound k entry o
    → IsSound k entry (write_first sent l o)
write_first-IsSound sent [] k entry o e i = i
write_first-IsSound true (m ∷ l) k entry o e i =
    altered k entry o l _ _ _ i (omega (arith, ap length e, i.fits)) (λ d. d)
write_first-IsSound false (m ∷ l) k entry o e i =
    altered k entry o l _ _ _ i (omega (arith, ap length e, i.fits)) (λ d. refl)
