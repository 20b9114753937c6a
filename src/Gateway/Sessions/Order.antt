-- ===== src/Gateway/Sessions/Order.antt =====
-- How the messages of one session object go on: those written, those that wait and those added
-- (sendMessage and writePump of services/gateway/pkg/websocket/session.go).
use mathlib.Core.List.{append_assoc, append-nil}
use aetherium.Base.{
  ◌≡◌, refl, sym, ap, ◌∙◌, subst, if_ind, inl, inr, Bool, true, false, Option, none, some, List, [],
  ◌∷◌, ◌++◌, Text, text_eq, text_eq_iff, Map, lookup, insert, lookup-insert, Bool-cases,
}
use aetherium.Gateway.Sessions.{OutgoingMessage, Session}
use aetherium.Gateway.Sessions.Growth.{Grows}
use aetherium.Gateway.Sessions.Manager.{write_first}

-- A session before and after: what has been written and what waits, with what has been added, is what
-- has been written by then and a rest. The rest waits as long as writePump runs; once it has ended
-- nothing more is written. A `done` channel that is closed stays closed.
pub record Delivers (o o' : Session) : Type 0 where
  pub added : List OutgoingMessage
  pub rest : List OutgoingMessage
  pub order : (o.written ++ o.send) ++ added ≡ o'.written ++ rest
  pub waits : o'.writing ≡ true → rest ≡ o'.send
  pub ended : o.writing ≡ false → (o'.written ≡ o.written) × (o'.writing ≡ false)
  pub closed : o.done ≡ true → o'.done ≡ true

-- What is written and what waits stay as they are.
pub unmoved :
    (o o' : Session)
    → o'.written ≡ o.written
    → o'.send ≡ o.send
    → (o.writing ≡ false → o'.writing ≡ false)
    → (o.done ≡ true → o'.done ≡ true)
    → Delivers o o'
unmoved o o' p q f d = record {
  added = [];
  rest = o.send;
  order = append-nil (o.written ++ o.send) ∙ ap (λ (l : List OutgoingMessage). l ++ o.send) (sym p);
  waits = λ _. sym q;
  ended = λ e. (p, f e);
  closed = d;
}

pub Grows-Delivers : (o o' : Session) → Grows o o' → Delivers o o'
Grows-Delivers o o' g = record {
  added = g.added;
  rest = o'.send;
  order =
      append_assoc o.written o.send g.added
      ∙ ap (λ (x : Session). x.written ++ x.send) (sym g.same);
  waits = λ _. refl;
  ended = λ e. (ap (λ (x : Session). x.written) g.same, ap (λ (x : Session). x.writing) g.same ∙ e);
  closed = λ d. ap (λ (x : Session). x.done) g.same ∙ d;
}

-- A write takes the first message that waits; one that fails loses it and is the last.
pub write_first-Delivers :
    (sent : Bool) (l : List OutgoingMessage) (o : Session)
    → o.send ≡ l
    → o.writing ≡ true
    → Delivers o (write_first sent l o)
write_first-Delivers sent [] o e r = unmoved o o refl refl (λ d. d) (λ d. d)
write_first-Delivers true (m ∷ l) o e r = record {
  added = [];
  rest = l;
  order =
      append-nil (o.written ++ o.send)
      ∙ ap (λ (x : List OutgoingMessage). o.written ++ x) e
      ∙ sym (append_assoc o.written (m ∷ []) l);
  waits = λ _. refl;
  ended = λ d. cc;
  closed = λ d. d;
}
write_first-Delivers false (m ∷ l) o e r = record {
  added = [];
  rest = o.send;
  order = append-nil (o.written ++ o.send);
  waits = λ d. cc;
  ended = λ d. cc;
  closed = λ d. d;
}

Delivers-trans : (o o' o'' : Session) → Delivers o o' → Delivers o' o'' → Delivers o o''
Delivers-trans o o' o'' p q = elim (Bool-cases o'.writing) [
  | inl d ↦ record {
    added = p.added ++ q.added;
    rest = q.rest;
    order =
        sym (append_assoc (o.written ++ o.send) p.added q.added)
        ∙ ap (λ (l : List OutgoingMessage). l ++ q.added) p.order
        ∙ ap (λ (l : List OutgoingMessage). (o'.written ++ l) ++ q.added) (p.waits d)
        ∙ q.order;
    waits = q.waits;
    ended = λ e. let x = p.ended e in let y = q.ended x.1 in (y.0 ∙ x.0, y.1);
    closed = λ e. q.closed (p.closed e);
  }
  | inr d ↦ record {
    added = p.added;
    rest = p.rest;
    order = p.order ∙ ap (λ (l : List OutgoingMessage). l ++ p.rest) (sym (q.ended d).0);
    waits = λ e. let y = (q.ended d).1 in cc;
    ended = λ e. let x = p.ended e in let y = q.ended x.1 in (y.0 ∙ x.0, y.1);
    closed = λ e. q.closed (p.closed e);
  }
]

-- The objects under one id: a new one, or one that went on.
pub data Follows : Option Session → Option Session → Type 0 where
  fresh : (x : Option Session) → Follows none x
  goes_on : {o o' : Session} → Delivers o o' → Follows (some o) (some o')

pub Follows-refl : (x : Option Session) → Follows x x
Follows-refl none = fresh none
Follows-refl (some o) = goes_on (unmoved o o refl refl (λ d. d) (λ d. d))

pub Follows-trans : {x y z : Option Session} → Follows x y → Follows y z → Follows x z
Follows-trans (fresh y) q = fresh _
Follows-trans (goes_on p) (goes_on q) = goes_on (Delivers-trans _ _ _ p q)

abbrev pub AllFollow : Map Session → Map Session → Type 0
AllFollow m n = (k : Text) → Follows (lookup k m) (lookup k n)

pub insert-follows :
    (id : Text) (o : Session) (m : Map Session)
    → Follows (lookup id m) (some o)
    → AllFollow m (insert id o m)
insert-follows id o m f k = subst (Follows (lookup k m)) (sym (lookup-insert id k o m)) (
    if_ind (Follows (lookup k m)) (text_eq id k) (some o) (lookup k m)
      (λ t. subst (λ j. Follows (lookup j m) (some o)) ((text_eq_iff id k).0 t) f)
      (λ _. Follows-refl (lookup k m)))

pub insert-fresh :
    (id : Text) (o : Session) (m : Map Session) → lookup id m ≡ none → AllFollow m (insert id o m)
insert-fresh id o m e =
    insert-follows id o m (subst (λ x. Follows x (some o)) (sym e) (fresh (some o)))

pub insert-goes_on :
    (id : Text) (o o' : Session) (m : Map Session)
    → lookup id m ≡ some o
    → Delivers o o'
    → AllFollow m (insert id o' m)
insert-goes_on id o o' m e d =
    insert-follows id o' m (subst (λ x. Follows x (some o')) (sym e) (goes_on d))
