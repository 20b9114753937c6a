-- ===== src/Events/Spec.antt =====
-- What an event bus promises: each topic has a list of subscribers. A call is answered from the lists
-- alone (EventBus of libs/common/pkg/events).
use aetherium.Base.{
  ℕ, ◌+◌, Option, none, some, List, [], ◌∷◌, ◌++◌, map, if◌then◌else◌, length, Text, text_eq,
}
use aetherium.Events.{
  EventBus, Subscriber, Unsubscribed, removed, topic_not_found, subscription_not_found,
  new_subscriber, subscribe, unsubscribe, publish, get_subscriber_count, close_bus,
}

-- A call of the bus and its answer.
pub data Call (H : Type 0) : Type 0 where
  to_subscribe : Text → H → Call H
  to_unsubscribe : Text → Text → Call H
  to_publish to_count : Text → Call H
  to_close : Call H

pub data Answer (H : Type 0) : Type 0 where
  subscribed : Text → Answer H
  unsubscribed : Unsubscribed → Answer H
  started : List H → Answer H
  counted : ℕ → Answer H
  closed : Answer H

module _ {H : Type 0} where
  unfoldable pub step : (ℕ → ℕ) → Call H → EventBus H → Answer H × EventBus H
  step grown (to_subscribe topic handler) bus =
      let (id, bus1) = subscribe grown topic handler bus in (subscribed id, bus1)
  step grown (to_unsubscribe topic id) bus =
      let (answer, bus1) = unsubscribe topic id bus in (unsubscribed answer, bus1)
  step grown (to_publish topic) bus = (started (publish topic bus), bus)
  step grown (to_count topic) bus = (counted (get_subscriber_count topic bus), bus)
  step grown to_close bus = (closed, close_bus bus)

  -- The answers of a bus to calls that follow one another.
  unfoldable pub answers : (ℕ → ℕ) → List (Call H) → EventBus H → List (Answer H)
  unfolding step
  answers grown [] bus = []
  answers grown (c ∷ cs) bus =
      let (answer, bus1) = step grown c bus in answer ∷ answers grown cs bus1

-- The lists, and the number of subscriptions so far.
pub record Topics (H : Type 0) : Type 0 where
  pub table : Text → Option (List (Subscriber H))
  pub counter : ℕ

module _ {H : Type 0} where
  abbrev pub listed : Option (List (Subscriber H)) → List (Subscriber H)
  listed none = []
  listed (some xs) = xs

  abbrev pub handler_of : Subscriber H → H
  handler_of x = x.handler

  abbrev pub set_topic : Text → List (Subscriber H) → Topics H → Topics H
  set_topic topic xs s = record s { table = λ u. if text_eq topic u then some xs else s.table u }

  -- The list without the first subscriber of that id.
  unfoldable pub remove_first : Text → List (Subscriber H) → Option (List (Subscriber H))
  remove_first id [] = none
  remove_first id (x ∷ xs) =
      let rest : Option (List (Subscriber H)) = elim (remove_first id xs) [
        | none ↦ none
        | some ys ↦ some (x ∷ ys)
      ] in
      if text_eq x.id id then some xs else rest

  abbrev pub after_removal : Text → Option (List (Subscriber H)) → Topics H → Answer H × Topics H
  after_removal topic none s = (unsubscribed subscription_not_found, s)
  after_removal topic (some xs) s = (unsubscribed removed, set_topic topic xs s)

  abbrev pub without_subscriber :
      Text → Text → Option (List (Subscriber H)) → Topics H → Answer H × Topics H
  without_subscriber topic id none s = (unsubscribed topic_not_found, s)
  without_subscriber topic id (some xs) s = after_removal topic (remove_first id xs) s

  unfoldable pub spec_step : Call H → Topics H → Answer H × Topics H
  unfolding remove_first
  spec_step (to_subscribe topic handler) s =
      let x = new_subscriber (s.counter + 1) handler in
      (
        subscribed x.id,
        set_topic topic (listed (s.table topic) ++ x ∷ []) (record s { counter = s.counter + 1 }),
      )
  spec_step (to_unsubscribe topic id) s = without_subscriber topic id (s.table topic) s
  spec_step (to_publish topic) s = (started (map handler_of (listed (s.table topic))), s)
  spec_step (to_count topic) s = (counted (length (listed (s.table topic))), s)
  spec_step to_close s = (closed, record s { table = λ u. none })

  unfoldable pub spec_answers : List (Call H) → Topics H → List (Answer H)
  unfolding spec_step
  spec_answers [] s = []
  spec_answers (c ∷ cs) s = let (answer, s1) = spec_step c s in answer ∷ spec_answers cs s1

  abbrev pub no_topics : Topics H
  no_topics = record { table = λ u. none; counter = 0 }
