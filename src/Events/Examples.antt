-- ===== src/Events/Examples.antt =====
-- An event bus with three subscribers, whose handlers are numbers.
use aetherium.Base.{
  ℕ, ◌*◌, ◌-◌, ◌≤◌, ◌≡◌, refl, arith, some, List, [], ◌∷◌, ◌++◌, map, length, Text, text, text_eq,
  lookup, insert, itoa,
}
use aetherium.Events.{
  EventBus, Slice, Subscriber, elements, new_event_bus, publish_rounds, subscribe, unsubscribe,
}
use aetherium.Events.Refinement.{answers-spec_answers}
use aetherium.Events.Shifting.{publish_rounds-unsubscribe}
use aetherium.Events.Spec.{
  Call, answers, handler_of, no_topics, spec_answers, to_count, to_publish, to_subscribe,
  to_unsubscribe,
}

abbrev doubled : ℕ → ℕ
doubled n = n * 2

abbrev calls : List (Call ℕ)
calls =
    to_subscribe (text "vm") 10
    ∷ to_subscribe (text "vm") 20
    ∷ to_unsubscribe (text "vm") (text "sub-1")
    ∷ to_publish (text "vm")
    ∷ to_count (text "task")
    ∷ []

answers-spec_answers_example : answers doubled calls new_event_bus ≡ spec_answers calls no_topics
answers-spec_answers_example = answers-spec_answers doubled calls

abbrev three : EventBus ℕ
three =
    (subscribe doubled (text "vm") 30
      (subscribe doubled (text "vm") 20 (subscribe doubled (text "vm") 10 new_event_bus).1).1).1

abbrev subscriber : Text → ℕ → Subscriber ℕ
subscriber id handler = record { id = id; handler = handler }

abbrev slice : Slice
slice = record { address = 1; len = 3 }

three-slice : lookup (text "vm") three.subscribers ≡ some slice
unfolding subscribe new_event_bus lookup insert text_eq
three-slice = refl

three-shown :
    elements three slice
    ≡ subscriber (text "sub-1") 10
      ∷ subscriber (text "sub-2") 20
      ∷ subscriber (text "sub-3") 30
      ∷ []
unfolding subscribe new_event_bus lookup insert text_eq elements itoa
three-shown = refl

three-within : slice.len ≤ length (three.arrays slice.address).cells
unfolding subscribe new_event_bus lookup insert text_eq elements itoa
three-within = omega arith

publish_rounds-unsubscribe_example :
    (publish_rounds slice 0 1 three
        ++ publish_rounds slice 1 (slice.len - 1) (unsubscribe (text "vm") (text "sub-1") three).1
      ≡ 10 ∷ map handler_of (subscriber (text "sub-3") 30 ∷ subscriber (text "sub-3") 30 ∷ []))
    × ((s' : Slice) × (lookup
            (text "vm")
            (unsubscribe (text "vm") (text "sub-1") three).1.subscribers
          ≡ some s')
        × (elements (unsubscribe (text "vm") (text "sub-1") three).1 s'
            ≡ subscriber (text "sub-2") 20 ∷ subscriber (text "sub-3") 30 ∷ []))
publish_rounds-unsubscribe_example =
    publish_rounds-unsubscribe (text "vm") three slice (subscriber (text "sub-1") 10)
      (subscriber (text "sub-2") 20) (subscriber (text "sub-3") 30 ∷ [])
      (subscriber (text "sub-2") 20 ∷ []) (subscriber (text "sub-3") 30) three-slice three-within
      three-shown refl
