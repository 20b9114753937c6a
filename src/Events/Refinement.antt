-- ===== src/Events/Refinement.antt =====
-- The event bus answers every sequence of calls as the lists of its specification do
-- (libs/common/pkg/events/memory/memory.go).
use aetherium.Base.{
  ℕ, suc, ◌+◌, ◌≡◌, refl, sym, ap, ◌∙◌, subst, arith, Option, none, some, List, [], ◌∷◌, ◌++◌, map,
  take, drop, length, Text, lookup,
}
use aetherium.Events.{
  EventBus, Slice, Subscriber, elements, new_event_bus, new_subscriber, append_to, subscribe,
  index_of, remove_found, unsubscribe_from, unsubscribe, publish_to, publish, close_bus,
  get_subscriber_count, slice_len,
}
use aetherium.Events.Simulation.{Simulates, view}
use aetherium.Events.Slices.{handlers_from-drop, length-take, remove_first-index_of, index_of-lt}
use aetherium.Events.Spec.{
  Call, to_subscribe, to_unsubscribe, to_publish, to_count, to_close, Answer, Topics, listed,
  set_topic, after_removal, without_subscriber, spec_step, spec_answers, no_topics, step, answers,
  handler_of, subscribed, unsubscribed, started, counted,
}
use aetherium.Events.Writes.{shown, append_to-Simulates, remove_at-Simulates}

module _ {H : Type 0} where
  -- A call is answered alike, and leads to states that agree again.
  abbrev Agrees : Answer H × EventBus H → Answer H × Topics H → Type 0
  Agrees r q = (r.0 ≡ q.0) × Simulates r.1 q.1

  subscribe-Agrees :
      (grown : ℕ → ℕ) (t : Text) (handler : H) (bus : EventBus H) (s : Topics H)
      → Simulates bus s
      → Agrees (step grown (to_subscribe t handler) bus) (spec_step (to_subscribe t handler) s)
  unfolding step spec_step subscribe
  subscribe-Agrees grown t handler bus s sim =
      let o = lookup t bus.subscribers in
      let x = new_subscriber (bus.id_counter + 1) handler in
      let sim' = append_to-Simulates grown bus s t o x (bus.id_counter + 1) sim refl in
      subst
        (λ c.
          Agrees
            (
              subscribed x.id,
              append_to grown t o x (record bus { id_counter = bus.id_counter + 1 }),
            )
            (
              subscribed (new_subscriber (c + 1) handler).id,
              set_topic t (listed (s.table t) ++ new_subscriber (c + 1) handler ∷ [])
                  (record s { counter = c + 1 }),
            ))
        sim.counter
        (
          refl,
          subst
              (λ l.
                Simulates (append_to grown t o x (record bus { id_counter = bus.id_counter + 1 }))
                  (set_topic t (listed l ++ x ∷ []) (record s { counter = bus.id_counter + 1 })))
              (sym (shown bus s t o sim refl)) sim',
        )

  same_counter :
      (bus : EventBus H) (b : EventBus H) (s : Topics H) (t : Text) (xs : List (Subscriber H))
      → bus.id_counter ≡ s.counter
      → Simulates b (set_topic t xs (record s { counter = bus.id_counter }))
      → Simulates b (set_topic t xs s)
  same_counter bus b s t xs e sim =
      subst (λ c. Simulates b (set_topic t xs (record s { counter = c }))) e sim

  remove_found-Agrees :
      (bus : EventBus H) (s : Topics H) (t : Text) (sl : Slice) (i : Option ℕ) (id : Text)
      → Simulates bus s
      → lookup t bus.subscribers ≡ some sl
      → index_of id (elements bus sl) ≡ i
      → Agrees
          (unsubscribed (remove_found t sl i bus).0, (remove_found t sl i bus).1)
          (after_removal t
            (elim i [
              | none ↦ none
              | some k ↦ some (take k (elements bus sl) ++ drop (suc k) (elements bus sl))
            ])
            s)
  unfolding remove_found
  remove_found-Agrees bus s t sl none id sim e f = (refl, sim)
  remove_found-Agrees bus s t sl (some k) id sim e f = (
    refl,
    same_counter bus _ s t _ sim.counter
        (remove_at-Simulates bus s t sl k sim e (index_of-lt id (elements bus sl) k f)),
  )

  unsubscribe_from-Agrees :
      (bus : EventBus H) (s : Topics H) (t id : Text) (o : Option Slice)
      → Simulates bus s
      → lookup t bus.subscribers ≡ o
      → Agrees
          (unsubscribed (unsubscribe_from t id o bus).0, (unsubscribe_from t id o bus).1)
          (without_subscriber t id (view bus o) s)
  unfolding unsubscribe_from
  unsubscribe_from-Agrees bus s t id none sim e = (refl, sim)
  unsubscribe_from-Agrees bus s t id (some sl) sim e =
      let i = index_of id (elements bus sl) in
      subst
        (λ (r : Option (List (Subscriber H))).
          Agrees (unsubscribed (remove_found t sl i bus).0, (remove_found t sl i bus).1)
            (after_removal t r s))
        (sym (remove_first-index_of id (elements bus sl)))
        (remove_found-Agrees bus s t sl i id sim e refl)

  unsubscribe-Agrees :
      (grown : ℕ → ℕ) (t id : Text) (bus : EventBus H) (s : Topics H)
      → Simulates bus s
      → Agrees (step grown (to_unsubscribe t id) bus) (spec_step (to_unsubscribe t id) s)
  unfolding step spec_step unsubscribe
  unsubscribe-Agrees grown t id bus s sim =
      subst (λ l. Agrees (step grown (to_unsubscribe t id) bus) (without_subscriber t id l s))
        (sym (shown bus s t _ sim refl)) (unsubscribe_from-Agrees bus s t id _ sim refl)

  -- Publish starts the handlers of the slice.
  pub publish_to-view :
      (bus : EventBus H) (s : Topics H) (t : Text) (o : Option Slice)
      → Simulates bus s
      → lookup t bus.subscribers ≡ o
      → publish_to o bus ≡ map handler_of (listed (view bus o))
  unfolding publish_to elements
  publish_to-view bus s t none sim e = refl
  publish_to-view bus s t (some sl) sim e =
      let fit = sim.within t sl e in
      handlers_from-drop sl.len 0 (bus.arrays sl.address).cells (omega arith)

  slice_len-view :
      (bus : EventBus H) (s : Topics H) (t : Text) (o : Option Slice)
      → Simulates bus s
      → lookup t bus.subscribers ≡ o
      → slice_len o ≡ length (listed (view bus o))
  unfolding elements
  slice_len-view bus s t none sim e = refl
  slice_len-view bus s t (some sl) sim e =
      sym (length-take sl.len (bus.arrays sl.address).cells (sim.within t sl e))

  step-Agrees :
      (grown : ℕ → ℕ) (c : Call H) (bus : EventBus H) (s : Topics H)
      → Simulates bus s
      → Agrees (step grown c bus) (spec_step c s)
  unfolding step spec_step publish get_subscriber_count close_bus lookup
  step-Agrees grown (to_subscribe t handler) bus s sim = subscribe-Agrees grown t handler bus s sim
  step-Agrees grown (to_unsubscribe t id) bus s sim = unsubscribe-Agrees grown t id bus s sim
  step-Agrees grown (to_publish t) bus s sim = (
    ap started (
        publish_to-view bus s t _ sim refl
        ∙ ap (λ l. map handler_of (listed l)) (sym (shown bus s t _ sim refl))),
    sim,
  )
  step-Agrees grown (to_count t) bus s sim = (
    ap counted (
        slice_len-view bus s t _ sim refl
        ∙ ap (λ l. length (listed l)) (sym (shown bus s t _ sim refl))),
    sim,
  )
  step-Agrees grown to_close bus s sim = (
    refl,
    record {
      same = λ u. refl;
      counter = sim.counter;
      apart = λ u v x y e f k. cc;
      below = λ u x e. cc;
      within = λ u x e. cc;
    },
  )

  answers-agree :
      (grown : ℕ → ℕ) (calls : List (Call H)) (bus : EventBus H) (s : Topics H)
      → Simulates bus s
      → answers grown calls bus ≡ spec_answers calls s
  unfolding answers spec_answers
  answers-agree grown [] bus s sim = refl
  answers-agree grown (c ∷ cs) bus s sim =
      let now = step-Agrees grown c bus s sim in
      ap (λ (x : Answer H). x ∷ answers grown cs (step grown c bus).1) now.0
      ∙ ap (λ (l : List (Answer H)). (spec_step c s).0 ∷ l)
          (answers-agree grown cs (step grown c bus).1 (spec_step c s).1 now.1)

  new_event_bus-Simulates : Simulates (new_event_bus {H = H}) no_topics
  unfolding new_event_bus lookup
  new_event_bus-Simulates = record {
    same = λ u. refl;
    counter = refl;
    apart = λ u v x y e f k. cc;
    below = λ u x e. cc;
    within = λ u x e. cc;
  }

  -- A new event bus, with its slices and arrays, answers every sequence of calls that follow one another
  -- as lists of subscribers do: Subscribe adds one at the end under the next id, Unsubscribe takes out
  -- the first of that id, Publish starts the handlers in the order of the list, whatever capacities the
  -- runtime chooses.
  pub answers-spec_answers :
      (grown : ℕ → ℕ) (calls : List (Call H))
      → answers grown calls new_event_bus ≡ spec_answers calls no_topics
  answers-spec_answers grown calls =
      answers-agree grown calls new_event_bus no_topics new_event_bus-Simulates
