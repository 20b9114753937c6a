-- ===== src/Events/Writes.antt =====
-- What an append to a slice and the removal of an element do to the lists that the slices show
-- (libs/common/pkg/events/memory/memory.go).
use mathlib.Core.List.{append_assoc}
use aetherium.Base.{
  ℕ, zero, suc, ◌+◌, ◌-◌, ◌<◌, ◌≡◌, refl, sym, ap, ◌∙◌, arith, ltb, Option, none, some, List, [],
  ◌∷◌, ◌++◌, if_ind, take, drop, take-append, length, length-append, Text, lookup,
}
use aetherium.Events.{
  EventBus, Slice, Subscriber, elements, append_new, append_within, append_to, remove_at,
}
use aetherium.Events.Simulation.{Simulates, view, changed-Simulates}
use aetherium.Events.Slices.{length-take, length-removed}
use aetherium.Events.Spec.{Topics, listed, set_topic}

module _ {H : Type 0} where
  take_all : (xs : List (Subscriber H)) (n : ℕ) → n ≡ length xs → take n xs ≡ xs
  take_all [] zero e = refl
  take_all [] (suc n) e = refl
  take_all (x ∷ xs) zero e = absurd (omega arith)
  take_all (x ∷ xs) (suc n) e = ap (◌∷◌ x) (take_all xs n (omega arith))

  take_first : (xs ys : List (Subscriber H)) (n : ℕ) → n ≡ length xs → take n (xs ++ ys) ≡ xs
  take_first xs ys n e = ap (λ (k : ℕ). take k (xs ++ ys)) e ∙ take-append xs ys

  take_snoc :
      (xs ys : List (Subscriber H)) (x : Subscriber H) (n : ℕ)
      → n ≡ length xs
      → take (n + 1) (xs ++ x ∷ ys) ≡ xs ++ x ∷ []
  take_snoc xs ys x n e =
      ap (λ (l : List (Subscriber H)). take (n + 1) l) (sym (append_assoc xs (x ∷ []) ys))
      ∙ take_first (xs ++ x ∷ []) ys (n + 1) (omega (arith, length-append xs (x ∷ [])))

  -- The list of a topic, as the slice shows it.
  pub shown :
      (bus : EventBus H) (s : Topics H) (t : Text) (o : Option Slice)
      → Simulates bus s
      → lookup t bus.subscribers ≡ o
      → s.table t ≡ view bus o
  shown bus s t o sim e = sym (sim.same t) ∙ ap (view bus) e

  append_new-Simulates :
      (grown : ℕ → ℕ) (bus : EventBus H) (s : Topics H) (t : Text) (old : List (Subscriber H))
      (x : Subscriber H) (counter : ℕ)
      → Simulates bus s
      → Simulates
          (append_new grown t old x (record bus { id_counter = counter }))
          (set_topic t (old ++ x ∷ []) (record s { counter = counter }))
  unfolding append_new
  append_new-Simulates grown bus s t old x counter sim =
      changed-Simulates bus s sim t (record { address = bus.next_address; len = length old + 1 })
        (record { cells = old ++ x ∷ []; cap = grown (length old + 1) }) (bus.next_address + 1)
        counter (λ u y e k. let low = sim.below u y e in absurd (omega arith)) (omega arith)
        (omega arith) (omega (arith, length-append old (x ∷ []))) (old ++ x ∷ [])
        (take_all (old ++ x ∷ []) (length old + 1) (omega (arith, length-append old (x ∷ []))))

  append_within-Simulates :
      (bus : EventBus H) (s : Topics H) (t : Text) (sl : Slice) (x : Subscriber H) (counter : ℕ)
      → Simulates bus s
      → lookup t bus.subscribers ≡ some sl
      → Simulates
          (append_within t sl x (record bus { id_counter = counter }))
          (set_topic t (elements bus sl ++ x ∷ []) (record s { counter = counter }))
  unfolding append_within elements
  append_within-Simulates bus s t sl x counter sim e =
      let a = bus.arrays sl.address in
      let first = length-take sl.len a.cells (sim.within t sl e) in
      changed-Simulates bus s sim t (record sl { len = sl.len + 1 })
        (record a { cells = take sl.len a.cells ++ x ∷ drop (sl.len + 1) a.cells }) bus.next_address
        counter (λ u y f k. sim.apart u t y sl f e k) (sim.below t sl e) (omega arith)
        (omega (arith, first, length-append (take sl.len a.cells) (x ∷ drop (sl.len + 1) a.cells)))
        (take sl.len a.cells ++ x ∷ [])
        (take_snoc (take sl.len a.cells) (drop (sl.len + 1) a.cells) x sl.len (sym first))

  pub append_to-Simulates :
      (grown : ℕ → ℕ) (bus : EventBus H) (s : Topics H) (t : Text) (o : Option Slice)
      (x : Subscriber H) (counter : ℕ)
      → Simulates bus s
      → lookup t bus.subscribers ≡ o
      → Simulates
          (append_to grown t o x (record bus { id_counter = counter }))
          (set_topic t (listed (view bus o) ++ x ∷ []) (record s { counter = counter }))
  unfolding append_to elements
  append_to-Simulates grown bus s t none x counter sim e =
      append_new-Simulates grown bus s t [] x counter sim
  append_to-Simulates grown bus s t (some sl) x counter sim e =
      if_ind
        (λ (b : EventBus H).
          Simulates b (set_topic t (elements bus sl ++ x ∷ []) (record s { counter = counter })))
        (ltb sl.len (bus.arrays sl.address).cap) _ _
        (λ _. append_within-Simulates bus s t sl x counter sim e)
        (λ _. append_new-Simulates grown bus s t (elements bus sl) x counter sim)

  pub remove_at-Simulates :
      (bus : EventBus H) (s : Topics H) (t : Text) (sl : Slice) (i : ℕ)
      → Simulates bus s
      → lookup t bus.subscribers ≡ some sl
      → i < length (elements bus sl)
      → Simulates (remove_at t sl i bus) (
          set_topic t
            (take i (elements bus sl) ++ drop (suc i) (elements bus sl))
            (record s { counter = bus.id_counter }))
  unfolding remove_at elements
  remove_at-Simulates bus s t sl i sim e h =
      let a = bus.arrays sl.address in
      let kept = take i (elements bus sl) ++ drop (suc i) (elements bus sl) in
      let whole : length (elements bus sl) ≡ sl.len =
        length-take sl.len a.cells (sim.within t sl e) in
      let less : length kept + 1 ≡ length (elements bus sl) =
        length-removed i (elements bus sl) h in
      changed-Simulates bus s sim t (record sl { len = sl.len - 1 })
        (record a { cells = kept ++ drop (sl.len - 1) a.cells }) bus.next_address bus.id_counter
        (λ u y f k. sim.apart u t y sl f e k) (sim.below t sl e) (omega arith)
        (omega (arith, whole, less, length-append kept (drop (sl.len - 1) a.cells))) kept
        (take_first kept (drop (sl.len - 1) a.cells) (sl.len - 1) (omega (arith, whole, less)))
