-- ===== src/Events/Shifting.antt =====
-- An Unsubscribe that comes between two rounds of a Publish: it moves the elements of the array that
-- Publish still reads (libs/common/pkg/events/memory/memory.go).
use mathlib.Core.List.{append_assoc}
use aetherium.Base.{
  ℕ, suc, ◌+◌, ◌-◌, ◌≤◌, ◌≡◌, sym, ap, ◌∙◌, arith, none, some, List, [], ◌∷◌, ◌++◌, map,
  if◌then◌else◌, take, drop, take-append, take-drop, drop-append, length, length-append, Text,
  text_eq_refl, lookup, lookup-insert_self,
}
use aetherium.Events.{
  EventBus, Array, Slice, Subscriber, elements, index_of, remove_at, remove_found, unsubscribe_from,
  unsubscribe, publish_rounds, handlers_from,
}
use aetherium.Events.Simulation.{write_self}
use aetherium.Events.Slices.{handlers_from-drop, length-take}
use aetherium.Events.Spec.{handler_of}

module _ {H : Type 0} where
  unsubscribe_first :
      (t : Text) (bus : EventBus H) (s : Slice) (a : Subscriber H) (xs : List (Subscriber H))
      → lookup t bus.subscribers ≡ some s
      → elements bus s ≡ a ∷ xs
      → (unsubscribe t a.id bus).1 ≡ remove_at t s 0 bus
  unfolding unsubscribe unsubscribe_from remove_found index_of
  unsubscribe_first t bus s a xs e shown =
      ap (λ o. (unsubscribe_from t a.id o bus).1) e
      ∙ ap (λ l. (remove_found t s (index_of a.id l) bus).1) shown
      ∙ ap
          (λ q.
            (remove_found t s
              (if q
                then some 0
                else elim (index_of a.id xs) [ none ↦ none | some i ↦ some (suc i) ])
              bus).1)
          (text_eq_refl a.id)

  removed-cells :
      (t : Text) (bus : EventBus H) (s : Slice) (a : Subscriber H) (xs : List (Subscriber H))
      → elements bus s ≡ a ∷ xs
      → ((remove_at t s 0 bus).arrays s.address).cells
        ≡ xs ++ drop (s.len - 1) (bus.arrays s.address).cells
  unfolding remove_at
  removed-cells t bus s a xs shown =
      ap (λ (r : Array H). r.cells) (write_self s.address _ bus.arrays)
      ∙ ap (λ (l : List (Subscriber H)). drop 1 l ++ drop (s.len - 1) (bus.arrays s.address).cells)
          shown

  module _ (t : Text) (bus : EventBus H) (s : Slice) (a b : Subscriber H)
      (rest init : List (Subscriber H)) (last : Subscriber H)
      (e : lookup t bus.subscribers ≡ some s) (within : s.len ≤ length (bus.arrays s.address).cells)
      (shown : elements bus s ≡ a ∷ b ∷ rest) (ends : b ∷ rest ≡ init ++ last ∷ []) where
    count : s.len ≡ length rest + 2
    unfolding elements
    count = sym (length-take s.len _ within) ∙ ap length shown ∙ (omega arith)

    abbrev behind : List (Subscriber H)
    behind = drop s.len (bus.arrays s.address).cells

    all_cells : (bus.arrays s.address).cells ≡ (a ∷ init) ++ (last ∷ behind)
    unfolding elements
    all_cells =
        sym (take-drop s.len (bus.arrays s.address).cells)
        ∙ ap (λ (l : List (Subscriber H)). l ++ behind) shown
        ∙ ap (λ (l : List (Subscriber H)). (a ∷ l) ++ behind) ends
        ∙ ap (λ (l : List (Subscriber H)). a ∷ l) (append_assoc init (last ∷ []) behind)

    -- The array from the last element of the slice on.
    tail : drop (s.len - 1) (bus.arrays s.address).cells ≡ last ∷ behind
    tail =
        let same : s.len - 1 ≡ length (a ∷ init) =
          omega (arith, count, ap length ends, length-append init (last ∷ [])) in
        ap (drop (s.len - 1)) all_cells
        ∙ ap (λ (k : ℕ). drop k ((a ∷ init) ++ (last ∷ behind))) same
        ∙ drop-append (a ∷ init) (last ∷ behind)

    rounds :
        (n : ℕ)
        → n ≡ length rest + 1
        → handlers_from ((b ∷ rest) ++ (last ∷ behind)) 1 n ≡ map handler_of (rest ++ last ∷ [])
    rounds n e' =
        let size = length-append rest (last ∷ behind) in
        let same : n ≡ length (rest ++ last ∷ []) =
          omega (arith, e', length-append rest (last ∷ [])) in
        handlers_from-drop n 1 ((b ∷ rest) ++ (last ∷ behind)) (omega (arith, e', size))
        ∙ ap (λ (l : List (Subscriber H)). map handler_of (take n l))
            (sym (append_assoc rest (last ∷ []) behind))
        ∙ ap (λ (k : ℕ). map handler_of (take k ((rest ++ last ∷ []) ++ behind))) same
        ∙ ap (map handler_of) (take-append (rest ++ last ∷ []) behind)

    second :
        publish_rounds s 1 (s.len - 1) (unsubscribe t a.id bus).1
        ≡ map handler_of (rest ++ last ∷ [])
    unfolding publish_rounds
    second =
        ap (λ (x : EventBus H). handlers_from (x.arrays s.address).cells 1 (s.len - 1))
          (unsubscribe_first t bus s a (b ∷ rest) e shown)
        ∙ ap (λ (l : List (Subscriber H)). handlers_from l 1 (s.len - 1))
            (removed-cells t bus s a (b ∷ rest) shown
              ∙ ap (λ (l : List (Subscriber H)). (b ∷ rest) ++ l) tail)
        ∙ rounds (s.len - 1) (omega (arith, count))

    first : publish_rounds s 0 1 bus ≡ a.handler ∷ []
    unfolding publish_rounds handlers_from
    first = ap (λ (l : List (Subscriber H)). handlers_from l 0 1) all_cells

    remaining : elements (remove_at t s 0 bus) (record s { len = s.len - 1 }) ≡ b ∷ rest
    unfolding elements
    remaining =
        let same : s.len - 1 ≡ length (b ∷ rest) = omega (arith, count) in
        ap (λ (l : List (Subscriber H)). take (s.len - 1) l)
          (removed-cells t bus s a (b ∷ rest) shown)
        ∙ ap (λ (k : ℕ). take k ((b ∷ rest) ++ drop (s.len - 1) (bus.arrays s.address).cells)) same
        ∙ take-append (b ∷ rest) (drop (s.len - 1) (bus.arrays s.address).cells)

    left : lookup t (unsubscribe t a.id bus).1.subscribers ≡ some (record s { len = s.len - 1 })
    unfolding remove_at
    left =
        ap (λ (x : EventBus H). lookup t x.subscribers)
          (unsubscribe_first t bus s a (b ∷ rest) e shown)
        ∙ lookup-insert_self t (record s { len = s.len - 1 }) bus.subscribers

    -- Where a topic has the subscribers a, b and more or none, and the first one unsubscribes after
    -- Publish has started the first handler, that Publish starts the handler of a, then those behind b
    -- and that of the last subscriber once more. The topic's subscribers are then b and those behind it,
    -- so where there are any behind b, b gets no event though it is subscribed.
    pub publish_rounds-unsubscribe :
        (publish_rounds s 0 1 bus ++ publish_rounds s 1 (s.len - 1) (unsubscribe t a.id bus).1
          ≡ a.handler ∷ map handler_of (rest ++ last ∷ []))
        × ((s' : Slice) × (lookup t (unsubscribe t a.id bus).1.subscribers ≡ some s')
            × (elements (unsubscribe t a.id bus).1 s' ≡ b ∷ rest))
    publish_rounds-unsubscribe = (
      ap (λ (l : List H). l ++ publish_rounds s 1 (s.len - 1) (unsubscribe t a.id bus).1) first
          ∙ ap (λ (l : List H). a.handler ∷ l) second,
      (
        record s { len = s.len - 1 },
        left,
        ap (λ (x : EventBus H). elements x (record s { len = s.len - 1 }))
              (unsubscribe_first t bus s a (b ∷ rest) e shown)
            ∙ remaining,
      ),
    )
