-- ===== src/Events/Simulation.antt =====
-- When the slices of the event bus show the lists of its specification, and what a write to one array
-- keeps of that (libs/common/pkg/events/memory/memory.go).
use aetherium.Base.{
  ℕ, ◌≤◌, ◌<◌, ◌≡◌, ◌≢◌, ◌⊎◌, refl, sym, ap, ◌∙◌, subst, inl, inr, arith, true, false, Option, none,
  some, List, if◌then◌else◌, take, length, Text, text_eq, text_eq_iff, lookup, insert,
  lookup-insert, Bool-cases,
}
use aetherium.Events.{EventBus, Array, Slice, Subscriber, elements, write_array}
use aetherium.Events.Spec.{Topics, set_topic}

other_topic : (t u : Text) → text_eq t u ≡ false → t ≢ u
other_topic t u e p = let same : text_eq t u ≡ true = (text_eq_iff t u).1 p in cc

module _ {H : Type 0} where
  abbrev pub view : EventBus H → Option Slice → Option (List (Subscriber H))
  view bus none = none
  view bus (some s) = some (elements bus s)

  -- The slices show the lists; no two topics share an array, and none goes beyond its array.
  pub record Simulates (bus : EventBus H) (s : Topics H) : Type 0 where
    pub same : (u : Text) → view bus (lookup u bus.subscribers) ≡ s.table u
    pub counter : bus.id_counter ≡ s.counter
    pub apart :
        (u v : Text) (x y : Slice)
        → lookup u bus.subscribers ≡ some x
        → lookup v bus.subscribers ≡ some y
        → x.address ≡ y.address
        → u ≡ v
    pub below :
        (u : Text) (x : Slice) → lookup u bus.subscribers ≡ some x → x.address < bus.next_address
    pub within :
        (u : Text) (x : Slice)
        → lookup u bus.subscribers ≡ some x
        → x.len ≤ length (bus.arrays x.address).cells

  pub write_self : (k : ℕ) (a : Array H) (m : ℕ → Array H) → write_array k a m k ≡ a
  unfolding write_array
  write_self k a m = ground arith

  write_other : (k j : ℕ) (a : Array H) (m : ℕ → Array H) → j ≢ k → write_array k a m j ≡ m j
  unfolding write_array
  write_other k j a m h = ground arith

  -- A bus in which one topic has got a slice of an array that is written.
  abbrev pub changed : Text → Slice → Array H → ℕ → ℕ → EventBus H → EventBus H
  changed topic x a next counter bus = record {
    arrays = write_array x.address a bus.arrays;
    next_address = next;
    subscribers = insert topic x bus.subscribers;
    id_counter = counter;
  }

  module _ (bus : EventBus H) (s : Topics H) (sim : Simulates bus s) (topic : Text) (x : Slice)
      (a : Array H) (next counter : ℕ)
      (alone : (u : Text) (y : Slice)
        → lookup u bus.subscribers ≡ some y
        → y.address ≡ x.address
        → u ≡ topic)
      (room : x.address < next) (later : bus.next_address ≤ next)
      (fits : x.len ≤ length a.cells) where
    -- Another topic shows what it did.
    others :
        (u : Text) (o : Option Slice)
        → lookup u bus.subscribers ≡ o
        → text_eq topic u ≡ false
        → view (changed topic x a next counter bus) o ≡ view bus o
    unfolding elements
    others u none e t = refl
    others u (some y) e t =
        ap (λ (r : Array H). some (take y.len r.cells))
          (write_other x.address y.address a bus.arrays
            (λ k. other_topic topic u t (sym (alone u y e k))))

    shown :
        (u : Text)
        → view (changed topic x a next counter bus) (lookup u (insert topic x bus.subscribers))
          ≡ (if text_eq topic u then some (take x.len a.cells) else s.table u)
    unfolding elements
    shown u = elim (Bool-cases (text_eq topic u)) [
      | inl t ↦
          rw (lookup-insert topic u x bus.subscribers, t)
            (ap (λ (r : Array H). some (take x.len r.cells)) (write_self x.address a bus.arrays))
      | inr t ↦ rw (lookup-insert topic u x bus.subscribers, t) (others u _ refl t ∙ sim.same u)
    ]

    -- An entry is the new slice, or an old one of another array.
    entry :
        (u : Text) (y : Slice)
        → lookup u (insert topic x bus.subscribers) ≡ some y
        → ((u ≡ topic) × (y ≡ x)) ⊎ ((lookup u bus.subscribers ≡ some y) × (y.address ≢ x.address))
    entry u y e = elim (Bool-cases (text_eq topic u)) [
      | inl t ↦
          let found : some x ≡ some y = ground (arith, lookup-insert topic u x bus.subscribers) in
          inl (sym ((text_eq_iff topic u).0 t), cc)
      | inr t ↦
          let old : lookup u bus.subscribers ≡ some y =
            ground (arith, lookup-insert topic u x bus.subscribers) in
          inr (old, λ k. other_topic topic u t (sym (alone u y old k)))
    ]

    changed_apart :
        (u v : Text) (y z : Slice)
        → lookup u (insert topic x bus.subscribers) ≡ some y
        → lookup v (insert topic x bus.subscribers) ≡ some z
        → y.address ≡ z.address
        → u ≡ v
    changed_apart u v y z e f k = elim (entry u y e) [
      | inl p ↦ elim (entry v z f) [
        | inl q ↦ p.0 ∙ sym q.0
        | inr q ↦ absurd (q.1 (sym k ∙ ap (λ (r : Slice). r.address) p.1))
      ]
      | inr p ↦ elim (entry v z f) [
        | inl q ↦ absurd (p.1 (k ∙ ap (λ (r : Slice). r.address) q.1))
        | inr q ↦ sim.apart u v y z p.0 q.0 k
      ]
    ]

    changed_below :
        (u : Text) (y : Slice)
        → lookup u (insert topic x bus.subscribers) ≡ some y
        → y.address < next
    changed_below u y e = elim (entry u y e) [
      | inl p ↦ let same = ap (λ (r : Slice). r.address) p.1 in omega arith
      | inr p ↦ let old = sim.below u y p.0 in omega arith
    ]

    changed_within :
        (u : Text) (y : Slice)
        → lookup u (insert topic x bus.subscribers) ≡ some y
        → y.len ≤ length (write_array x.address a bus.arrays y.address).cells
    changed_within u y e = elim (entry u y e) [
      | inl p ↦
          subst (λ (r : Slice). r.len ≤ length (write_array x.address a bus.arrays r.address).cells)
            (sym p.1)
            (subst (λ (r : Array H). x.len ≤ length r.cells)
              (sym (write_self x.address a bus.arrays)) fits)
      | inr p ↦
          subst (λ (r : Array H). y.len ≤ length r.cells)
            (sym (write_other x.address y.address a bus.arrays p.1)) (sim.within u y p.0)
    ]

    pub changed-Simulates :
        (xs : List (Subscriber H))
        → take x.len a.cells ≡ xs
        → Simulates
            (changed topic x a next counter bus)
            (set_topic topic xs (record s { counter = counter }))
    changed-Simulates xs e = record {
      same = λ u.
          shown u
          ∙ ap (λ (l : List (Subscriber H)). if text_eq topic u then some l else s.table u) e;
      counter = refl;
      apart = changed_apart;
      below = changed_below;
      within = changed_within;
    }
