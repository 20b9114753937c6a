-- ===== src/Queue/Priorities.antt =====
-- What the priorities of getQueueForPriority come to under the default weights of the queues.
use aetherium.Base.{
  ℕ, ◌≤◌, ◌≡◌, refl, arith, Bool, true, false, leb, Option, none, some, if◌then◌else◌, text, lookup,
  text_eq,
}
use aetherium.Queue.{get_queue_for_priority, default_queues}

-- The weight of the queue for a priority, 0 if there is no such queue.
abbrev pub weight : ℕ → ℕ
weight p = elim (lookup (get_queue_for_priority p) default_queues) [ none ↦ 0 | some w ↦ w ]

abbrev weight_of : Option ℕ → ℕ
weight_of o = elim o as (λ x. ℕ) [ none ↦ 0 | some w ↦ w ]

weight_of_tests :
    (a b c : Bool)
    → weight_of (
        lookup
          (if a
            then text "critical"
            else if b
            then text "high"
            else if c
            then text "default"
            else text "low")
          default_queues)
      ≡ (if a then 6 else if b then 5 else if c then 3 else 1)
unfolding lookup text_eq
weight_of_tests true b c = refl
weight_of_tests false true c = refl
weight_of_tests false false true = refl
weight_of_tests false false false = refl

weight_tests :
    (p : ℕ) → weight p ≡ (if leb 8 p then 6 else if leb 5 p then 5 else if leb 2 p then 3 else 1)
unfolding get_queue_for_priority
weight_tests p = weight_of_tests (leb 8 p) (leb 5 p) (leb 2 p)

tests_pos : (a b c : Bool) → 1 ≤ (if a then 6 else if b then 5 else if c then 3 else 1)
tests_pos a b c = ground arith

tests_mono :
    (p q : ℕ)
    → p ≤ q
    → (if leb 8 p then 6 else if leb 5 p then 5 else if leb 2 p then 3 else 1)
      ≤ (if leb 8 q then 6 else if leb 5 q then 5 else if leb 2 q then 3 else 1)
tests_mono p q le = ground (arith, le)

-- The queue for a priority is one of the default queues, and a higher priority never gets a queue of a
-- lower weight.
pub get_queue_for_priority-weight : (p q : ℕ) → p ≤ q → (1 ≤ weight p) × (weight p ≤ weight q)
get_queue_for_priority-weight p q le = omega (
  arith,
  weight_tests p,
  weight_tests q,
  tests_pos (leb 8 p) (leb 5 p) (leb 2 p),
  tests_mono p q le,
)
