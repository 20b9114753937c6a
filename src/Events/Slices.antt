-- ===== src/Events/Slices.antt =====
-- Slices of the event bus: the loop over one, an element behind it, and one taken out of it
-- (libs/common/pkg/events/memory/memory.go).
use aetherium.Base.{
  ℕ, zero, suc, ◌+◌, ◌≤◌, ◌<◌, ◌≡◌, refl, sym, ap, ◌∙◌, arith, Option, none, some, inl, inr,
  Option-cases, List, [], ◌∷◌, ◌++◌, map, take, drop, get_elem?, length, Text,
}
use aetherium.Events.{Subscriber, index_of, handlers_from}
use aetherium.Events.Spec.{handler_of, remove_first}

module _ {H : Type 0} where
  from_index :
      (cells : List (Subscriber H)) (j : ℕ)
      → j < length cells
      → (x : Subscriber H) × (get_elem? cells j ≡ some x) × (drop j cells ≡ x ∷ drop (suc j) cells)
  from_index [] j h = absurd (omega arith)
  from_index (x ∷ xs) zero h = (x, refl, refl)
  from_index (x ∷ xs) (suc j) h = from_index xs j (omega arith)

  -- The rounds of a loop with nothing in between call what the slice shows.
  pub handlers_from-drop :
      (n j : ℕ) (cells : List (Subscriber H))
      → j + n ≤ length cells
      → handlers_from cells j n ≡ map handler_of (take n (drop j cells))
  unfolding handlers_from
  handlers_from-drop zero j cells h = refl
  handlers_from-drop (suc n) j cells h =
      let here = from_index cells j (omega arith) in
      let rest = handlers_from-drop n (suc j) cells (omega arith) in
      ap
        (λ (o : Option (Subscriber H)). elim o [
          | none ↦ handlers_from cells (suc j) n
          | some y ↦ y.handler ∷ handlers_from cells (suc j) n
        ])
        here.1
      ∙ ap (λ (r : List H). here.0.handler ∷ r) rest
      ∙ ap (λ (l : List (Subscriber H)). map handler_of (take (suc n) l)) (sym here.2)

  pub length-take : (n : ℕ) (xs : List (Subscriber H)) → n ≤ length xs → length (take n xs) ≡ n
  length-take zero xs h = refl
  length-take (suc n) [] h = absurd (omega arith)
  length-take (suc n) (x ∷ xs) h = ap suc (length-take n xs (omega arith))

  -- What the loop of Unsubscribe finds is the first subscriber of that id.
  pub remove_first-index_of :
      (id : Text) (xs : List (Subscriber H))
      → remove_first id xs
        ≡ (elim (index_of id xs) [ none ↦ none | some i ↦ some (take i xs ++ drop (suc i) xs) ])
  unfolding remove_first index_of
  remove_first-index_of id [] = refl
  remove_first-index_of id (x ∷ xs) = ground (arith, remove_first-index_of id xs)

  pub index_of-lt :
      (id : Text) (xs : List (Subscriber H)) (i : ℕ) → index_of id xs ≡ some i → i < length xs
  unfolding index_of
  index_of-lt id [] i h = cc
  index_of-lt id (x ∷ xs) i h = elim (Option-cases (index_of id xs)) [
    | inl e ↦ ground arith
    | inr (k, e) ↦ let lower = index_of-lt id xs k e in ground arith
  ]

  pub length-removed :
      (i : ℕ) (xs : List (Subscriber H))
      → i < length xs
      → length (take i xs ++ drop (suc i) xs) + 1 ≡ length xs
  length-removed i [] h = absurd (omega arith)
  length-removed zero (x ∷ xs) h = omega arith
  length-removed (suc i) (x ∷ xs) h = omega (arith, length-removed i xs)
