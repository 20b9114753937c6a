-- ===== src/Worker/Tools.antt =====
-- The list of the tools without repetitions.
use aetherium.Base.{
  ◌≡◌, refl, arith, Bool, true, false, List, [], ◌∷◌, if◌then◌else◌, Text, text_eq, text_eq_iff,
  text_eq_refl, ap, Bool-cases, inl, inr,
}
use aetherium.Worker.{is_member, unique_from, unique_tools}

abbrev pub distinct : List Text → Bool
distinct [] = true
distinct (t ∷ ts) = if is_member t ts then false else distinct ts

is_member-text_eq :
    (u t : Text) (ts : List Text) → text_eq u t ≡ true → is_member u ts ≡ is_member t ts
is_member-text_eq u t ts p = ap (λ x. is_member x ts) ((text_eq_iff u t).0 p)

is_member-unique_from :
    (t : Text) (seen ts : List Text)
    → is_member t (unique_from seen ts) ≡ (if is_member t seen then false else is_member t ts)
unfolding unique_from
is_member-unique_from t seen [] = ground arith
is_member-unique_from t seen (u ∷ ts) = elim (Bool-cases (is_member u seen)) [
  | inl old ↦ ground (arith, old, is_member-text_eq u t seen, is_member-unique_from t seen ts)
  | inr new ↦ ground (arith, new, is_member-text_eq u t seen, is_member-unique_from t (u ∷ seen) ts)
]

distinct-unique_from : (seen ts : List Text) → distinct (unique_from seen ts) ≡ true
unfolding unique_from
distinct-unique_from seen [] = refl
distinct-unique_from seen (u ∷ ts) = elim (Bool-cases (is_member u seen)) [
  | inl old ↦ ground (arith, old, distinct-unique_from seen ts)
  | inr new ↦ ground (
    arith,
    new,
    text_eq_refl u,
    is_member-unique_from u (u ∷ seen) ts,
    distinct-unique_from (u ∷ seen) ts,
  )
]

-- The tools that are installed are those of the list, each of them once.
pub distinct-unique_tools :
    (ts : List Text)
    → (distinct (unique_tools ts) ≡ true)
      × ((t : Text) → is_member t (unique_tools ts) ≡ is_member t ts)
unfolding unique_tools
distinct-unique_tools ts = (distinct-unique_from [] ts, λ t. is_member-unique_from t [] ts)
