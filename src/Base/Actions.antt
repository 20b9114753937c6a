-- ===== src/Base/Actions.antt =====
-- Calls that read and change a state, one after the other.
use mathlib.Core.Path.{◌≡◌, ap}
use mathlib.Core.Bool.{Bool, true, false}
use mathlib.Core.List.{List, [], ◌∷◌}
use mathlib.Core.Option.{Option, none, some}
use aetherium.Base.Tests.{if◌then◌else◌}

abbrev pub Action : Type 0 → Type 0 → Type 0
Action S A = S → A × S

infixl 5 ◌>>=◌ ◌>>◌
abbrev pub ◌>>=◌ : {S A B : Type 0} → Action S A → (A → Action S B) → Action S B
(m >>= f) s = f (m s).0 (m s).1

abbrev pub ◌>>◌ : {S A B : Type 0} → Action S A → Action S B → Action S B
(m >> k) s = k (m s).1

abbrev pub pure : {S A : Type 0} → A → Action S A
pure a s = (a, s)

abbrev pub modify : {S : Type 0} → (S → S) → Action S (Unit {0})
modify f s = (tt, f s)

abbrev pub gets : {S A : Type 0} → (S → A) → Action S A
gets f s = (f s, s)

pub >>=-step :
    {S A B : Type 0} (m : Action S A) (f : A → Action S B) (s : S) {r : A × S}
    → m s ≡ r
    → (m >>= f) s ≡ f r.0 r.1
>>=-step m f s p = ap (λ r. f r.0 r.1) p

-- `for _, x := range xs { ... }`, with a body that returns nothing of use.
unfoldable pub for_each : {S A B : Type 0} → (A → Action S B) → List A → Action S (Unit {0})
for_each body [] = pure tt
for_each body (x ∷ xs) = body x >> for_each body xs

-- The action leads from states that satisfy the predicate to such states.
abbrev pub Preserves : {S A : Type 0} → (S → Type 0) → Action S A → Type 0
Preserves {S} P m = (s : S) → P s → P (m s).1

module _ {S : Type 0} (P : S → Type 0) where
  pub Preserves-pure : {A : Type 0} (a : A) → Preserves P (pure {S = S} a)
  Preserves-pure a s p = p

  pub Preserves->>= :
      {A B : Type 0} (m : Action S A) (f : A → Action S B)
      → Preserves P m
      → ((a : A) → Preserves P (f a))
      → Preserves P (m >>= f)
  Preserves->>= m f k l s p = l (m s).0 (m s).1 (k s p)

  pub Preserves->> :
      {A B : Type 0} (m : Action S A) (n : Action S B)
      → Preserves P m
      → Preserves P n
      → Preserves P (m >> n)
  Preserves->> m n k l s p = l (m s).1 (k s p)

  pub Preserves-if :
      {A : Type 0} (b : Bool) (m n : Action S A)
      → Preserves P m
      → Preserves P n
      → Preserves P (if b then m else n)
  Preserves-if true m n k l = k
  Preserves-if false m n k l = l

  pub Preserves-option :
      {A B : Type 0} (o : Option A) (m : Action S B) (f : A → Action S B)
      → Preserves P m
      → ((a : A) → Preserves P (f a))
      → Preserves P (elim o [ none ↦ m | some a ↦ f a ])
  Preserves-option none m f k l = k
  Preserves-option (some a) m f k l = l a

  pub Preserves-for_each :
      {A B : Type 0} (body : A → Action S B) (xs : List A)
      → ((x : A) → Preserves P (body x))
      → Preserves P (for_each body xs)
  unfolding for_each
  Preserves-for_each body [] k s p = p
  Preserves-for_each body (x ∷ xs) k s p = Preserves-for_each body xs k (body x s).1 (k x s p)
