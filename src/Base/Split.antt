-- ===== src/Base/Split.antt =====
-- `strings.Split` at one byte.
use mathlib.Core.Path.{◌≡◌, refl}
use mathlib.Core.List.{List, [], ◌∷◌, ◌++◌}
use Prim.Native.Nat.{ℕ}
use native.Mathlib.Omega.{arith}
use mathlib.Core.Logic.{inl, inr}
use mathlib.Core.Bool.{false}
use aetherium.Base.Tests.{◌==◌, if◌then◌else◌, Bool-cases}
use aetherium.Base.Texts.{Text}

-- The byte goes to the front of the first part.
abbrev pub to_first : ℕ → List Text → List Text
to_first c [] = (c ∷ []) ∷ []
to_first c (p ∷ ps) = (c ∷ p) ∷ ps

unfoldable pub split_on : ℕ → Text → List Text
split_on sep [] = [] ∷ []
split_on sep (c ∷ s) = let rest = split_on sep s in if c == sep then [] ∷ rest else to_first c rest

-- The first part, which is there always.
abbrev pub head_or : Text → List Text → Text
head_or d [] = d
head_or d (x ∷ xs) = x

unfoldable pub first_part : ℕ → Text → Text
unfolding split_on
first_part sep s = head_or [] (split_on sep s)

-- No byte of the text is `b`.
abbrev pub Lacks : ℕ → Text → Type 0
Lacks b [] = Unit {0}
Lacks b (c ∷ s) = ((c == b) ≡ false) × Lacks b s

pub split_on-Lacks : (sep : ℕ) (s : Text) → Lacks sep s → split_on sep s ≡ s ∷ []
unfolding split_on
split_on-Lacks sep [] h = refl
split_on-Lacks sep (c ∷ s) h = ground (arith, split_on-Lacks sep s h.1)

pub split_on-append :
    (sep : ℕ) (s t : Text) → Lacks sep s → split_on sep (s ++ sep ∷ t) ≡ s ∷ split_on sep t
unfolding split_on
split_on-append sep [] t h = ground arith
split_on-append sep (c ∷ s) t h = ground (arith, split_on-append sep s t h.1)

pub first_part-append : (sep : ℕ) (s t : Text) → Lacks sep s → first_part sep (s ++ sep ∷ t) ≡ s
unfolding first_part
first_part-append sep s t h = rw (split_on-append sep s t h)

pub first_part_whole : (sep : ℕ) (s : Text) → Lacks sep s → first_part sep s ≡ s
unfolding first_part
first_part_whole sep s h = rw (split_on-Lacks sep s h)

head_or-to_first : (c : ℕ) (ps : List Text) → head_or [] (to_first c ps) ≡ c ∷ head_or [] ps
head_or-to_first c [] = refl
head_or-to_first c (p ∷ ps) = refl

first_part_nil : (sep : ℕ) → first_part sep [] ≡ []
unfolding first_part
first_part_nil sep = refl

first_part-cons :
    (sep c : ℕ) (s : Text)
    → first_part sep (c ∷ s) ≡ (if c == sep then [] else c ∷ first_part sep s)
unfolding first_part
first_part-cons sep c s = ground (arith, head_or-to_first c (split_on sep s))

-- The first part has no separator, and no byte that the text lacks.
pub first_part-Lacks_sep : (sep : ℕ) (s : Text) → Lacks sep (first_part sep s)
first_part-Lacks_sep sep [] = rw (first_part_nil sep) tt
first_part-Lacks_sep sep (c ∷ s) =
    rw (first_part-cons sep c s) (cons_or_stop (first_part-Lacks_sep sep s))
  where
    cons_or_stop :
        Lacks sep (first_part sep s) → Lacks sep (if c == sep then [] else c ∷ first_part sep s)
    cons_or_stop h = elim (Bool-cases (c == sep)) [ inl e ↦ rw e tt | inr e ↦ rw e (e, h) ]

pub first_part-Lacks : (b sep : ℕ) (s : Text) → Lacks b s → Lacks b (first_part sep s)
first_part-Lacks b sep [] h = rw (first_part_nil sep) tt
first_part-Lacks b sep (c ∷ s) h =
    rw (first_part-cons sep c s) (cons_or_stop (first_part-Lacks b sep s h.1))
  where
    cons_or_stop :
        Lacks b (first_part sep s) → Lacks b (if c == sep then [] else c ∷ first_part sep s)
    cons_or_stop k = elim (Bool-cases (c == sep)) [ inl e ↦ rw e tt | inr e ↦ rw e (h.0, k) ]

pub Lacks-append : (b : ℕ) (s t : Text) → Lacks b s → Lacks b t → Lacks b (s ++ t)
Lacks-append b [] t hs ht = ht
Lacks-append b (c ∷ s) t hs ht = (hs.0, Lacks-append b s t hs.1 ht)
