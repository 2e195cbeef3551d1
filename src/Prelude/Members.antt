-- ===== src/Prelude/Members.antt =====
-- Members of a list, and tests on all of them.
use mathlib.Core.Bool.{Bool, true, ◌&&◌}
use mathlib.Core.Path.{◌≡◌}
use mathlib.Core.Logic.{◌⊎◌, inl, inr, ◌↔◌}
use mathlib.Core.List.{List, [], ◌∷◌}
use native.Mathlib.Omega.{arith}
use dfdisk.Prelude.Tests.{if◌then◌else◌, Bool-cases}

module _ {A : Type 0} where
  unfoldable pub Member : A → List A → Type 0
  Member a [] = ⊥
  Member a (x ∷ xs) = (a ≡ x) ⊎ Member a xs

  -- `filter`
  unfoldable pub keep : (A → Bool) → List A → List A
  keep p [] = []
  keep p (x ∷ xs) = let rest = keep p xs in if p x then x ∷ rest else rest

  unfoldable pub all : (A → Bool) → List A → Bool
  all p [] = true
  all p (x ∷ xs) = p x && all p xs

  pub Member-keep :
      (p : A → Bool) (a : A) (xs : List A) → Member a (keep p xs) ↔ ((p a ≡ true) × Member a xs)
  unfolding Member keep
  Member-keep p a [] = ground arith
  Member-keep p a (x ∷ xs) = elim (Bool-cases (p x)) [
    | inl e ↦ rw (e) (ground (arith, Member-keep p a xs))
    | inr e ↦ rw (e) (ground (arith, Member-keep p a xs))
  ]

  pub all-Member : (p : A → Bool) (a : A) (xs : List A) → all p xs ≡ true → Member a xs → p a ≡ true
  unfolding Member all
  all-Member p a [] h m = ground arith
  all-Member p a (x ∷ xs) h (inl e) = rw (e) (ground (arith, h))
  all-Member p a (x ∷ xs) h (inr m) = all-Member p a xs (ground (arith, h)) m
