-- ===== src/Common/Sort.antt =====
-- `ORDER BY` as a stable insertion sort; `le a b` says that `a` may stand before `b`.
use mathlib.Core.Path.{◌≡◌, refl, ap, ◌∙◌}
use mathlib.Core.Bool.{Bool, true, ◌||◌}
use mathlib.Core.List.{List, [], ◌∷◌}
use native.Mathlib.Omega.{arith}
use codedeck.Common.Tests.{if◌then◌else◌}
use codedeck.Common.Lists.{All, any}

module _ {ℓ} {A : Type ℓ} (le : A → A → Bool) where
  unfoldable pub insert_by : A → List A → List A
  insert_by a [] = a ∷ []
  insert_by a (b ∷ xs) = let rest = insert_by a xs in if le a b then a ∷ b ∷ xs else b ∷ rest

  unfoldable pub sort_by : List A → List A
  unfolding insert_by
  sort_by [] = []
  sort_by (a ∷ xs) = insert_by a (sort_by xs)

  -- Every element may stand before those behind it.
  abbrev pub IsSorted : List A → Type 0
  IsSorted [] = Unit
  IsSorted (a ∷ xs) = All (λ b. le a b ≡ true) xs × IsSorted xs

  insert_by_first : (a : A) (xs : List A) → All (λ b. le a b ≡ true) xs → insert_by a xs ≡ a ∷ xs
  unfolding insert_by
  insert_by_first a [] h = refl
  insert_by_first a (b ∷ xs) h = ground arith

  pub sort_by_of_IsSorted : (xs : List A) → IsSorted xs → sort_by xs ≡ xs
  unfolding sort_by
  sort_by_of_IsSorted [] h = refl
  sort_by_of_IsSorted (a ∷ xs) h =
      ground (arith, sort_by_of_IsSorted xs h.1, insert_by_first a xs h.0)

  any-insert_by : (p : A → Bool) (a : A) (xs : List A) → any p (insert_by a xs) ≡ (p a || any p xs)
  unfolding insert_by
  any-insert_by p a [] = refl
  any-insert_by p a (b ∷ xs) = ground (arith, any-insert_by p a xs)

  pub any-sort_by : (p : A → Bool) (xs : List A) → any p (sort_by xs) ≡ any p xs
  unfolding sort_by
  any-sort_by p [] = refl
  any-sort_by p (a ∷ xs) = any-insert_by p a (sort_by xs) ∙ ap (λ b. p a || b) (any-sort_by p xs)
