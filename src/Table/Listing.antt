-- ===== src/Table/Listing.antt =====
-- The sort of the list methods, `sort.SliceStable` by order and then by identifier.
use open_mos.Prelude.{ℕ, Bool, List, [], ◌∷◌, if◌then◌else◌, ltb, ◌==◌}
use open_mos.Text.{Text, before}

module _ {ℓ} {A : Type ℓ} (order : A → ℕ) (ident : A → Text) where
  -- the comparison function
  unfoldable pub less : A → A → Bool
  less a b = if order a == order b then before (ident a) (ident b) else ltb (order a) (order b)

  -- A stable insertion: `x` goes behind what is less than it.
  unfoldable pub insert : A → List A → List A
  insert x [] = x ∷ []
  insert x (y ∷ ys) = if less y x then y ∷ insert x ys else x ∷ y ∷ ys

  unfoldable pub sort : List A → List A
  unfolding insert less
  sort [] = []
  sort (x ∷ xs) = insert x (sort xs)
