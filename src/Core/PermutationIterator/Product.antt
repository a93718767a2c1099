-- ===== src/Core/PermutationIterator/Product.antt =====
-- The tuples of several collections, in order, without the iterator of
-- src/core/include/core/permutationIterator.h.
use exec_helper.Prelude.{List, [], ◌∷◌, ◌++◌, ◌≡◌, refl}
use exec_helper.Prelude.{map}

module _ {ℓ} {V : Type ℓ} where
  -- Each of some values before each of some tuples.
  abbrev pub prefixed : List V → List (List V) → List (List V)
  prefixed [] tuples = []
  prefixed (v ∷ vs) tuples = map (λ t. v ∷ t) tuples ++ prefixed vs tuples

  -- All tuples with one value of each collection, the last one changing first.
  abbrev pub product : List (List V) → List (List V)
  product [] = [] ∷ []
  product (vs ∷ vss) = prefixed vs (product vss)

  pub prefixed-nil : (vs : List V) → prefixed vs [] ≡ []
  prefixed-nil [] = refl
  prefixed-nil (v ∷ vs) = prefixed-nil vs
