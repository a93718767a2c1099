-- ===== src/Core/MapPermutator/Combinations.antt =====
-- The combinations of a map, independently of the iterator: every choice of one value for each key,
-- with the last key varying fastest; and those that are left from a position on.
use exec_helper.Prelude.{
  Text, ℕ, zero, suc, ◌<◌, List, [], ◌∷◌, ◌++◌, map, some, ◌≡◌, refl, length, get_elem?, drop,
  is_empty, any, All, arith, false, true,
}
use exec_helper.OrderedMap.{Map}

-- Each value with each combination of the other keys.
unfoldable pub with_each : Text → List Text → List (Map Text) → List (Map Text)
with_each k [] cs = []
with_each k (v ∷ vs) cs = map (λ c. (k, v) ∷ c) cs ++ with_each k vs cs

unfoldable pub combinations : Map (List Text) → List (Map Text)
unfolding with_each
combinations [] = [] ∷ []
combinations ((k, vs) ∷ m) = with_each k vs (combinations m)

abbrev pub value_at : List Text → ℕ → Text
value_at [] i = []
value_at (v ∷ vs) zero = v
value_at (v ∷ vs) (suc i) = value_at vs i

unfoldable pub current : Map (List Text) → Map ℕ → Map Text
current [] indexes = []
current ((k, vs) ∷ m) [] = []
current ((k, vs) ∷ m) ((j, i) ∷ indexes) = (k, value_at vs i) ∷ current m indexes

unfoldable pub remaining : Map (List Text) → Map ℕ → List (Map Text)
unfolding combinations
remaining [] indexes = [] ∷ []
remaining ((k, vs) ∷ m) [] = []
remaining ((k, vs) ∷ m) ((j, i) ∷ indexes) =
    map (λ c. (k, value_at vs i) ∷ c) (remaining m indexes)
    ++ with_each k (drop (suc i) vs) (combinations m)

abbrev pub zeros : Map (List Text) → Map ℕ
zeros [] = []
zeros ((k, vs) ∷ m) = (k, 0) ∷ zeros m

-- No key lacks values.
abbrev pub IsFilled : Map (List Text) → Type 0
IsFilled = All (λ e. is_empty e.1 ≡ false)

pub get_elem?-value_at :
    (vs : List Text) (i : ℕ) → i < length vs → get_elem? vs i ≡ some (value_at vs i)
get_elem?-value_at [] i h = elim h [ ]
get_elem?-value_at (v ∷ vs) zero h = refl
get_elem?-value_at (v ∷ vs) (suc i) h = get_elem?-value_at vs i (omega arith)

pub drop-value_at :
    (vs : List Text) (i : ℕ) → i < length vs → drop i vs ≡ value_at vs i ∷ drop (suc i) vs
drop-value_at [] i h = elim h [ ]
drop-value_at (v ∷ vs) zero h = refl
drop-value_at (v ∷ vs) (suc i) h = drop-value_at vs i (omega arith)

pub drop-length : (vs : List Text) → drop (length vs) vs ≡ []
drop-length [] = refl
drop-length (v ∷ vs) = drop-length vs

-- At the start everything is left.
pub remaining-zeros : (m : Map (List Text)) → IsFilled m → remaining m (zeros m) ≡ combinations m
unfolding remaining
remaining-zeros [] h = refl
remaining-zeros ((k, []) ∷ m) (e, h) = ground arith
remaining-zeros ((k, v ∷ vs) ∷ m) (e, h) = rw (remaining-zeros m h)

with_each-nil : (k : Text) (vs : List Text) → with_each k vs [] ≡ []
unfolding with_each
with_each-nil k [] = refl
with_each-nil k (v ∷ vs) = with_each-nil k vs

-- A key without values leaves no combination.
pub combinations-empty :
    (m : Map (List Text)) → any (λ e. is_empty e.1) m ≡ true → combinations m ≡ []
unfolding combinations
combinations-empty [] h = ground arith
combinations-empty ((k, []) ∷ m) h = refl
combinations-empty ((k, v ∷ vs) ∷ m) h = rw (combinations-empty m h) (with_each-nil k (v ∷ vs))
