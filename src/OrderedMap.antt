-- ===== src/OrderedMap.antt =====
-- `std::map<std::string, V>` as the program uses it: the entries in the order of their keys.
pub mod Laws
use exec_helper.Prelude.{
  Text, text_eq, text_lt, List, [], ◌∷◌, Option, none, some, Bool, true, ◌≡◌, if◌then◌else◌,
  is_some, All,
}

abbrev pub Map {ℓ} : Type ℓ → Type ℓ
Map V = List (Text × V)

module _ {ℓ} {V : Type ℓ} where
  -- `at`, with `none` where it throws.
  unfoldable pub find : Text → Map V → Option V
  find k [] = none
  find k ((j, w) ∷ m) = if text_eq k j then some w else find k m

  -- `count(k) > 0`.
  unfoldable pub contains : Text → Map V → Bool
  contains k m = is_some (find k m)

  -- `emplace` and `insert`: an entry that is there stays.
  unfoldable pub emplace : Text → V → Map V → Map V
  emplace k v [] = (k, v) ∷ []
  emplace k v ((j, w) ∷ m) =
      if text_lt k j
      then (k, v) ∷ (j, w) ∷ m
      else if text_eq k j
      then (j, w) ∷ m
      else (j, w) ∷ emplace k v m

  -- `m[k] = v`.
  unfoldable pub assign : Text → V → Map V → Map V
  assign k v [] = (k, v) ∷ []
  assign k v ((j, w) ∷ m) =
      if text_lt k j
      then (k, v) ∷ (j, w) ∷ m
      else if text_eq k j
      then (k, v) ∷ m
      else (j, w) ∷ assign k v m

  unfoldable pub erase : Text → Map V → Map V
  erase k [] = []
  erase k ((j, w) ∷ m) = if text_eq k j then m else (j, w) ∷ erase k m

  -- Every key of the map is behind `k`.
  abbrev pub Above : Text → Map V → Type 0
  Above k = All (λ e. text_lt k e.0 ≡ true)

  abbrev pub IsSorted : Map V → Type 0
  IsSorted [] = Unit
  IsSorted ((k, v) ∷ m) = Above k m × IsSorted m
