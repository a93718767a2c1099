-- ===== src/Core/MapPermutator.antt =====
-- src/core/include/core/mapPermutator.h: the iterator over all combinations that take one value of
-- each key of a map. `none` stands for undefined behaviour: a `.at` that throws inside a `noexcept`
-- function, or a read outside a vector.
pub mod Combinations
pub mod Advance
pub mod Visit
use exec_helper.Prelude.{
  Text, text_eq, ℕ, zero, suc, ◌+◌, ◌%◌, ◌^◌, List, [], ◌∷◌, Option, none, some, Bool, true, false,
  ◌&&◌, ◌||◌, ◌==◌, if◌then◌else◌, ◌>>=◌, value_or, length, get_elem?, all, is_empty,
}
use exec_helper.OrderedMap.{Map, find, emplace}

-- An index is a `uint32_t`.
abbrev pub uint32_modulus : ℕ
uint32_modulus = 2 ^ 32

pub record Iterator : Type 0 where
  pub values : Map (List Text)
  pub indexes : Map ℕ
  pub at_end : Bool

-- The loop of the constructor.
pub fill_indexes : Map (List Text) → Map ℕ → Bool → Map ℕ × Bool
fill_indexes [] indexes at_end = (indexes, at_end)
fill_indexes ((k, vs) ∷ m) indexes at_end =
    let at_end' = is_empty vs || at_end in
    let index : ℕ = if at_end' then length vs % uint32_modulus else 0 in
    fill_indexes m (emplace k index indexes) at_end'

unfoldable pub make_iterator : Map (List Text) → Bool → Iterator
unfolding fill_indexes
make_iterator m at_end =
    let filled = fill_indexes m [] at_end in
    record { values = m; indexes = filled.0; at_end = filled.1 }

-- One round of the loop of `operator++`, behind the entries that it has passed; `true` says that the
-- loop has not met its `break`.
pub advance : Map (List Text) → Text → ℕ → Map ℕ × Bool → Option (Map ℕ × Bool)
advance m k i (rest, false) = some ((k, i) ∷ rest, false)
advance m k i (rest, true) = do
  vs ← find k m
  let i' = (i + 1) % uint32_modulus
  if i' == length vs then some ((k, 0) ∷ rest, true) else some ((k, i') ∷ rest, false)

-- The loop runs from the last entry to the first.
pub advance_all : Map (List Text) → Map ℕ → Option (Map ℕ × Bool)
unfolding advance
advance_all m [] = some ([], true)
advance_all m ((k, i) ∷ indexes) = advance_all m indexes >>= advance m k i

unfoldable pub next : Iterator → Option Iterator
unfolding advance_all
next it =
    if it.at_end
    then some it
    else (advance_all it.values it.indexes >>= λ r.
        some (record it { indexes = r.0; at_end = r.1 }))

unfoldable pub values_eq : List Text → List Text → Bool
values_eq [] [] = true
values_eq (a ∷ as') (b ∷ bs) = text_eq a b && values_eq as' bs
values_eq _ _ = false

unfoldable pub map_eq : Map (List Text) → Map (List Text) → Bool
map_eq [] [] = true
map_eq ((j, vs) ∷ m) ((k, ws) ∷ n) = text_eq j k && values_eq vs ws && map_eq m n
map_eq _ _ = false

-- `other.m_indexes[key]` is 0 at a key that is not there.
unfoldable pub equal : Iterator → Iterator → Bool
unfolding map_eq values_eq
equal it other =
    if map_eq it.values other.values
    then if it.at_end && other.at_end
      then true
      else all (λ e. e.1 == value_or (find e.0 other.indexes) 0) it.indexes
    else false

pub read : Map (List Text) → Map ℕ → Map Text → Option (Map Text)
read m [] result = some result
read m ((k, i) ∷ indexes) result = do
  vs ← find k m
  v ← get_elem? vs i
  read m indexes (emplace k v result)

unfoldable pub dereference : Iterator → Option (Map Text)
unfolding read
dereference it = read it.values it.indexes []

unfoldable pub begin_iterator : Map (List Text) → Iterator
unfolding make_iterator
begin_iterator m = make_iterator m false

unfoldable pub end_iterator : Map (List Text) → Iterator
unfolding make_iterator
end_iterator m = make_iterator m true

-- What a range-based loop from an iterator up to another one visits; `none` too when the fuel is out.
pub visit : ℕ → Iterator → Iterator → Option (List (Map Text))
visit zero it last = none
visit (suc fuel) it last =
    let more = (do
      now ← dereference it
      it' ← next it
      others ← visit fuel it' last
      some (now ∷ others)) in
    if equal it last then some [] else more

unfoldable pub permutations : ℕ → Map (List Text) → Option (List (Map Text))
unfolding visit next dereference equal begin_iterator end_iterator
permutations fuel m = visit fuel (begin_iterator m) (end_iterator m)
