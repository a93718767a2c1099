-- ===== src/Core/PermutationIterator.antt =====
-- src/core/include/core/permutationIterator.h: an iterator over the tuples of several collections. A
-- const_iterator of a collection is the list of the elements from it to the end; all collections have
-- one type of elements here, and a tuple is a list.
pub mod Product
pub mod Objects
pub mod Steps
pub mod Visit
use exec_helper.Prelude.{
  ℕ, zero, suc, ◌+◌, List, [], ◌∷◌, ◌++◌, Option, none, some, Bool, false, not, ◌&&◌, ◌||◌, ◌==◌,
  if◌then◌else◌, length, is_empty,
}
use exec_helper.Prelude.{◌>>=◌, get_elem?}

-- The begin of a collection and the current position in it, for the last collection, and for another
-- with the iterator over the collections behind it.
pub data PermutationIterator {ℓ} (V : Type ℓ) : Type ℓ where
  single : List V → List V → PermutationIterator V
  nested : List V → List V → PermutationIterator V → PermutationIterator V

module _ {ℓ} {V : Type ℓ} where
  -- The elements of a tuple at some positions.
  unfoldable pub get_all : List ℕ → List V → Option (List V)
  get_all [] tuple = some []
  get_all (i ∷ is) tuple = get_elem? tuple i >>= λ v. get_all is tuple >>= λ vs. some (v ∷ vs)

  -- `atEnd`.
  unfoldable pub at_end : PermutationIterator V → Bool
  at_end (single begin current) = is_empty current
  at_end (nested begin current inner) = is_empty current

  unfoldable pub restart : PermutationIterator V → PermutationIterator V
  restart (single begin current) = single begin begin
  restart (nested begin current inner) = nested begin begin (restart inner)

  unfoldable pub has_empty_collection : PermutationIterator V → Bool
  has_empty_collection (single begin current) = is_empty begin
  has_empty_collection (nested begin current inner) = is_empty begin || has_empty_collection inner

  -- The constructors, for the first collection and the others.
  unfoldable pub new_iterator : List V → List (List V) → PermutationIterator V
  unfolding has_empty_collection
  new_iterator begin [] = single begin begin
  new_iterator begin (other ∷ others) =
      let inner = new_iterator other others in
      nested begin (if is_empty begin || has_empty_collection inner then [] else begin) inner

  -- What `operator++` does to the outer position once the inner iterator has been advanced.
  abbrev pub carry : List V → V → List V → PermutationIterator V → PermutationIterator V
  carry begin v current inner =
      if at_end inner
      then nested begin current (restart inner)
      else nested begin (v ∷ current) inner

  -- `operator++`.
  unfoldable pub increment : PermutationIterator V → PermutationIterator V
  unfolding at_end restart
  increment (single begin []) = single begin []
  increment (single begin (v ∷ current)) = single begin current
  increment (nested begin [] inner) = nested begin [] inner
  increment (nested begin (v ∷ current) inner) =
      let advanced = increment inner in
      carry begin v current (if not (at_end inner) then advanced else inner)

  -- `operator==` of two iterators over the same collections. Two constructors that differ stand for
  -- two types, of which the code compares no iterators.
  unfoldable pub iterator_eq : PermutationIterator V → PermutationIterator V → Bool
  unfolding at_end
  iterator_eq (single begin current) (single begin' current') = length current == length current'
  iterator_eq (nested begin current inner) (nested begin' current' inner') =
      let inner_eq = iterator_eq inner inner' in
      let outer_eq = length current == length current' in
      if is_empty current then outer_eq else inner_eq && outer_eq
  iterator_eq _ _ = false

  -- `getElementValue`; the end has no value.
  unfoldable pub get_element_value : PermutationIterator V → Option (List V)
  get_element_value (single begin []) = none
  get_element_value (single begin (v ∷ current)) = some (v ∷ [])
  get_element_value (nested begin [] inner) = none
  get_element_value (nested begin (v ∷ current) inner) =
      get_element_value inner >>= λ vs. some (v ∷ vs)

  -- A loop from one iterator to another, on fuel.
  unfoldable pub visit : ℕ → PermutationIterator V → PermutationIterator V → Option (List (List V))
  unfolding iterator_eq get_element_value increment
  visit zero it end = none
  visit (suc fuel) it end =
      let rest = visit fuel (increment it) end in
      if iterator_eq it end
      then some []
      else (get_element_value it >>= λ vs. rest >>= λ vss. some (vs ∷ vss))

module _ {ℓ ℓ'} {V : Type ℓ} {R : Type ℓ'} (construct : List V → R) where
  -- `createObject` of core/createObject.h: the positions are collected until there is one for each
  -- element of the tuple, and the elements at them are given to the constructor.
  unfoldable pub get_object : ℕ → List ℕ → List V → Option R
  get_object zero indexes tuple = get_all indexes tuple >>= λ vs. some (construct vs)
  get_object (suc missing) indexes tuple = get_object missing (indexes ++ length indexes ∷ []) tuple

  -- `operator*` of an iterator over several collections.
  unfoldable pub dereference : PermutationIterator V → Option R
  unfolding get_object
  dereference (single begin current) = none
  dereference (nested begin [] inner) = none
  dereference (nested begin (v ∷ current) inner) =
      if at_end inner
      then none
      else (get_element_value (nested begin (v ∷ current) inner) >>= λ vs.
          get_object (length vs) [] vs)
