-- ===== src/Core/PermutationIterator/Visit.antt =====
-- The iterator of src/core/include/core/permutationIterator.h visits exactly the tuples of its
-- collections.
use exec_helper.Prelude.{
  ℕ, zero, suc, ◌<◌, List, [], ◌∷◌, some, Bool, true, false, ◌==◌, if◌then◌else◌, length, is_empty,
  ◌≡◌, refl, arith,
}
use exec_helper.Prelude.{map, sym, ap, ◌∙◌, Bool-cases, inl, inr}
use exec_helper.Core.PermutationIterator.{
  PermutationIterator, single, nested, at_end, restart, has_empty_collection, new_iterator,
  increment, iterator_eq, visit,
}
use exec_helper.Prelude.{subst}
use exec_helper.Core.PermutationIterator.Product.{prefixed, product, prefixed-nil}
use exec_helper.Core.PermutationIterator.Steps.{
  IsLive, Step, full, increment-Step, remaining, remaining-at_end,
}

module _ {ℓ} {V : Type ℓ} where
  -- An iterator over the same collections that is at the end.
  abbrev IsEnd : PermutationIterator V → PermutationIterator V → Type 0
  IsEnd (single begin current) (single begin' current') = is_empty current' ≡ true
  IsEnd (nested begin current inner) (nested begin' current' inner') = is_empty current' ≡ true
  IsEnd _ _ = ⊥

  length-is_empty : (vs : List V) → (length vs == 0) ≡ is_empty vs
  length-is_empty [] = refl
  length-is_empty (v ∷ vs) = ground arith

  iterator_eq-IsEnd :
      (it end : PermutationIterator V) → IsEnd it end → iterator_eq it end ≡ at_end it
  unfolding iterator_eq at_end
  iterator_eq-IsEnd (single begin current) (single begin' []) h = length-is_empty current
  iterator_eq-IsEnd (single begin current) (single begin' (v ∷ current')) h = ground arith
  iterator_eq-IsEnd (single begin current) (nested begin' current' inner') h = absurd h
  iterator_eq-IsEnd (nested begin current inner) (single begin' current') h = absurd h
  iterator_eq-IsEnd (nested begin [] inner) (nested begin' [] inner') h = refl
  iterator_eq-IsEnd (nested begin (v ∷ current) inner) (nested begin' [] inner') h = ground arith
  iterator_eq-IsEnd (nested begin current inner) (nested begin' (v ∷ current') inner') h =
      ground arith

  carry-IsEnd :
      (begin current : List V) (v : V) (inner : PermutationIterator V) (end : PermutationIterator V)
      → IsEnd (nested begin (v ∷ current) inner) end
      → (next : PermutationIterator V) (b : Bool)
      → IsEnd
          (if b then nested begin current (restart next) else nested begin (v ∷ current) next)
          end
  carry-IsEnd begin current v inner (single begin' current') h next b = absurd h
  carry-IsEnd begin current v inner (nested begin' current' inner') h next true = h
  carry-IsEnd begin current v inner (nested begin' current' inner') h next false = h

  increment-IsEnd : (it end : PermutationIterator V) → IsEnd it end → IsEnd (increment it) end
  unfolding increment
  increment-IsEnd (single begin []) end h = h
  increment-IsEnd (single begin (v ∷ current)) (single begin' current') h = h
  increment-IsEnd (single begin (v ∷ current)) (nested begin' current' inner') h = absurd h
  increment-IsEnd (nested begin [] inner) end h = h
  increment-IsEnd (nested begin (v ∷ current) inner) end h =
      carry-IsEnd begin current v inner end h _ _

  visit-Step :
      (fuel : ℕ) (it end : PermutationIterator V) (s : Step it)
      → IsEnd it end
      → at_end it ≡ false
      → visit fuel s.next end ≡ some (remaining s.next)
      → visit (suc fuel) it end ≡ some (remaining it)
  unfolding visit
  visit-Step fuel it end s m e r =
      rw (iterator_eq-IsEnd it end m, e, s.value_lem, s.next_lem, r, s.remaining_lem)

  visit-remaining :
      (fuel : ℕ) (it end : PermutationIterator V)
      → IsLive it
      → IsEnd it end
      → length (remaining it) < fuel
      → visit fuel it end ≡ some (remaining it)
  unfolding visit
  visit-remaining zero it end h m f = absurd (omega arith)
  visit-remaining (suc fuel) it end h m f = elim (Bool-cases (at_end it)) [
    | inl e ↦ rw (iterator_eq-IsEnd it end m, e, remaining-at_end it e)
    | inr e ↦
        let s = increment-Step it h e in
        visit-Step fuel it end s m e (
          visit-remaining fuel s.next end s.live
            (subst (λ n. IsEnd n end) s.next_lem (increment-IsEnd it end m))
            (shorter _ _ _ (ap length s.remaining_lem) f))
  ]
    where
      shorter :
          (l l' : List (List V)) (fuel : ℕ)
          → length l ≡ suc (length l')
          → length l < suc fuel
          → length l' < fuel
      shorter l l' fuel e f = omega arith

  new_iterator-full :
      (vs : List V) (others : List (List V)) → full (new_iterator vs others) ≡ product (vs ∷ others)
  unfolding new_iterator
  new_iterator-full vs [] = refl
  new_iterator-full vs (ws ∷ others) = ap (prefixed vs) (new_iterator-full ws others)

  new_iterator-empty :
      (vs : List V) (others : List (List V))
      → has_empty_collection (new_iterator vs others) ≡ true
      → (at_end (new_iterator vs others) ≡ true) × (product (vs ∷ others) ≡ [])
  unfolding new_iterator has_empty_collection at_end
  new_iterator-empty [] [] h = (refl, refl)
  new_iterator-empty (v ∷ vs) [] h = ground arith
  new_iterator-empty [] (ws ∷ others) h = (refl, refl)
  new_iterator-empty (v ∷ vs) (ws ∷ others) h =
      let rest = new_iterator-empty ws others h in (rw h, rw rest.1 (prefixed-nil vs))

  new_iterator-IsLive :
      (vs : List V) (others : List (List V))
      → has_empty_collection (new_iterator vs others) ≡ false
      → IsLive (new_iterator vs others)
        × (at_end (new_iterator vs others) ≡ false)
        × (remaining (new_iterator vs others) ≡ full (new_iterator vs others))
  unfolding new_iterator has_empty_collection at_end
  new_iterator-IsLive [] [] h = ground arith
  new_iterator-IsLive (v ∷ vs) [] h = (refl, refl, refl)
  new_iterator-IsLive [] (ws ∷ others) h = ground arith
  new_iterator-IsLive (v ∷ vs) (ws ∷ others) h =
      let rest = new_iterator-IsLive ws others h in ((refl, rest.1, rest.0), rw h, rw (h, rest.2))

  -- The iterator that the loop ends at.
  abbrev pub end_iterator : List (List V) → PermutationIterator V
  end_iterator others = new_iterator [] (map (λ vs. []) others)

  new_iterator-IsEnd :
      (vs : List V) (others : List (List V)) → IsEnd (new_iterator vs others) (end_iterator others)
  unfolding new_iterator
  new_iterator-IsEnd vs [] = refl
  new_iterator-IsEnd vs (ws ∷ others) = refl

  visit_end :
      (fuel : ℕ) (it end : PermutationIterator V)
      → IsEnd it end
      → at_end it ≡ true
      → 0 < fuel
      → visit fuel it end ≡ some []
  unfolding visit
  visit_end zero it end m e f = absurd (omega arith)
  visit_end (suc fuel) it end m e f = rw (iterator_eq-IsEnd it end m, e)

  -- The loop over the iterator, from the begins of at least one collection to their ends, ends within
  -- one round more than there are tuples, and visits exactly the tuples with one value of each
  -- collection, the last one changing first; if a collection is empty it makes no round.
  pub visit-product :
      (fuel : ℕ) (vs : List V) (others : List (List V))
      → length (product (vs ∷ others)) < fuel
      → visit fuel (new_iterator vs others) (end_iterator others) ≡ some (product (vs ∷ others))
  visit-product fuel vs others f = elim (Bool-cases (has_empty_collection it)) [
    | inl e ↦
        let empty = new_iterator-empty vs others e in
        visit_end fuel it (end_iterator others) (new_iterator-IsEnd vs others) empty.0 (omega arith)
        ∙ ap some (sym empty.1)
    | inr e ↦
        let live = new_iterator-IsLive vs others e in
        let r = live.2 ∙ new_iterator-full vs others in
        visit-remaining fuel it (end_iterator others) live.0 (new_iterator-IsEnd vs others)
          (subst (λ l. length l < fuel) (sym r) f)
        ∙ ap some r
  ]
    where
      it : PermutationIterator V
      it = new_iterator vs others
