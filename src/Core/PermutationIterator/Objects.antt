-- ===== src/Core/PermutationIterator/Objects.antt =====
-- The object that an iterator of src/core/include/core/permutationIterator.h is dereferenced to.
use exec_helper.Prelude.{ℕ, List, [], ◌∷◌, ◌++◌, Option, none, some, true, length, ◌≡◌, refl, arith}
use exec_helper.Prelude.{
  ◌>>=◌, sym, ap, ◌∙◌, append_assoc, append-nil, Bool-cases, inl, inr, length-append, get_elem?,
  subst,
}
use exec_helper.Core.PermutationIterator.{
  PermutationIterator, single, nested, at_end, get_element_value, get_all, get_object, dereference,
}

module _ {ℓ} {V : Type ℓ} where
  get_elem-append : (xs ys : List V) (v : V) → get_elem? (xs ++ v ∷ ys) (length xs) ≡ some v
  get_elem-append [] ys v = refl
  get_elem-append (x ∷ xs) ys v = get_elem-append xs ys v

  bind_snoc :
      (oj oi : Option V) (os : Option (List V))
      → (oj >>= λ v'. (os >>= λ vs. oi >>= λ v. some (vs ++ v ∷ [])) >>= λ vs'. some (v' ∷ vs'))
        ≡ ((oj >>= λ v'. os >>= λ vs'. some (v' ∷ vs')) >>= λ vs. oi >>= λ v. some (vs ++ v ∷ []))
  bind_snoc none oi os = refl
  bind_snoc (some w) oi none = refl
  bind_snoc (some w) none (some vs) = refl
  bind_snoc (some w) (some v) (some vs) = refl

  get_all-append :
      (indexes : List ℕ) (i : ℕ) (tuple : List V)
      → get_all (indexes ++ i ∷ []) tuple
        ≡ (get_all indexes tuple >>= λ vs. get_elem? tuple i >>= λ v. some (vs ++ v ∷ []))
  unfolding get_all
  get_all-append [] i tuple = refl
  get_all-append (j ∷ indexes) i tuple =
      ap (λ (o : Option (List V)). get_elem? tuple j >>= λ v'. o >>= λ vs'. some (v' ∷ vs'))
        (get_all-append indexes i tuple)
      ∙ bind_snoc (get_elem? tuple j) (get_elem? tuple i) (get_all indexes tuple)

  get_element_value-at_end :
      (it : PermutationIterator V) → at_end it ≡ true → get_element_value it ≡ none
  unfolding at_end get_element_value
  get_element_value-at_end (single begin []) e = refl
  get_element_value-at_end (single begin (v ∷ current)) e = ground arith
  get_element_value-at_end (nested begin [] inner) e = refl
  get_element_value-at_end (nested begin (v ∷ current) inner) e = ground arith

  next-get_all :
      (seen rest : List V) (indexes : List ℕ) (v : V)
      → get_all indexes (seen ++ v ∷ rest) ≡ some seen
      → length indexes ≡ length seen
      → get_all (indexes ++ length indexes ∷ []) ((seen ++ v ∷ []) ++ rest) ≡ some (seen ++ v ∷ [])
  next-get_all seen rest indexes v e l = rw (
    append_assoc seen (v ∷ []) rest,
    get_all-append indexes (length indexes) (seen ++ v ∷ rest),
    e,
    l,
    get_elem-append seen rest v,
  )

  next-length :
      (seen : List V) (indexes : List ℕ) (v : V)
      → length indexes ≡ length seen
      → length (indexes ++ length indexes ∷ []) ≡ length (seen ++ v ∷ [])
  next-length seen indexes v l =
      rw (length-append indexes (length indexes ∷ []), length-append seen (v ∷ []), l)

  get_element_value-nested :
      (begin current : List V) (v : V) (inner : PermutationIterator V)
      → get_element_value (nested begin (v ∷ current) inner)
        ≡ (get_element_value inner >>= λ vs. some (v ∷ vs))
  unfolding get_element_value
  get_element_value-nested begin current v inner = refl

module _ {ℓ ℓ'} {V : Type ℓ} {R : Type ℓ'} (construct : List V → R) where
  get_object-append :
      (seen rest : List V) (indexes : List ℕ)
      → get_all indexes (seen ++ rest) ≡ some seen
      → length indexes ≡ length seen
      → get_object construct (length rest) indexes (seen ++ rest) ≡ some (construct (seen ++ rest))
  unfolding get_object
  get_object-append seen [] indexes e l =
      rw e (ap (λ t. some (construct t)) (sym (append-nil seen)))
  get_object-append seen (v ∷ rest) indexes e l =
      subst
        (λ t.
          get_object construct (length rest) (indexes ++ length indexes ∷ []) t
          ≡ some (construct t))
        (append_assoc seen (v ∷ []) rest)
        (get_object-append (seen ++ v ∷ []) rest (indexes ++ length indexes ∷ [])
          (next-get_all seen rest indexes v e l) (next-length seen indexes v l))

  objects :
      (o : Option (List V))
      → (o >>= λ vs. get_object construct (length vs) [] vs) ≡ (o >>= λ vs. some (construct vs))
  unfolding get_all
  objects none = refl
  objects (some vs) = get_object-append [] vs [] refl refl

  -- Dereferencing an iterator over several collections gives what the constructor makes of the elements
  -- that the iterator points to, in the order of the collections; the end of the iterator has no object.
  pub dereference-get_element_value :
      (begin current : List V) (inner : PermutationIterator V)
      → dereference construct (nested begin current inner)
        ≡ (get_element_value (nested begin current inner) >>= λ vs. some (construct vs))
  unfolding dereference get_element_value
  dereference-get_element_value begin [] inner = refl
  dereference-get_element_value begin (v ∷ current) inner = elim (Bool-cases (at_end inner)) [
    | inl e ↦
        rw (e, get_element_value-nested begin current v inner, get_element_value-at_end inner e)
    | inr e ↦ rw e (objects (get_element_value (nested begin (v ∷ current) inner)))
  ]
