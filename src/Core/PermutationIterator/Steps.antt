-- ===== src/Core/PermutationIterator/Steps.antt =====
-- What a step of the iterator of src/core/include/core/permutationIterator.h does to the tuples that
-- remain to be visited.
use exec_helper.Prelude.{
  List, [], ◌∷◌, ◌++◌, some, true, false, if◌then◌else◌, is_empty, ◌≡◌, refl, arith,
}
use exec_helper.Prelude.{map, ap, ◌∙◌, Bool-cases, inl, inr}
use exec_helper.Core.PermutationIterator.{
  PermutationIterator, single, nested, at_end, restart, increment, get_element_value,
}
use exec_helper.Core.PermutationIterator.Product.{prefixed}

module _ {ℓ} {V : Type ℓ} where
  -- The tuples of all collections of an iterator, and those from its position on.
  abbrev pub full : PermutationIterator V → List (List V)
  full (single begin current) = prefixed begin ([] ∷ [])
  full (nested begin current inner) = prefixed begin (full inner)

  abbrev pub remaining : PermutationIterator V → List (List V)
  remaining (single begin current) = prefixed current ([] ∷ [])
  remaining (nested begin [] inner) = []
  remaining (nested begin (v ∷ current) inner) =
      map (λ t. v ∷ t) (remaining inner) ++ prefixed current (full inner)

  -- No collection is empty, and no iterator inside is at its end.
  abbrev pub IsLive : PermutationIterator V → Type 0
  IsLive (single begin current) = is_empty begin ≡ false
  IsLive (nested begin current inner) =
      (is_empty begin ≡ false) × (at_end inner ≡ false) × IsLive inner

  full-restart : (it : PermutationIterator V) → full (restart it) ≡ full it
  unfolding restart
  full-restart (single begin current) = refl
  full-restart (nested begin current inner) = ap (prefixed begin) (full-restart inner)

  remaining-restart : (it : PermutationIterator V) → remaining (restart it) ≡ full it
  unfolding restart
  remaining-restart (single begin current) = refl
  remaining-restart (nested [] current inner) = refl
  remaining-restart (nested (v ∷ begin) current inner) =
      rw (remaining-restart inner, full-restart inner)

  restart-IsLive :
      (it : PermutationIterator V) → IsLive it → IsLive (restart it) × (at_end (restart it) ≡ false)
  unfolding restart at_end
  restart-IsLive (single begin current) h = (h, h)
  restart-IsLive (nested begin current inner) (b, e, h) =
      let rest = restart-IsLive inner h in ((b, rest.1, rest.0), b)

  pub remaining-at_end : (it : PermutationIterator V) → at_end it ≡ true → remaining it ≡ []
  unfolding at_end
  remaining-at_end (single begin []) h = refl
  remaining-at_end (single begin (v ∷ current)) h = ground arith
  remaining-at_end (nested begin [] inner) h = refl
  remaining-at_end (nested begin (v ∷ current) inner) h = ground arith

  -- A step from a position that is not the end: the value there is the first of the remaining ones, and
  -- the others remain.
  pub record Step (it : PermutationIterator V) : Type ℓ where
    pub value : List V
    pub value_lem : get_element_value it ≡ some value
    pub next : PermutationIterator V
    pub next_lem : increment it ≡ next
    pub remaining_lem : remaining it ≡ value ∷ remaining next
    pub live : IsLive next
    pub full_lem : full next ≡ full it

  increment-nested :
      (begin current : List V) (v : V) (inner next : PermutationIterator V)
      → at_end inner ≡ false
      → increment inner ≡ next
      → increment (nested begin (v ∷ current) inner) ≡ (
          if at_end next
          then nested begin current (restart next)
          else nested begin (v ∷ current) next)
  unfolding increment
  increment-nested begin current v inner next e n = rw (e, n)

  remaining-restart_nested :
      (begin current : List V) (inner : PermutationIterator V)
      → remaining (nested begin current (restart inner)) ≡ prefixed current (full inner)
  remaining-restart_nested begin [] inner = refl
  remaining-restart_nested begin (v ∷ current) inner =
      rw (remaining-restart inner, full-restart inner)

  nested-Step :
      (begin current : List V) (v : V) (inner : PermutationIterator V)
      → is_empty begin ≡ false
      → at_end inner ≡ false
      → Step inner
      → Step (nested begin (v ∷ current) inner)
  unfolding get_element_value
  nested-Step begin current v inner b i s = elim (Bool-cases (at_end s.next)) [
    | inl e ↦ record {
      value = v ∷ s.value;
      value_lem = rw s.value_lem;
      next = nested begin current (restart s.next);
      next_lem = increment-nested begin current v inner s.next i s.next_lem ∙ rw e;
      remaining_lem = rw (
        s.remaining_lem,
        remaining-at_end s.next e,
        remaining-restart_nested begin current s.next,
        s.full_lem,
      );
      live = (b, (restart-IsLive s.next s.live).1, (restart-IsLive s.next s.live).0);
      full_lem = ap (prefixed begin) (full-restart s.next ∙ s.full_lem);
    }
    | inr e ↦ record {
      value = v ∷ s.value;
      value_lem = rw s.value_lem;
      next = nested begin (v ∷ current) s.next;
      next_lem = increment-nested begin current v inner s.next i s.next_lem ∙ rw e;
      remaining_lem = rw (s.remaining_lem, s.full_lem);
      live = (b, e, s.live);
      full_lem = ap (prefixed begin) s.full_lem;
    }
  ]

  pub increment-Step : (it : PermutationIterator V) → IsLive it → at_end it ≡ false → Step it
  unfolding increment at_end get_element_value
  increment-Step (single begin []) h e = ground arith
  increment-Step (single begin (v ∷ current)) h e = record {
    value = v ∷ [];
    value_lem = refl;
    next = single begin current;
    next_lem = refl;
    remaining_lem = refl;
    live = h;
    full_lem = refl;
  }
  increment-Step (nested begin [] inner) h e = ground arith
  increment-Step (nested begin (v ∷ current) inner) (b, i, h) e =
      nested-Step begin current v inner b i (increment-Step inner h i)
