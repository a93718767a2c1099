-- ===== src/Core/MapPermutator/Visit.antt =====
-- The range-based loop over the permutations visits exactly the combinations, in their order.
use exec_helper.Prelude.{
  Text, text_eq_refl, text_eq_comm, text_lt, text_lt-ne, ℕ, zero, suc, ◌%◌, ◌<◌, List, [], ◌∷◌,
  ◌++◌, append_assoc, append-nil, some, Bool, true, false, ◌>>=◌, length, any, is_empty, ◌≡◌, ◌≢◌,
  refl, ap, All, All-map, All-append, arith, Bool-cases, inl, inr,
}
use exec_helper.OrderedMap.{Map, find, Above, IsSorted}
use exec_helper.OrderedMap.Laws.{emplace-last}
use exec_helper.Core.MapPermutator.{
  Iterator, uint32_modulus, fill_indexes, make_iterator, next, values_eq, map_eq, equal, read,
  dereference, visit, permutations,
}
use exec_helper.Core.MapPermutator.Combinations.{
  combinations, current, remaining, zeros, IsFilled, get_elem?-value_at, remaining-zeros,
  combinations-empty,
}
use exec_helper.Core.MapPermutator.Advance.{Aligned, Found, Advanced, advance_all-Advanced}

-- Every key of the first map is before every key of the second.
abbrev pub Before {ℓ κ} : {V : Type ℓ} {W : Type κ} → Map V → Map W → Type 0
Before xs m = All (λ e. Above e.0 m) xs

pub Before-nil {ℓ κ} :
    {V : Type ℓ} {W : Type κ} (xs : Map V) (k : Text) (w : W) (m : Map W)
    → Before xs ((k, w) ∷ m)
    → All (λ e. text_lt e.0 k ≡ true) xs
Before-nil xs k w m h = All-map (λ e p. p.0) xs h

pub Before-cons {ℓ κ} :
    {V : Type ℓ} {W : Type κ} (xs : Map V) (k : Text) (v : V) (w : W) (m : Map W)
    → Before xs ((k, w) ∷ m)
    → Above k m
    → Before (xs ++ (k, v) ∷ []) m
Before-cons xs k v w m h a =
    All-append (λ e. Above e.0 m) xs ((k, v) ∷ []) (All-map (λ e p. p.1) xs h) (a, tt)

abbrev sizes : Map (List Text) → Map ℕ
sizes [] = []
sizes ((k, vs) ∷ m) = (k, length vs % uint32_modulus) ∷ sizes m

fill_indexes-zeros :
    (m : Map (List Text)) (xs : Map ℕ)
    → IsSorted m
    → IsFilled m
    → Before xs m
    → fill_indexes m xs false ≡ (xs ++ zeros m, false)
unfolding fill_indexes
fill_indexes-zeros [] xs s f b = rw append-nil
fill_indexes-zeros ((k, vs) ∷ m) xs (a, s) (e, f) b = rw (
  e,
  emplace-last k 0 xs (Before-nil xs k vs m b),
  fill_indexes-zeros m _ s f (Before-cons xs k 0 vs m b a),
  append_assoc,
)

fill_indexes-sizes :
    (m : Map (List Text)) (xs : Map ℕ)
    → IsSorted m
    → Before xs m
    → fill_indexes m xs true ≡ (xs ++ sizes m, true)
unfolding fill_indexes
fill_indexes-sizes [] xs s b = rw append-nil
fill_indexes-sizes ((k, []) ∷ m) xs (a, s) b = rw (
  emplace-last k 0 xs (Before-nil xs k [] m b),
  fill_indexes-sizes m _ s (Before-cons xs k 0 [] m b a),
  append_assoc,
)
fill_indexes-sizes ((k, v ∷ vs) ∷ m) xs (a, s) b = rw (
  emplace-last k _ xs (Before-nil xs k (v ∷ vs) m b),
  fill_indexes-sizes m _ s (Before-cons xs k _ (v ∷ vs) m b a),
  append_assoc,
)

fill_indexes_end : (m : Map (List Text)) (xs : Map ℕ) → (fill_indexes m xs true).1 ≡ true
unfolding fill_indexes
fill_indexes_end [] xs = refl
fill_indexes_end ((k, []) ∷ m) xs = fill_indexes_end m _
fill_indexes_end ((k, v ∷ vs) ∷ m) xs = fill_indexes_end m _

fill_indexes_empty :
    (m : Map (List Text)) (xs : Map ℕ)
    → any (λ e. is_empty e.1) m ≡ true
    → (fill_indexes m xs false).1 ≡ true
unfolding fill_indexes
fill_indexes_empty [] xs h = ground arith
fill_indexes_empty ((k, []) ∷ m) xs h = fill_indexes_end m _
fill_indexes_empty ((k, v ∷ vs) ∷ m) xs h = fill_indexes_empty m _ h

values_eq_refl : (vs : List Text) → values_eq vs vs ≡ true
unfolding values_eq
values_eq_refl [] = refl
values_eq_refl (v ∷ vs) = rw (text_eq_refl v) (values_eq_refl vs)

map_eq_refl : (m : Map (List Text)) → map_eq m m ≡ true
unfolding map_eq
map_eq_refl [] = refl
map_eq_refl ((k, vs) ∷ m) = rw (text_eq_refl k, values_eq_refl vs) (map_eq_refl m)

Found-cons :
    (k : Text) (vs : List Text) (whole m : Map (List Text))
    → Above k m
    → Found whole m
    → Found ((k, vs) ∷ whole) m
unfolding find
Found-cons k vs whole [] a f = tt
Found-cons k vs whole ((j, ws) ∷ m) (p, a) (e, f) =
    (rw (text_eq_comm j k, text_lt-ne k j p) e, Found-cons k vs whole m a f)

Found-refl : (m : Map (List Text)) → IsSorted m → Found m m
unfolding find
Found-refl [] s = tt
Found-refl ((k, vs) ∷ m) (a, s) = (rw (text_eq_refl k), Found-cons k vs m m a (Found-refl m s))

read-current :
    (whole m : Map (List Text)) (indexes : Map ℕ) (done : Map Text)
    → Found whole m
    → Aligned m indexes
    → IsSorted m
    → Before done m
    → read whole indexes done ≡ some (done ++ current m indexes)
unfolding read current
read-current whole [] [] done f h s b = rw append-nil
read-current whole [] (e ∷ indexes) done f h s b = absurd h
read-current whole ((k, vs) ∷ m) [] done f h s b = absurd h
read-current whole ((k, vs) ∷ m) ((j, i) ∷ indexes) done (here, f) (same, inside, small, h) (a, s)
      b =
    rw (
      same,
      here,
      ◌>>=◌,
      get_elem?-value_at vs i inside,
      emplace-last k _ done (Before-nil done k vs m b),
      read-current whole m indexes _ f h s (Before-cons done k _ vs m b a),
      append_assoc,
    )

-- A position inside the values is not the end.
equal_end :
    (m : Map (List Text)) (indexes : Map ℕ)
    → m ≢ []
    → Aligned m indexes
    → equal
        (record { values = m; indexes = indexes; at_end = false })
        (record { values = m; indexes = sizes m; at_end = true })
      ≡ false
unfolding equal find
equal_end [] indexes ne h = absurd (ne refl)
equal_end ((k, vs) ∷ m) [] ne h = absurd h
equal_end ((k, vs) ∷ m) ((j, i) ∷ indexes) ne (same, inside, small, h) =
    rw (same, map_eq_refl ((k, vs) ∷ m), text_eq_refl k) (ground arith)

abbrev position : Map (List Text) → Map ℕ → Bool → Iterator
position m indexes at_end = record { values = m; indexes = indexes; at_end = at_end }

-- One round of the loop before the end.
visit-cons :
    (m : Map (List Text)) (indexes : Map ℕ) (fuel : ℕ)
    → m ≢ []
    → IsSorted m
    → Aligned m indexes
    → (step : Advanced m m indexes) → (others : List (Map Text))
    → visit fuel (position m step.moved step.carry) (position m (sizes m) true) ≡ some others
    → visit (suc fuel) (position m indexes false) (position m (sizes m) true)
      ≡ some (current m indexes ∷ others)
unfolding visit dereference next
visit-cons m indexes fuel ne s h step others e = rw (
  equal_end m indexes ne h,
  read-current m m indexes [] (Found-refl m s) h s tt,
  step.run,
  ◌>>=◌,
  e,
)

visit_end :
    (m : Map (List Text)) (indexes others : Map ℕ) (fuel : ℕ)
    → 0 < fuel
    → visit fuel (position m indexes true) (position m others true) ≡ some []
unfolding visit equal
visit_end m indexes others zero h = elim h [ ]
visit_end m indexes others (suc fuel) h = rw (map_eq_refl m)

-- From a position inside the values the loop visits what is left, given a round for each.
visit-remaining :
    (m : Map (List Text)) (fuel : ℕ) (indexes : Map ℕ)
    → m ≢ []
    → IsSorted m
    → Aligned m indexes
    → length (remaining m indexes) < fuel
    → visit fuel (position m indexes false) (position m (sizes m) true) ≡ some (remaining m indexes)
visit-remaining m zero indexes ne s h lt = elim lt [ ]
visit-remaining m (suc fuel) indexes ne s h lt =
    let step = advance_all-Advanced m m indexes (Found-refl m s) h in
    let left = ap length step.left in
    rw step.left (
      visit-cons m indexes fuel ne s h step _ (elim (Bool-cases step.carry) [
        | inl e ↦ rw e (visit_end m step.moved (sizes m) fuel (omega arith))
        | inr e ↦
            let shorter = rw e at left in
            rw e (visit-remaining m fuel step.moved ne s step.aligned (omega arith))
      ]))

-- Each key has at least one value, and no more than an index can count.
abbrev pub IsCountable : Map (List Text) → Type 0
IsCountable = All (λ e. (is_empty e.1 ≡ false) × (length e.1 < uint32_modulus))

zeros-Aligned : (m : Map (List Text)) → IsCountable m → Aligned m (zeros m)
zeros-Aligned [] h = tt
zeros-Aligned ((k, []) ∷ m) ((e, small), h) = ground arith
zeros-Aligned ((k, v ∷ vs) ∷ m) ((e, small), h) = (refl, omega arith, small, zeros-Aligned m h)

-- For a map with at least one key, whose keys each have at least one and fewer than 2 ^ 32 values,
-- the loop from `begin` to `end` runs without undefined behaviour and visits exactly the
-- combinations of the map, each once and with the last key varying fastest. One round more than
-- there are combinations is fuel enough.
pub permutations-combinations :
    (m : Map (List Text)) (fuel : ℕ)
    → m ≢ []
    → IsSorted m
    → IsCountable m
    → length (combinations m) < fuel
    → permutations fuel m ≡ some (combinations m)
unfolding permutations make_iterator
permutations-combinations m fuel ne s c lt =
    let filled = All-map (λ e p. p.0) m c in
    let start = remaining-zeros m filled in
    rw (fill_indexes-zeros m [] s filled tt, fill_indexes-sizes m [] s tt, ← start)
      (visit-remaining m fuel (zeros m) ne s (zeros-Aligned m c) (rw start lt))

-- If some key has no value, the loop makes no round, which is also what the combinations are; and
-- over the map without keys, whose only combination is the empty one, it makes none either.
pub permutations-empty :
    (m : Map (List Text)) (fuel : ℕ)
    → 0 < fuel
    → ((any (λ e. is_empty e.1) m ≡ true) → (permutations fuel m ≡ some []) × (combinations m ≡ []))
      × (permutations fuel [] ≡ some [])
unfolding permutations make_iterator
permutations-empty m zero h = elim h [ ]
permutations-empty m (suc fuel) h = (
  λ e. (
    unfold visit equal in rw (fill_indexes_empty m [] e, fill_indexes_end m [], map_eq_refl m),
    combinations-empty m e,
  ),
  unfold visit equal map_eq fill_indexes in refl,
)
