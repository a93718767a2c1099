-- ===== src/OrderedMap/Laws.antt =====
-- Lookups after each operation on an ordered map, and that each keeps the order.
use exec_helper.Prelude.{
  Text, text_eq, text_lt, text_eq_sound, text_eq_refl, text_eq_iff, text_lt_trans, text_lt_total,
  text_lt-ne, text_eq_comm, [], ◌∷◌, ◌++◌, none, some, true, ◌≡◌, refl, if◌then◌else◌, value_or,
  All, All-map, arith,
}
use exec_helper.OrderedMap.{Map, find, emplace, assign, erase, Above, IsSorted}

module _ {ℓ} {V : Type ℓ} where
  pub Above-trans : (k j : Text) (m : Map V) → text_lt k j ≡ true → Above j m → Above k m
  Above-trans k j m h = All-map (λ e p. text_lt_trans k j e.0 h p) m

  pub find-Above : (k : Text) (m : Map V) → Above k m → find k m ≡ none
  unfolding find
  find-Above k [] h = refl
  find-Above k ((j, w) ∷ m) (p, h) = ground (arith, text_lt-ne k j, find-Above k m h)

  pub Above-emplace :
      (i k : Text) (v : V) (m : Map V) → text_lt i k ≡ true → Above i m → Above i (emplace k v m)
  unfolding emplace
  Above-emplace i k v [] p h = (p, tt)
  Above-emplace i k v ((j, w) ∷ m) p (q, h) = ground (arith, Above-emplace i k v m p h)

  pub emplace-IsSorted : (k : Text) (v : V) (m : Map V) → IsSorted m → IsSorted (emplace k v m)
  unfolding emplace
  emplace-IsSorted k v [] s = (tt, tt)
  emplace-IsSorted k v ((j, w) ∷ m) (a, s) =
      ground (
        arith,
        Above-trans k j m,
        text_lt_total k j,
        Above-emplace j k v m,
        emplace-IsSorted k v m s,
      )

  pub Above-assign :
      (i k : Text) (v : V) (m : Map V) → text_lt i k ≡ true → Above i m → Above i (assign k v m)
  unfolding assign
  Above-assign i k v [] p h = (p, tt)
  Above-assign i k v ((j, w) ∷ m) p (q, h) = ground (arith, Above-assign i k v m p h)

  pub assign-IsSorted : (k : Text) (v : V) (m : Map V) → IsSorted m → IsSorted (assign k v m)
  unfolding assign
  assign-IsSorted k v [] s = (tt, tt)
  assign-IsSorted k v ((j, w) ∷ m) (a, s) = ground (
    arith,
    Above-trans k j m,
    text_lt_total k j,
    text_eq_sound k j,
    Above-assign j k v m,
    assign-IsSorted k v m s,
  )

  -- An `emplace` is seen at its key unless the key was there, and nowhere else.
  pub find-emplace :
      (q k : Text) (v : V) (m : Map V)
      → IsSorted m
      → find q (emplace k v m) ≡ (if text_eq q k then some (value_or (find k m) v) else find q m)
  unfolding find emplace
  find-emplace q k v [] s = refl
  find-emplace q k v ((j, w) ∷ m) (a, s) = ground (
    arith,
    find-emplace q k v m s,
    text_eq_sound q k,
    text_eq_sound q j,
    text_eq_sound k j,
    text_eq_iff q k,
    text_eq_iff q j,
    text_eq_iff k j,
    text_lt-ne k j,
    find-Above k m,
    Above-trans k j m,
  )

  pub find-emplace_absent :
      (q k : Text) (v : V) (m : Map V)
      → find k m ≡ none
      → find q (emplace k v m) ≡ (if text_eq q k then some v else find q m)
  unfolding find emplace
  find-emplace_absent q k v [] h = refl
  find-emplace_absent q k v ((j, w) ∷ m) h =
      ground (arith, find-emplace_absent q k v m, text_eq_iff q k, text_eq_iff q j, text_eq_iff k j)

  pub find-assign :
      (q k : Text) (v : V) (m : Map V)
      → find q (assign k v m) ≡ (if text_eq q k then some v else find q m)
  unfolding find assign
  find-assign q k v [] = refl
  find-assign q k v ((j, w) ∷ m) =
      ground (arith, find-assign q k v m, text_eq_iff q k, text_eq_iff q j, text_eq_iff k j)

  -- A key behind all others is put last.
  pub emplace-last :
      (k : Text) (v : V) (m : Map V)
      → All (λ e. text_lt e.0 k ≡ true) m
      → emplace k v m ≡ m ++ (k, v) ∷ []
  unfolding emplace
  emplace-last k v [] h = refl
  emplace-last k v ((j, w) ∷ m) (p, h) = ground (
    arith,
    emplace-last k v m h,
    text_eq_comm k j,
    text_lt-ne j k,
    text_lt_trans j k j,
    text_lt-ne j j,
    text_eq_refl j,
  )

  pub Above-erase : (i k : Text) (m : Map V) → Above i m → Above i (erase k m)
  unfolding erase
  Above-erase i k [] h = tt
  Above-erase i k ((j, w) ∷ m) (p, h) = ground (arith, Above-erase i k m h)

  pub erase-IsSorted : (k : Text) (m : Map V) → IsSorted m → IsSorted (erase k m)
  unfolding erase
  erase-IsSorted k [] s = tt
  erase-IsSorted k ((j, w) ∷ m) (a, s) = ground (arith, Above-erase j k m a, erase-IsSorted k m s)

  pub find-erase :
      (q k : Text) (m : Map V)
      → IsSorted m
      → find q (erase k m) ≡ (if text_eq q k then none else find q m)
  unfolding find erase
  find-erase q k [] s = ground arith
  find-erase q k ((j, w) ∷ m) (a, s) = ground (
    arith,
    find-erase q k m s,
    find-Above j m a,
    text_eq_iff q k,
    text_eq_iff q j,
    text_eq_iff k j,
  )
