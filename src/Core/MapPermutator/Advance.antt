-- ===== src/Core/MapPermutator/Advance.antt =====
-- One step of the iterator: `operator++` moves to the next combination of those that are left.
use exec_helper.Prelude.{
  Text, ℕ, suc, ◌<◌, List, [], ◌∷◌, ◌++◌, map, some, Bool, true, false, ◌==◌, ◌>>=◌, length, ◌≡◌,
  refl, All, arith, Bool-cases, inl, inr, drop,
}
use exec_helper.OrderedMap.{Map, find}
use exec_helper.Core.MapPermutator.{uint32_modulus, advance, advance_all}
use exec_helper.Core.MapPermutator.Combinations.{
  with_each, combinations, value_at, current, remaining, IsFilled, drop-value_at, drop-length,
}

-- The indexes go with the entries of the map, and each is inside its values.
abbrev pub Aligned : Map (List Text) → Map ℕ → Type 0
Aligned [] [] = Unit
Aligned [] (e ∷ indexes) = ⊥
Aligned ((k, vs) ∷ m) [] = ⊥
Aligned ((k, vs) ∷ m) ((j, i) ∷ indexes) =
    (j ≡ k) × (i < length vs) × (length vs < uint32_modulus) × Aligned m indexes

-- The entries of `m` are found in `whole`.
abbrev pub Found : Map (List Text) → Map (List Text) → Type 0
Found whole = All (λ e. find e.0 whole ≡ some e.1)

-- The combinations that are left when the loop of `operator++` is done.
abbrev pub rest_after : Map (List Text) → Map ℕ → Bool → List (Map Text)
rest_after m indexes true = []
rest_after m indexes false = remaining m indexes

pub record Advanced (whole m : Map (List Text)) (indexes : Map ℕ) : Type 0 where
  pub moved : Map ℕ
  pub carry : Bool
  pub run : advance_all whole indexes ≡ some (moved, carry)
  pub aligned : Aligned m moved
  pub left : remaining m indexes ≡ current m indexes ∷ rest_after m moved carry
  pub wrapped : carry ≡ true → remaining m moved ≡ combinations m

IsFilled-Aligned : (m : Map (List Text)) (indexes : Map ℕ) → Aligned m indexes → IsFilled m
IsFilled-Aligned [] indexes h = tt
IsFilled-Aligned ((k, []) ∷ m) ((j, i) ∷ indexes) (e, lt, small, h) = elim lt [ ]
IsFilled-Aligned ((k, v ∷ vs) ∷ m) ((j, i) ∷ indexes) (e, lt, small, h) =
    (refl, IsFilled-Aligned m indexes h)
IsFilled-Aligned ((k, vs) ∷ m) [] h = absurd h

with_each-head :
    (k : Text) (vs : List Text) (cs : List (Map Text))
    → 0 < length vs
    → map (λ c. (k, value_at vs 0) ∷ c) cs ++ with_each k (drop 1 vs) cs ≡ with_each k vs cs
unfolding with_each
with_each-head k [] cs h = elim h [ ]
with_each-head k (v ∷ vs) cs h = refl

module _ (whole m : Map (List Text)) (k : Text) (vs : List Text) (i : ℕ) (indexes : Map ℕ)
    (here : find k whole ≡ some vs) (inside : i < length vs) (small : length vs < uint32_modulus)
    (ih : Advanced whole m indexes) where
  stay : ih.carry ≡ false → Advanced whole ((k, vs) ∷ m) ((k, i) ∷ indexes)
  unfolding advance_all advance remaining current
  stay e = record {
    moved = (k, i) ∷ ih.moved;
    carry = false;
    run = rw (ih.run, ◌>>=◌, e);
    aligned = (refl, inside, small, ih.aligned);
    left = rw (ih.left, e);
    wrapped = λ h. cc;
  }

  move_on : ih.carry ≡ true → suc i < length vs → Advanced whole ((k, vs) ∷ m) ((k, i) ∷ indexes)
  unfolding advance_all advance remaining current with_each
  move_on e more = record {
    moved = (k, suc i) ∷ ih.moved;
    carry = false;
    run = rw (ih.run, ◌>>=◌, e, here) (ground arith);
    aligned = (refl, more, small, ih.aligned);
    left = rw (ih.left, e, drop-value_at vs (suc i) more, ih.wrapped e);
    wrapped = λ h. cc;
  }

  wrap : ih.carry ≡ true → suc i ≡ length vs → Advanced whole ((k, vs) ∷ m) ((k, i) ∷ indexes)
  unfolding advance_all advance remaining current with_each combinations
  wrap e done = record {
    moved = (k, 0) ∷ ih.moved;
    carry = true;
    run = rw (ih.run, ◌>>=◌, e, here) (ground arith);
    aligned = (refl, omega arith, small, ih.aligned);
    left = rw (ih.left, e, done, drop-length vs);
    wrapped = λ _. rw (ih.wrapped e) (with_each-head k vs (combinations m) (omega arith));
  }

-- `operator++` runs without a fault at every position: it drops the current combination from those
-- that are left, and after the last one it is back at the start.
pub advance_all-Advanced :
    (whole m : Map (List Text)) (indexes : Map ℕ)
    → Found whole m
    → Aligned m indexes
    → Advanced whole m indexes
unfolding advance_all remaining current combinations
advance_all-Advanced whole [] [] f h = record {
  moved = [];
  carry = true;
  run = refl;
  aligned = tt;
  left = refl;
  wrapped = λ _. refl;
}
advance_all-Advanced whole [] (e ∷ indexes) f h = absurd h
advance_all-Advanced whole ((k, vs) ∷ m) [] f h = absurd h
advance_all-Advanced whole ((k, vs) ∷ m) ((j, i) ∷ indexes) (here, f) (same, inside, small, h) =
    let ih = advance_all-Advanced whole m indexes f h in
    rw same (elim (Bool-cases ih.carry) [
      | inr e ↦ stay whole m k vs i indexes here inside small ih e
      | inl e ↦ elim (Bool-cases (suc i == length vs)) [
        | inl d ↦ wrap whole m k vs i indexes here inside small ih e (ground arith)
        | inr d ↦ move_on whole m k vs i indexes here inside small ih e (ground arith)
      ]
    ])
