-- ===== src/Config/SettingsNode/Lookup.antt =====
-- What a path of keys leads to, and how one step of a path sees a changed child.
use exec_helper.Prelude.{
  Text, text_eq, text_eq_sound, text_eq_iff, text_eq_comm, List, [], ◌∷◌, Option, none, some,
  if◌then◌else◌, last, is_empty, ◌>>=◌, value_or, is_some, ◌≡◌, refl, arith, Option-cases, inl, inr,
}
use exec_helper.Platform.{Platform}
use exec_helper.Config.SettingsNode.{
  SettingsNode, node, null, collection, Nodes, nil, cons, key, leaf, has_key, find_node, push_back,
  contains_key, at_key, contains, at, values, modify_node, modify, ensure_key, cast_values,
  get_values, get_last,
}

pub has_key-find_node : (k : Text) (ns : Nodes) → has_key k ns ≡ is_some (find_node k ns)
has_key-find_node k nil = refl
has_key-find_node k (cons n ns) = ground (arith, has_key-find_node k ns)

pub contains_key-at_key : (k : Text) (n : SettingsNode) → contains_key k n ≡ is_some (at_key k n)
contains_key-at_key k (node j null) = refl
contains_key-at_key k (node j (collection ns)) = has_key-find_node k ns

-- A path is there exactly when the walk along it succeeds.
pub contains-at : (ks : List Text) (n : SettingsNode) → contains ks n ≡ is_some (at ks n)
unfolding contains at
contains-at [] n = refl
contains-at (k ∷ ks) n = elim (Option-cases (at_key k n)) [
  | inl e ↦ rw (contains_key-at_key k n, e)
  | inr (c, e) ↦ rw (contains_key-at_key k n, e) (contains-at ks c)
]

pub find_node-key : (k : Text) (ns : Nodes) (c : SettingsNode) → find_node k ns ≡ some c → key c ≡ k
find_node-key k nil c h = ground arith
find_node-key k (cons n ns) c h = ground (arith, find_node-key k ns c, text_eq_sound (key n) k)

pub at_single : (k : Text) (n : SettingsNode) → at (k ∷ []) n ≡ at_key k n
unfolding at
at_single k n = ground (arith, Option-cases (at_key k n))

pub contains_single : (k : Text) (n : SettingsNode) → contains (k ∷ []) n ≡ is_some (at_key k n)
contains_single k n = rw (contains-at (k ∷ []) n, at_single k n)

-- The values at a path, whether or not it is there.
unfoldable pub values_at : List Text → SettingsNode → Option (List Text)
unfolding at
values_at ks n = at ks n >>= values

pub values_at-cons :
    (k : Text) (ks : List Text) (n : SettingsNode)
    → values_at (k ∷ ks) n ≡ (at_key k n >>= values_at ks)
unfolding values_at
values_at-cons k ks n = ground arith

values_at-leaf : (ks : List Text) (k : Text) → values_at ks (leaf k) ≡ none
unfolding values_at
values_at-leaf [] k = refl
values_at-leaf (j ∷ ks) k = refl

-- A missing child has no values, like a fresh one.
pub values_at-value_or :
    (ks : List Text) (k : Text) (o : Option SettingsNode)
    → values_at ks (value_or o (leaf k)) ≡ (o >>= values_at ks)
values_at-value_or ks k none = values_at-leaf ks k
values_at-value_or ks k (some c) = refl

-- A change that keeps the keys of nodes.
abbrev pub KeepsKey : (SettingsNode → SettingsNode) → Type 0
KeepsKey f = (c : SettingsNode) → key (f c) ≡ key c

find_node-modify_node :
    (j k : Text) (f : SettingsNode → SettingsNode) (ns : Nodes)
    → KeepsKey f
    → find_node j (modify_node k f ns)
      ≡ (if text_eq j k then (find_node k ns >>= λ c. some (f c)) else find_node j ns)
find_node-modify_node j k f nil h = ground arith
find_node-modify_node j k f (cons n ns) h = ground (
  arith,
  h n,
  find_node-modify_node j k f ns h,
  text_eq_iff j k,
  text_eq_iff (key n) k,
  text_eq_iff (key n) j,
  text_eq_iff (key (f n)) j,
)

-- Changing the child of one key is seen under that key alone.
pub at_key-modify :
    (j k : Text) (f : SettingsNode → SettingsNode) (n : SettingsNode)
    → KeepsKey f
    → at_key j (modify k f n)
      ≡ (if text_eq j k then (at_key k n >>= λ c. some (f c)) else at_key j n)
at_key-modify j k f (node i null) h = ground arith
at_key-modify j k f (node i (collection ns)) h = find_node-modify_node j k f ns h

find_node-push_back :
    (j : Text) (n : SettingsNode) (ns : Nodes)
    → find_node j (push_back ns n) ≡ (elim (find_node j ns) as (λ _. Option SettingsNode) [
      | none ↦ if text_eq (key n) j then some n else none
      | some c ↦ some c
    ])
find_node-push_back j n nil = refl
find_node-push_back j n (cons m ns) = ground (arith, find_node-push_back j n ns)

-- A key that is ensured has its old child or a fresh one; the other keys are as before.
pub at_key-ensure_key :
    (j k : Text) (n : SettingsNode)
    → at_key j (ensure_key k n)
      ≡ (if text_eq j k then some (value_or (at_key k n) (leaf k)) else at_key j n)
unfolding ensure_key
at_key-ensure_key j k (node i null) = ground (arith, text_eq_comm j k)
at_key-ensure_key j k (node i (collection ns)) = ground (
  arith,
  has_key-find_node k ns,
  find_node-push_back j (leaf k) ns,
  text_eq_iff j k,
  text_eq_comm j k,
)

module _ ⦃sys : Platform⦄ where
  pub cast_values_lem : (vs : List Text) → cast_values vs ≡ vs
  unfolding cast_values
  cast_values_lem [] = refl
  cast_values_lem (v ∷ vs) = rw (sys.cast_string_lem v, cast_values_lem vs)

  -- `get` of a collection of strings returns the values at the path.
  pub get_values-values_at : (ks : List Text) (n : SettingsNode) → get_values ks n ≡ values_at ks n
  unfolding get_values values_at
  get_values-values_at ks n = elim (Option-cases (at ks n)) [
    | inl e ↦ rw (contains-at ks n, e)
    | inr (c, e) ↦ elim (Option-cases (values c)) [
      | inl e' ↦ rw (contains-at ks n, e, ◌>>=◌, e')
      | inr (vs, e') ↦ rw (contains-at ks n, e, ◌>>=◌, e', cast_values_lem vs)
    ]
  ]

-- The last of the values at a path, which the casts to a single value read.
abbrev pub last_value : List Text → Option Text
last_value [] = none
last_value (v ∷ vs) = some (last v vs)

pub get_last-values_at :
    (ks : List Text) (n : SettingsNode) → get_last ks n ≡ (values_at ks n >>= last_value)
unfolding get_last values_at
get_last-values_at ks n = elim (Option-cases (at ks n)) [
  | inl e ↦ rw (contains-at ks n, e)
  | inr (c, e) ↦ rw (contains-at ks n, e, ◌>>=◌) (last_of (values c))
]
  where
    last_of :
        (o : Option (List Text))
        → (o >>= λ vs. if is_empty vs then none else some (last [] vs)) ≡ (o >>= last_value)
    last_of none = refl
    last_of (some []) = refl
    last_of (some (v ∷ vs)) = refl
