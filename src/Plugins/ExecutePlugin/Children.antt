-- ===== src/Plugins/ExecutePlugin/Children.antt =====
-- The children that `index` of src/plugins/src/executePlugin.cpp assigns to the variables.
use exec_helper.Prelude.{
  Text, text_eq, text_eq_sound, text_eq_refl, text_eq_iff, List, [], ◌∷◌, Option, some, true,
  if◌then◌else◌, ◌>>=◌, value_or, is_some, any, ◌≡◌, refl, ◌∙◌, subst, All, arith, Bool-cases,
  Option-cases, inl, inr,
}
use exec_helper.Config.SettingsNode.{
  SettingsNode, Nodes, nil, cons, key, children, leaf, at, at_key, values, assign_child,
}
use exec_helper.Config.SettingsNode.{
  SettingsNode, node, null, collection, Nodes, nil, cons, key, children, leaf, find_node,
  contains_key, at_key, at, values, modify_node, modify, ensure_key, assign, assign_child,
}
use exec_helper.Config.SettingsNode.Lookup.{
  contains_key-at_key, find_node-key, values_at, values_at-cons, values_at-value_or,
  at_key-ensure_key,
}
use exec_helper.Config.SettingsNode.Assignment.{assign-values, any-values, copy_nodes_lem}
use exec_helper.Plugins.ExecutePlugin.{assign_children}

-- A change that keeps the key of a node with the key `k`.
abbrev KeepsAt : Text → (SettingsNode → SettingsNode) → Type 0
KeepsAt k f = (c : SettingsNode) → key c ≡ k → key (f c) ≡ k

find_node-modify_at :
    (j k : Text) (f : SettingsNode → SettingsNode) (ns : Nodes)
    → KeepsAt k f
    → find_node j (modify_node k f ns)
      ≡ (if text_eq j k then (find_node k ns >>= λ c. some (f c)) else find_node j ns)
find_node-modify_at j k f nil h = ground arith
find_node-modify_at j k f (cons n ns) h = ground (
  arith,
  h n,
  find_node-modify_at j k f ns h,
  text_eq_iff j k,
  text_eq_iff (key n) k,
  text_eq_iff (key n) j,
  text_eq_iff (key (f n)) j,
)

at_key-modify_at :
    (j k : Text) (f : SettingsNode → SettingsNode) (n : SettingsNode)
    → KeepsAt k f
    → at_key j (modify k f n)
      ≡ (if text_eq j k then (at_key k n >>= λ c. some (f c)) else at_key j n)
at_key-modify_at j k f (node i null) h = ground arith
at_key-modify_at j k f (node i (collection ns)) h = find_node-modify_at j k f ns h

-- What assigning a child with the same key changes.
at_key-assign_child :
    (j k : Text) (other n : SettingsNode)
    → key other ≡ k
    → at_key j (assign_child k other n)
      ≡ (if text_eq j k then some (assign (value_or (at_key k n) (leaf k)) other) else at_key j n)
unfolding assign_child
at_key-assign_child j k other n e =
    rw
      (
        at_key-modify_at j k (λ c. assign c other) (ensure_key k n)
            (λ c _. (assign-values c other).0 ∙ e),
        at_key-ensure_key j k n,
        at_key-ensure_key k k n,
        text_eq_refl k,
      )
      (ground arith)

pub values_at-nil : (c : SettingsNode) → values_at [] c ≡ values c
unfolding values_at at
values_at-nil c = refl

values_at-assign :
    (js : List Text) (n c : SettingsNode)
    → values_at js (assign n c) ≡ (if is_some (values c) then values_at js c else values_at js n)
unfolding values_at at
values_at-assign [] (node k vs) (node j null) = refl
values_at-assign (i ∷ js) (node k vs) (node j null) = refl
values_at-assign js (node k vs) (node j (collection ns)) = rw (copy_nodes_lem ns) refl

-- The values at a path, those that `depth` has for the first key before those of `n`.
abbrev pub override : Text → List Text → SettingsNode → SettingsNode → Option (List Text)
override j js depth n =
    if is_some (values_at (j ∷ []) depth) then values_at (j ∷ js) depth else values_at (j ∷ js) n

values_at-assign_child :
    (j k : Text) (js : List Text) (depth c n : SettingsNode)
    → at_key k depth ≡ some c
    → values_at (j ∷ js) (assign_child k c n)
      ≡ (if text_eq j k then override j js depth n else values_at (j ∷ js) n)
values_at-assign_child j k js depth c n e =
    let ec = find_node-key k (children depth) c e in
    elim (Bool-cases (text_eq j k)) [
      | inl t ↦ rw (
        values_at-cons j js (assign_child k c n),
        at_key-assign_child j k c n ec,
        t,
        text_eq_sound j k t,
        values_at-cons k [] depth,
        values_at-cons k js depth,
        e,
        values_at-cons k js n,
        ◌>>=◌,
        values_at-assign js (value_or (at_key k n) (leaf k)) c,
        values_at-value_or js k (at_key k n),
        values_at-nil c,
      )
      | inr t ↦ rw (
        values_at-cons j js (assign_child k c n),
        at_key-assign_child j k c n ec,
        t,
        values_at-cons j js n,
      )
    ]

-- What the loop of `index` over keys below `depth` gives.
pub assign_children_lem :
    (ks : List Text) (depth n : SettingsNode)
    → All (λ k. is_some (at_key k depth) ≡ true) ks
    → (result : SettingsNode) × (assign_children ks depth n ≡ some result)
      × ((j : Text) (js : List Text)
          → values_at (j ∷ js) result
            ≡ (if any (text_eq j) ks then override j js depth n else values_at (j ∷ js) n))
unfolding assign_children
assign_children_lem [] depth n h = (n, refl, λ j js. refl)
assign_children_lem (k ∷ ks) depth n (p, h) = elim (Option-cases (at_key k depth)) [
  | inl e ↦ ground arith
  | inr (c, e) ↦
      let rest = assign_children_lem ks depth (assign_child k c n) h in
      (
        rest.0,
        rw e rest.1,
        λ j js. rest.2 j js ∙ rw (values_at-assign_child j k js depth c n e) (ground arith),
      )
]

pub override_absent :
    (j : Text) (js : List Text) (depth n : SettingsNode) (names : List Text)
    → values depth ≡ some names
    → (if any (text_eq j) names then override j js depth n else values_at (j ∷ js) n)
      ≡ override j js depth n
override_absent j js depth n names v =
    let a =
      subst (λ o. any (text_eq j) (value_or o []) ≡ contains_key j depth) v (any-values j depth)
      ∙ contains_key-at_key j depth in
    elim (Option-cases (at_key j depth)) [
      | inl e ↦ rw (a, values_at-cons j [] depth, e)
      | inr (c, e) ↦ rw (a, e)
    ]
