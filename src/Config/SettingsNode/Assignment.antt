-- ===== src/Config/SettingsNode/Assignment.antt =====
-- Assignment and `overwrite`.
use exec_helper.Prelude.{
  Text, text_eq, text_eq_sound, text_eq_refl, text_eq_comm, List, [], ◌∷◌, none, some, ◌||◌,
  if◌then◌else◌, value_or, is_some, any, ◌≡◌, ◌≢◌, refl, ap, arith, Bool-cases, Option-cases, inl,
  inr,
}
use exec_helper.Platform.{Platform}
use exec_helper.Config.SettingsNode.{
  SettingsNode, node, Values, null, collection, Nodes, nil, cons, key, leaf, has_key, keys_of,
  contains_key, at_key, at, values, modify, ensure_key, get_values, copy_node, copy_nodes,
  deep_copy, assign, overwrite_all, overwrite,
}
use exec_helper.Config.SettingsNode.Lookup.{
  contains_key-at_key, values_at, values_at-cons, values_at-value_or, KeepsKey, at_key-modify,
  at_key-ensure_key, get_values-values_at,
}

mutual
  -- A copy of a node is the same tree, whatever its depth.
  pub copy_node_lem : (n : SettingsNode) → copy_node n ≡ n
  copy_node_lem (node j null) = refl
  copy_node_lem (node j (collection ns)) = ap (λ ms. node j (collection ms)) (copy_nodes_lem ns)

  pub copy_nodes_lem : (ns : Nodes) → copy_nodes ns ≡ ns
  copy_nodes_lem nil = refl
  copy_nodes_lem (cons n ns) = rw (copy_node_lem n, copy_nodes_lem ns)

values_key : (j k : Text) (vs : Values) → values (node j vs) ≡ values (node k vs)
values_key j k null = refl
values_key j k (collection ns) = refl

pub assign-values :
    (n other : SettingsNode)
    → (key (assign n other) ≡ key other)
      × ((values other ≢ none) → assign n other ≡ other)
      × ((values other ≡ none) → values (assign n other) ≡ values n)
assign-values (node k vs) (node j null) = (refl, λ h. absurd (h refl), λ _. values_key j k vs)
assign-values (node k vs) (node j (collection ns)) = (
  refl,
  λ _. ap (λ ms. node j (collection ms)) (copy_nodes_lem ns),
  λ h. absurd (ground (arith, h)),
)

deep_copy_idem : (n m : SettingsNode) → deep_copy (deep_copy n m) m ≡ deep_copy n m
deep_copy_idem (node k vs) (node j null) = refl
deep_copy_idem (node k vs) (node j (collection ns)) = refl

key-deep_copy : (m : SettingsNode) → KeepsKey (λ c. deep_copy c m)
key-deep_copy (node j ws) (node k vs) = refl

-- The node that `overwrite` reads for a key.
abbrev source : Text → SettingsNode → SettingsNode
source k new = value_or (at_key k new) (leaf k)

at_key-overwrite_one :
    (j k : Text) (new n : SettingsNode)
    → at_key j (modify k (λ c. deep_copy c (source k new)) (ensure_key k n))
      ≡ (if text_eq j k then some (deep_copy (source k n) (source k new)) else at_key j n)
at_key-overwrite_one j k new n =
    rw
      (
        at_key-modify j k (λ c. deep_copy c (source k new)) (ensure_key k n)
            (key-deep_copy (source k new)),
        at_key-ensure_key j k n,
        at_key-ensure_key k k n,
        text_eq_refl k,
      )
      (ground arith)

at_key-overwrite_all :
    (j : Text) (ks : List Text) (new n : SettingsNode)
    → at_key j (overwrite_all ks new n)
      ≡ (if any (text_eq j) ks then some (deep_copy (source j n) (source j new)) else at_key j n)
unfolding overwrite_all
at_key-overwrite_all j [] new n = refl
at_key-overwrite_all j (k ∷ ks) new n =
    let next = modify k (λ c. deep_copy c (source k new)) (ensure_key k n) in
    let one = at_key-overwrite_one j k new n in
    elim (Bool-cases (text_eq j k)) [
      | inl e ↦
          rw (at_key-overwrite_all j ks new next, one, e, text_eq_sound j k e)
            (rw (deep_copy_idem (source k n) (source k new)) (ground arith))
      | inr e ↦ rw (at_key-overwrite_all j ks new next, one, e)
    ]

any-keys_of : (j : Text) (ns : Nodes) → any (text_eq j) (keys_of ns) ≡ has_key j ns
any-keys_of j nil = refl
any-keys_of j (cons n ns) = rw (any-keys_of j ns, text_eq_comm j (key n))

pub any-values :
    (j : Text) (n : SettingsNode) → any (text_eq j) (value_or (values n) []) ≡ contains_key j n
any-values j (node k null) = refl
any-values j (node k (collection ns)) = any-keys_of j ns

at_key-overwrite :
    (j : Text) (new n : SettingsNode)
    → at_key j (overwrite new n)
      ≡ (if contains_key j new then some (deep_copy (source j n) (source j new)) else at_key j n)
unfolding overwrite
at_key-overwrite j new n =
    rw (at_key-overwrite_all j (value_or (values new) []) new n, any-values j new)

values_at-collection :
    (ks : List Text) (i j : Text) (ns : Nodes)
    → values_at ks (node i (collection ns)) ≡ values_at ks (node j (collection ns))
unfolding values_at at
values_at-collection [] i j ns = refl
values_at-collection (k ∷ ks) i j ns = refl

values_at-deep_copy :
    (ks : List Text) (n m : SettingsNode)
    → values_at ks (deep_copy n m) ≡ (if is_some (values m) then values_at ks m else values_at ks n)
values_at-deep_copy ks (node k vs) (node j null) = refl
values_at-deep_copy ks (node k vs) (node j (collection ns)) =
    rw (copy_nodes_lem ns) (values_at-collection ks k j ns)

-- `overwrite` makes every key of the new settings a key, and keeps the old ones. At a path whose
-- first key the new settings give a collection of values for, `get` returns what it returns in the
-- new settings; at any other path what it returned before.
module _ ⦃sys : Platform⦄ where
  pub overwrite-get_values :
      (j : Text) (ks : List Text) (new n : SettingsNode)
      → (contains_key j (overwrite new n) ≡ contains_key j n || contains_key j new)
        × (get_values (j ∷ ks) (overwrite new n) ≡ (
            if is_some (get_values (j ∷ []) new)
            then get_values (j ∷ ks) new
            else get_values (j ∷ ks) n))
  overwrite-get_values j ks new n =
      rw
        (
          get_values-values_at (j ∷ ks) (overwrite new n),
          get_values-values_at (j ∷ []) new,
          get_values-values_at (j ∷ ks) new,
          get_values-values_at (j ∷ ks) n,
          values_at-cons j ks (overwrite new n),
          values_at-cons j [] new,
          values_at-cons j ks new,
          values_at-cons j ks n,
          contains_key-at_key j (overwrite new n),
          contains_key-at_key j n,
          contains_key-at_key j new,
          at_key-overwrite j new n,
        )
        (elim (Option-cases (at_key j new)) [
          | inl e ↦ rw (contains_key-at_key j new, e) (ground arith, refl)
          | inr (m, e) ↦
              rw
                (
                  contains_key-at_key j new,
                  e,
                  values_at-deep_copy ks (source j n) m,
                  values_at-value_or ks j (at_key j n),
                )
                (unfold values_at at in (ground arith, refl))
        ])
