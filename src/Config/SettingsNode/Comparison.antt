-- ===== src/Config/SettingsNode/Comparison.antt =====
-- `operator==` of nodes.
use exec_helper.Prelude.{
  Text, text_eq, text_eq_sound, text_eq_refl, text_eq_comm, List, [], ◌∷◌, some, true, false, ◌≡◌,
  refl, arith, Bool-cases, Option-cases, inl, inr,
}
use exec_helper.Config.SettingsNode.{
  SettingsNode, node, Values, null, collection, Nodes, nil, cons, key, children, has_key, find_node,
  at_key, at, node_eq, pointers_eq, children_eq,
}
use exec_helper.Config.SettingsNode.Lookup.{contains_key-at_key}
use exec_helper.Config.SettingsNode.Removal.{IsDistinct, AreDistinct}

-- Each node of the first list is the one that its key finds in the second.
abbrev FoundIn : Nodes → Nodes → Type 0
FoundIn nil whole = Unit
FoundIn (cons n ns) whole = (find_node (key n) whole ≡ some n) × FoundIn ns whole

FoundIn-cons :
    (m : SettingsNode) (ns whole : Nodes)
    → has_key (key m) ns ≡ false
    → FoundIn ns whole
    → FoundIn ns (cons m whole)
FoundIn-cons m nil whole h f = tt
FoundIn-cons m (cons n ns) whole h (e, f) =
    (ground (arith, text_eq_comm (key n) (key m)), FoundIn-cons m ns whole (ground arith) f)

FoundIn-refl : (ns : Nodes) → AreDistinct ns → FoundIn ns ns
unfolding IsDistinct
FoundIn-refl nil d = tt
FoundIn-refl (cons n ns) (new, dn, d) =
    (rw text_eq_refl, FoundIn-cons n ns ns new (FoundIn-refl ns d))

mutual
  unfolding node_eq IsDistinct

  node_refl : (n : SettingsNode) → IsDistinct n → node_eq n n ≡ true
  node_refl (node k vs) d = rw text_eq_refl (pointers_refl vs k d)

  pointers_refl :
      (vs : Values) (k : Text) → IsDistinct (node k vs) → pointers_eq vs (node k vs) ≡ true
  pointers_refl null k d = refl
  pointers_refl (collection ns) k d =
      ground (arith, children_refl ns (node k (collection ns)) (FoundIn-refl ns d) d)

  children_refl :
      (ns : Nodes) (other : SettingsNode)
      → FoundIn ns (children other)
      → AreDistinct ns
      → children_eq ns other ≡ true
  children_refl nil other f d = refl
  children_refl (cons n ns) other (e, f) (new, dn, d) =
      rw (contains_key-at_key (key n) other, e, node_refl n dn) (children_refl ns other f d)

-- A node without equal keys side by side is equal to itself.
pub node_eq_refl : (n : SettingsNode) → IsDistinct n → node_eq n n ≡ true
node_eq_refl n d = node_refl n d

children_eq-find_node :
    (k : Text) (ns : Nodes) (other c : SettingsNode)
    → children_eq ns other ≡ true
    → find_node k ns ≡ some c
    → (m : SettingsNode) × (at_key k other ≡ some m) × (node_eq c m ≡ true)
unfolding node_eq
children_eq-find_node k nil other c h e = ground arith
children_eq-find_node k (cons n ns) other c h e = elim (Bool-cases (text_eq (key n) k)) [
  | inr ne ↦ children_eq-find_node k ns other c (ground arith) (ground arith)
  | inl eq ↦ elim (Option-cases (at_key (key n) other)) [
    | inl e' ↦ absurd (ground (arith, contains_key-at_key (key n) other))
    | inr (m, e') ↦ (m, rw (← text_eq_sound (key n) k eq) e', ground arith)
  ]
]

node_eq-at_key :
    (k : Text) (a b c : SettingsNode)
    → node_eq a b ≡ true
    → at_key k a ≡ some c
    → (m : SettingsNode) × (at_key k b ≡ some m) × (node_eq c m ≡ true)
unfolding node_eq
node_eq-at_key k (node i null) b c h e = ground arith
node_eq-at_key k (node i (collection ns)) (node j null) c h e = ground arith
node_eq-at_key k (node i (collection ns)) (node j (collection ms)) c h e =
    children_eq-find_node k ns (node j (collection ms)) c (ground arith) e

-- A node that compares equal to another one has no path that the other one lacks, and the nodes that
-- a path leads to in the two compare equal again.
pub node_eq-at :
    (ks : List Text) (a b c : SettingsNode)
    → node_eq a b ≡ true
    → at ks a ≡ some c
    → (m : SettingsNode) × (at ks b ≡ some m) × (node_eq c m ≡ true)
unfolding at
node_eq-at [] a b c h e = (b, refl, ground arith)
node_eq-at (k ∷ ks) a b c h e = elim (Option-cases (at_key k a)) [
  | inl e' ↦ absurd (cc (rw e' at e))
  | inr (d, e') ↦
      let (m, here, same) = node_eq-at_key k a b d h e' in
      rw here (node_eq-at ks d m c same (rw e' at e))
]
