-- ===== src/Config/SettingsNode/Removal.antt =====
-- `clear` and `replace`, in a tree whose nodes have children with different keys.
use exec_helper.Prelude.{
  Text, text_eq, text_eq_sound, text_eq_refl, text_eq_iff, List, [], ◌∷◌, ◌++◌, none, some, true,
  false, if◌then◌else◌, is_some, ◌≡◌, ◌⊎◌, refl, ◌∙◌, subst, arith, Bool-cases, Option-cases, inl,
  inr,
}
use exec_helper.Platform.{Platform}
use exec_helper.Config.SettingsNode.{
  SettingsNode, node, Values, null, collection, Nodes, nil, cons, key, has_key, find_node,
  contains_key, at_key, contains, at, modify, add, get_values, erase_node, clear_child, clear_path,
  clear_found, clear, replace,
}
use exec_helper.Config.SettingsNode.Lookup.{
  has_key-find_node, contains_key-at_key, contains-at, values_at, values_at-cons, KeepsKey,
  at_key-modify, get_values-values_at,
}
use exec_helper.Config.SettingsNode.Insertion.{key-modify, get_values-add}

-- In the whole tree no node has two children with one key.
unfoldable mutual
  pub IsDistinct : SettingsNode → Type 0
  IsDistinct (node k vs) = IsDistinctValues vs

  pub IsDistinctValues : Values → Type 0
  IsDistinctValues null = Unit
  IsDistinctValues (collection ns) = AreDistinct ns

  pub AreDistinct : Nodes → Type 0
  AreDistinct nil = Unit
  AreDistinct (cons n ns) = (has_key (key n) ns ≡ false) × IsDistinct n × AreDistinct ns

AreDistinct-find_node :
    (k : Text) (ns : Nodes) (c : SettingsNode)
    → AreDistinct ns
    → find_node k ns ≡ some c
    → IsDistinct c
unfolding IsDistinct
AreDistinct-find_node k nil c d h = ground arith
AreDistinct-find_node k (cons n ns) c (new, dn, d) h = elim (Bool-cases (text_eq (key n) k)) [
  | inl e ↦ subst IsDistinct (ground arith) dn
  | inr e ↦ AreDistinct-find_node k ns c d (ground arith)
]

pub IsDistinct-at_key :
    (k : Text) (n c : SettingsNode) → IsDistinct n → at_key k n ≡ some c → IsDistinct c
unfolding IsDistinct
IsDistinct-at_key k (node j null) c d h = ground arith
IsDistinct-at_key k (node j (collection ns)) c d h = AreDistinct-find_node k ns c d h

find_node-erase_node_self :
    (k : Text) (ns : Nodes) → AreDistinct ns → find_node k (erase_node k ns) ≡ none
unfolding IsDistinct
find_node-erase_node_self k nil d = refl
find_node-erase_node_self k (cons n ns) (new, dn, d) = ground (
  arith,
  find_node-erase_node_self k ns d,
  text_eq_sound (key n) k,
  has_key-find_node k ns,
  has_key-find_node (key n) ns,
)

find_node-erase_node_ne :
    (j k : Text) (ns : Nodes) → text_eq j k ≡ false → find_node j (erase_node k ns) ≡ find_node j ns
find_node-erase_node_ne j k nil h = refl
find_node-erase_node_ne j k (cons n ns) h = ground (
  arith,
  find_node-erase_node_ne j k ns h,
  text_eq_iff (key n) k,
  text_eq_iff (key n) j,
  text_eq_iff j k,
)

key-clear_child : (k : Text) (n : SettingsNode) → key (clear_child k n).0 ≡ key n
unfolding clear_child
key-clear_child k (node j null) = refl
key-clear_child k (node j (collection ns)) = ground arith

at_key-clear_child_self :
    (k : Text) (n : SettingsNode) → IsDistinct n → at_key k (clear_child k n).0 ≡ none
unfolding clear_child IsDistinct
at_key-clear_child_self k (node j null) d = refl
at_key-clear_child_self k (node j (collection ns)) d =
    ground (arith, find_node-erase_node_self k ns d, has_key-find_node k ns)

at_key-clear_child_ne :
    (j k : Text) (n : SettingsNode)
    → text_eq j k ≡ false
    → at_key j (clear_child k n).0 ≡ at_key j n
unfolding clear_child
at_key-clear_child_ne j k (node i null) h = refl
at_key-clear_child_ne j k (node i (collection ns)) h =
    ground (arith, find_node-erase_node_ne j k ns h)

key-clear_path : (k : Text) (ks : List Text) → KeepsKey (clear_path k ks)
unfolding clear_path
key-clear_path k [] n = key-clear_child k n
key-clear_path k (j ∷ ks) n = key-modify k (clear_path j ks) n

at-clear_path :
    (k : Text) (ks : List Text) (n : SettingsNode)
    → IsDistinct n
    → at (k ∷ ks) (clear_path k ks n) ≡ none
unfolding at clear_path
at-clear_path k [] n d = rw (at_key-clear_child_self k n d)
at-clear_path k (j ∷ ks) n d = elim (Option-cases (at_key k n)) [
  | inl e ↦ rw (at_key-modify k k (clear_path j ks) n (key-clear_path j ks), text_eq_refl k, e)
  | inr (c, e) ↦
      rw (at_key-modify k k (clear_path j ks) n (key-clear_path j ks), text_eq_refl k, e)
        (at-clear_path j ks c (IsDistinct-at_key k n c d e))
]

clear_child_found :
    (k : Text) (n : SettingsNode) → contains_key k n ≡ true → (clear_child k n).1 ≡ true
unfolding clear_child
clear_child_found k (node j null) h = ground arith
clear_child_found k (node j (collection ns)) h = ground arith

clear_found-contains :
    (k : Text) (ks : List Text) (n : SettingsNode)
    → is_some (at (k ∷ ks) n) ≡ true
    → clear_found k ks n ≡ true
unfolding clear_found at
clear_found-contains k [] n h =
    clear_child_found k n (contains_key-at_key k n ∙ ground (arith, Option-cases (at_key k n)))
clear_found-contains k (j ∷ ks) n h = elim (Option-cases (at_key k n)) [
  | inl e ↦ absurd (cc (rw e at h))
  | inr (c, e) ↦ rw (e, clear_found) (clear_found-contains j ks c (rw e at h))
]

-- Clearing a path that is not empty always succeeds, and the path is gone afterwards, whether or not
-- it was there; clearing the empty path is refused and changes nothing.
pub clear-contains :
    (k : Text) (ks : List Text) (n : SettingsNode)
    → IsDistinct n
    → ((clear (k ∷ ks) n).1 ≡ true)
      × (contains (k ∷ ks) (clear (k ∷ ks) n).0 ≡ false)
      × (clear [] n ≡ (n, false))
unfolding clear
clear-contains k ks n d = elim (Bool-cases (contains (k ∷ ks) n)) [
  | inl e ↦ (
    rw e (clear_found-contains k ks n (rw (← contains-at (k ∷ ks) n) e)),
    rw (e, contains-at (k ∷ ks) (clear_path k ks n), at-clear_path k ks n d),
    refl,
  )
  | inr e ↦ (rw e, rw (e, e), refl)
]

-- `clear` without its tests, on a path that may be empty.
clear_walk : List Text → SettingsNode → SettingsNode
clear_walk [] n = n
clear_walk (k ∷ ks) n = clear_path k ks n

clear_walk-cons :
    (p k : Text) (pre ks : List Text) (n : SettingsNode)
    → clear_walk (p ∷ pre ++ k ∷ ks) n ≡ modify p (clear_walk (pre ++ k ∷ ks)) n
unfolding clear_walk clear_path
clear_walk-cons p k [] ks n = refl
clear_walk-cons p k (q ∷ pre) ks n = refl

key-clear_walk : (ks : List Text) → KeepsKey (clear_walk ks)
unfolding clear_walk
key-clear_walk [] n = refl
key-clear_walk (k ∷ ks) n = key-clear_path k ks n

at_key-clear_path_ne :
    (j k : Text) (ks : List Text) (n : SettingsNode)
    → text_eq j k ≡ false
    → at_key j (clear_path k ks n) ≡ at_key j n
unfolding clear_path
at_key-clear_path_ne j k [] n h = at_key-clear_child_ne j k n h
at_key-clear_path_ne j k (i ∷ ks) n h =
    rw (at_key-modify j k (clear_path i ks) n (key-clear_path i ks), h)

values_at-clear_walk_ne :
    (pre : List Text) (j k : Text) (js ks : List Text) (n : SettingsNode)
    → text_eq j k ≡ false
    → values_at (pre ++ j ∷ js) (clear_walk (pre ++ k ∷ ks) n) ≡ values_at (pre ++ j ∷ js) n
values_at-clear_walk_ne [] j k js ks n h =
    unfold clear_walk in
    rw (
      values_at-cons j js (clear_path k ks n),
      at_key-clear_path_ne j k ks n h,
      values_at-cons j js n,
    )
values_at-clear_walk_ne (p ∷ pre) j k js ks n h =
    let walk = clear_walk (pre ++ k ∷ ks) in
    rw
      (
        clear_walk-cons p k pre ks n,
        values_at-cons p (pre ++ j ∷ js) (modify p walk n),
        at_key-modify p p walk n (key-clear_walk (pre ++ k ∷ ks)),
        text_eq_refl p,
        values_at-cons p (pre ++ j ∷ js) n,
      )
      (elim (Option-cases (at_key p n)) [
        | inl e ↦ rw e
        | inr (c, e) ↦ rw e (values_at-clear_walk_ne pre j k js ks c h)
      ])

clear-clear_walk :
    (ks : List Text) (n : SettingsNode) → ((clear ks n).0 ≡ n) ⊎ ((clear ks n).0 ≡ clear_walk ks n)
unfolding clear clear_walk
clear-clear_walk [] n = inl refl
clear-clear_walk (k ∷ ks) n = elim (Bool-cases (contains (k ∷ ks) n)) [
  | inl e ↦ inr (rw e)
  | inr e ↦ inl (rw e)
]

module _ ⦃sys : Platform⦄ where
  -- Clearing a path changes nothing on a path that branches off from it at some key.
  pub get_values-clear_ne :
      (pre : List Text) (j k : Text) (js ks : List Text) (n : SettingsNode)
      → text_eq j k ≡ false
      → get_values (pre ++ j ∷ js) (clear (pre ++ k ∷ ks) n).0 ≡ get_values (pre ++ j ∷ js) n
  get_values-clear_ne pre j k js ks n h = elim (clear-clear_walk (pre ++ k ∷ ks) n) [
    | inl e ↦ rw e
    | inr e ↦
        rw
          (
            e,
            get_values-values_at (pre ++ j ∷ js) (clear_walk (pre ++ k ∷ ks) n),
            get_values-values_at (pre ++ j ∷ js) n,
          )
          (values_at-clear_walk_ne pre j k js ks n h)
  ]

  pub get_values-none :
      (ks : List Text) (n : SettingsNode) → contains ks n ≡ false → get_values ks n ≡ none
  unfolding get_values
  get_values-none ks n h = rw h

  pub replace_lem :
      (ks vs : List Text) (n : SettingsNode)
      → replace ks vs n ≡ add ks vs (if contains ks n then (clear ks n).0 else n)
  unfolding replace
  replace_lem ks vs n = refl

  -- Replacing the values at a path that is not empty leaves exactly the new values there, whatever
  -- was below the path before, in a tree without equal keys side by side.
  pub get_values-replace :
      (k : Text) (ks vs : List Text) (n : SettingsNode)
      → IsDistinct n
      → get_values (k ∷ ks) (replace (k ∷ ks) vs n) ≡ some vs
  get_values-replace k ks vs n d =
      rw (replace_lem (k ∷ ks) vs n) (elim (Bool-cases (contains (k ∷ ks) n)) [
        | inl e ↦ rw (
          e,
          get_values-add (k ∷ ks) vs (clear (k ∷ ks) n).0,
          get_values-none (k ∷ ks) (clear (k ∷ ks) n).0 (clear-contains k ks n d).1,
        )
        | inr e ↦ rw (e, get_values-add (k ∷ ks) vs n, get_values-none (k ∷ ks) n e)
      ])
