-- ===== src/Config/SettingsNode/Top.antt =====
-- `replace` of one key, in src/config/include/config/settingsNode.h, when only the children of the node
-- itself have different keys.
use exec_helper.Prelude.{
  Text, text_eq, text_eq_sound, text_eq_iff, List, [], ◌∷◌, some, none, true, false, if◌then◌else◌,
  ◌≡◌, refl, sym, ◌∙◌, subst, arith, Bool-cases, inl, inr, Bool,
}
use exec_helper.Platform.{Platform}
use exec_helper.Config.SettingsNode.{
  SettingsNode, node, null, collection, Nodes, nil, cons, key, leaf, children, has_key, find_node,
  push_back, at_key, contains, modify_node, modify, add, get_values, erase_node, ensure_key,
  clear_child, clear, clear_path, clear_found, replace,
}
use exec_helper.Config.SettingsNode.Lookup.{has_key-find_node, contains_single}
use exec_helper.Config.SettingsNode.Removal.{replace_lem, get_values-none}
use exec_helper.Config.SettingsNode.Insertion.{get_values-add, key-add}

abbrev pub HasDistinctKeys : Nodes → Type 0
HasDistinctKeys nil = Unit
HasDistinctKeys (cons n ns) = (has_key (key n) ns ≡ false) × HasDistinctKeys ns

abbrev pub IsDistinctTop : SettingsNode → Type 0
IsDistinctTop n = HasDistinctKeys (children n)

has_key-erase_node :
    (j k : Text) (ns : Nodes) → has_key j ns ≡ false → has_key j (erase_node k ns) ≡ false
has_key-erase_node j k nil h = refl
has_key-erase_node j k (cons n ns) h = ground (arith, has_key-erase_node j k ns)

erase_node-HasDistinctKeys :
    (k : Text) (ns : Nodes) → HasDistinctKeys ns → HasDistinctKeys (erase_node k ns)
erase_node-HasDistinctKeys k nil d = tt
erase_node-HasDistinctKeys k (cons n ns) (new, d) =
    let rest = erase_node-HasDistinctKeys k ns d in go rest (text_eq (key n) k)
  where
    go :
        HasDistinctKeys (erase_node k ns)
        → (b : Bool) → HasDistinctKeys (if b then ns else cons n (erase_node k ns))
    go rest true = d
    go rest false = (has_key-erase_node (key n) k ns new, rest)

has_key-push_back :
    (j : Text) (ns : Nodes) (n : SettingsNode)
    → has_key j ns ≡ false
    → text_eq (key n) j ≡ false
    → has_key j (push_back ns n) ≡ false
has_key-push_back j nil n h e = ground (arith, e)
has_key-push_back j (cons m ns) n h e = ground (arith, has_key-push_back j ns n)

push_back-HasDistinctKeys :
    (ns : Nodes) (k : Text)
    → has_key k ns ≡ false
    → HasDistinctKeys ns
    → HasDistinctKeys (push_back ns (leaf k))
push_back-HasDistinctKeys nil k h d = (refl, tt)
push_back-HasDistinctKeys (cons n ns) k h (new, d) = (
  has_key-push_back (key n) ns (leaf k) new
      (ground (arith, h, text_eq_iff k (key n), text_eq_iff (key n) k)),
  push_back-HasDistinctKeys ns k (ground (arith, h)) d,
)

has_key-modify_node :
    (j k : Text) (f : SettingsNode → SettingsNode) (ns : Nodes)
    → ((n : SettingsNode) → key (f n) ≡ key n)
    → has_key j (modify_node k f ns) ≡ has_key j ns
has_key-modify_node j k f nil h = refl
has_key-modify_node j k f (cons n ns) h = ground (arith, has_key-modify_node j k f ns h, h n)

modify_node-HasDistinctKeys :
    (k : Text) (f : SettingsNode → SettingsNode) (ns : Nodes)
    → ((n : SettingsNode) → key (f n) ≡ key n)
    → HasDistinctKeys ns
    → HasDistinctKeys (modify_node k f ns)
modify_node-HasDistinctKeys k f nil h d = tt
modify_node-HasDistinctKeys k f (cons n ns) h (new, d) =
    let rest = modify_node-HasDistinctKeys k f ns h d in go rest (text_eq (key n) k)
  where
    go :
        HasDistinctKeys (modify_node k f ns)
        → (b : Bool) → HasDistinctKeys (if b then cons (f n) ns else cons n (modify_node k f ns))
    go rest true = (subst (λ j. has_key j ns ≡ false) (sym (h n)) new, d)
    go rest false = (has_key-modify_node (key n) k f ns h ∙ new, rest)

modify-IsDistinctTop :
    (k : Text) (f : SettingsNode → SettingsNode) (n : SettingsNode)
    → ((n : SettingsNode) → key (f n) ≡ key n)
    → IsDistinctTop n
    → IsDistinctTop (modify k f n)
modify-IsDistinctTop k f (node j null) h d = d
modify-IsDistinctTop k f (node j (collection ns)) h d = modify_node-HasDistinctKeys k f ns h d

ensure_key-IsDistinctTop :
    (k : Text) (n : SettingsNode) → IsDistinctTop n → IsDistinctTop (ensure_key k n)
unfolding ensure_key
ensure_key-IsDistinctTop k (node j null) d = (refl, tt)
ensure_key-IsDistinctTop k (node j (collection ns)) d = go (has_key k ns) refl
  where
    go :
        (b : Bool)
        → has_key k ns ≡ b
        → IsDistinctTop
            (if b then node j (collection ns) else node j (collection (push_back ns (leaf k))))
    go true e = d
    go false e = push_back-HasDistinctKeys ns k e d

IsDistinctTop-if :
    (b : Bool) (x y : SettingsNode × Bool)
    → IsDistinctTop x.0
    → IsDistinctTop y.0
    → IsDistinctTop ((λ (r : SettingsNode × Bool). r.0) (if b then x else y))
IsDistinctTop-if true x y h k = h
IsDistinctTop-if false x y h k = k

clear_child-IsDistinctTop :
    (k : Text) (n : SettingsNode) → IsDistinctTop n → IsDistinctTop (clear_child k n).0
unfolding clear_child
clear_child-IsDistinctTop k (node j null) d = d
clear_child-IsDistinctTop k (node j (collection ns)) d =
    IsDistinctTop-if (has_key k ns) (node j (collection (erase_node k ns)), true)
      (node j (collection ns), false) (erase_node-HasDistinctKeys k ns d) d

clear_single-IsDistinctTop :
    (k : Text) (n : SettingsNode) → IsDistinctTop n → IsDistinctTop (clear (k ∷ []) n).0
unfolding clear clear_path
clear_single-IsDistinctTop k n d =
    IsDistinctTop-if (contains (k ∷ []) n) ((clear_child k n).0, clear_found k [] n) (n, true)
      (clear_child-IsDistinctTop k n d) d

pub replace_single-IsDistinctTop :
    (k : Text) (vs : List Text) (n : SettingsNode)
    → IsDistinctTop n
    → IsDistinctTop (replace (k ∷ []) vs n)
unfolding replace add
replace_single-IsDistinctTop k vs n d =
    modify-IsDistinctTop k (add [] vs) _ (key-add [] vs)
      (ensure_key-IsDistinctTop k _ (go (contains (k ∷ []) n)))
  where
    go : (b : Bool) → IsDistinctTop (if b then (clear (k ∷ []) n).0 else n)
    go true = clear_single-IsDistinctTop k n d
    go false = d

find_node-erase_node_top :
    (k : Text) (ns : Nodes) → HasDistinctKeys ns → find_node k (erase_node k ns) ≡ none
find_node-erase_node_top k nil d = refl
find_node-erase_node_top k (cons n ns) (new, d) = ground (
  arith,
  find_node-erase_node_top k ns d,
  text_eq_sound (key n) k,
  has_key-find_node k ns,
  has_key-find_node (key n) ns,
)

at_key-clear_child_top :
    (k : Text) (n : SettingsNode) → IsDistinctTop n → at_key k (clear_child k n).0 ≡ none
unfolding clear_child
at_key-clear_child_top k (node j null) d = refl
at_key-clear_child_top k (node j (collection ns)) d =
    ground (arith, find_node-erase_node_top k ns d, has_key-find_node k ns)

contains-clear_single :
    (k : Text) (n : SettingsNode)
    → IsDistinctTop n
    → contains (k ∷ []) n ≡ true
    → contains (k ∷ []) (clear (k ∷ []) n).0 ≡ false
unfolding clear clear_path
contains-clear_single k n d e =
    rw (e, contains_single k (clear_child k n).0, at_key-clear_child_top k n d)

module _ ⦃sys : Platform⦄ where
  -- After the values of a key are replaced, these are the values of the key.
  pub get_values-replace_single :
      (k : Text) (vs : List Text) (n : SettingsNode)
      → IsDistinctTop n
      → get_values (k ∷ []) (replace (k ∷ []) vs n) ≡ some vs
  get_values-replace_single k vs n d =
      rw (replace_lem (k ∷ []) vs n) (elim (Bool-cases (contains (k ∷ []) n)) [
        | inl e ↦ rw (
          e,
          get_values-add (k ∷ []) vs (clear (k ∷ []) n).0,
          get_values-none (k ∷ []) (clear (k ∷ []) n).0 (contains-clear_single k n d e),
        )
        | inr e ↦ rw (e, get_values-add (k ∷ []) vs n, get_values-none (k ∷ []) n e)
      ])
