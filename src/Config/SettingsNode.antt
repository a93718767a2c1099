-- ===== src/Config/SettingsNode.antt =====
-- src/config/include/config/settingsNode.h and src/config/src/settingsNode.cpp: a tree of settings.
-- A node has a key and a pointer to its children, which is null until values are added. A member
-- function that changes the node returns the changed node; every overload of `add` returns true, so
-- the model leaves that result out. `none` of `at_key` and `at` stands for a precondition that fails.
pub mod Lookup
pub mod Insertion
pub mod Removal
pub mod Assignment
pub mod Comparison
pub mod Top
use exec_helper.Prelude.{
  Text, codes, text_eq, ℕ, suc, List, [], ◌∷◌, Option, none, some, Bool, true, false, ◌&&◌, ◌||◌,
  ◌==◌, if◌then◌else◌, ◌>>=◌, value_or, last, is_empty,
}
use exec_helper.Platform.{Platform}

mutual
  pub data SettingsNode : Type 0 where
    node : Text → Values → SettingsNode

  pub data Values : Type 0 where
    null : Values
    collection : Nodes → Values

  pub data Nodes : Type 0 where
    nil : Nodes
    cons : SettingsNode → Nodes → Nodes

abbrev pub key : SettingsNode → Text
key (node k vs) = k

-- The children, none for a null pointer.
abbrev pub children : SettingsNode → Nodes
children (node k null) = nil
children (node k (collection ns)) = ns

-- A fresh node.
abbrev pub leaf : Text → SettingsNode
leaf k = node k null

abbrev pub has_key : Text → Nodes → Bool
has_key k nil = false
has_key k (cons n ns) = text_eq (key n) k || has_key k ns

abbrev pub find_node : Text → Nodes → Option SettingsNode
find_node k nil = none
find_node k (cons n ns) = if text_eq (key n) k then some n else find_node k ns

abbrev pub push_back : Nodes → SettingsNode → Nodes
push_back nil n = cons n nil
push_back (cons m ns) n = cons m (push_back ns n)

abbrev pub push_leaves : Nodes → List Text → Nodes
push_leaves ns [] = ns
push_leaves ns (v ∷ vs) = push_leaves (push_back ns (leaf v)) vs

abbrev pub keys_of : Nodes → List Text
keys_of nil = []
keys_of (cons n ns) = key n ∷ keys_of ns

abbrev pub contains_key : Text → SettingsNode → Bool
contains_key k (node _ null) = false
contains_key k (node _ (collection ns)) = has_key k ns

abbrev pub at_key : Text → SettingsNode → Option SettingsNode
at_key k n = find_node k (children n)

unfoldable pub contains : List Text → SettingsNode → Bool
contains [] n = true
contains (k ∷ ks) n =
    let deeper = elim (at_key k n) as (λ _. Bool) [ none ↦ false | some c ↦ contains ks c ] in
    if contains_key k n then deeper else false

unfoldable pub at : List Text → SettingsNode → Option SettingsNode
at [] n = some n
at (k ∷ ks) n = at_key k n >>= λ c. at ks c

abbrev pub values : SettingsNode → Option (List Text)
values (node k null) = none
values (node k (collection ns)) = some (keys_of ns)

-- `add(SettingsValue)` and `add(SettingsValues)`.
abbrev pub add_value : Text → SettingsNode → SettingsNode
add_value v (node k null) = node k (collection (cons (leaf v) nil))
add_value v (node k (collection ns)) = node k (collection (push_back ns (leaf v)))

abbrev pub add_values : List Text → SettingsNode → SettingsNode
add_values vs (node k null) = node k (collection (push_leaves nil vs))
add_values vs (node k (collection ns)) = node k (collection (push_leaves ns vs))

-- What happens to the child that `at` points to.
abbrev pub modify_node : Text → (SettingsNode → SettingsNode) → Nodes → Nodes
modify_node k f nil = nil
modify_node k f (cons n ns) =
    if text_eq (key n) k then cons (f n) ns else cons n (modify_node k f ns)

abbrev pub modify : Text → (SettingsNode → SettingsNode) → SettingsNode → SettingsNode
modify k f (node j null) = node j null
modify k f (node j (collection ns)) = node j (collection (modify_node k f ns))

-- `if(!contains(key)) { add(key); }`, with which the loop of `add`, `operator[]` and `overwrite` begin.
unfoldable pub ensure_key : Text → SettingsNode → SettingsNode
ensure_key k n = if contains_key k n then n else add_value k n

unfoldable pub add : List Text → List Text → SettingsNode → SettingsNode
unfolding ensure_key
add [] vs n = add_values vs n
add (k ∷ ks) vs n = modify k (add ks vs) (ensure_key k n)

abbrev pub erase_node : Text → Nodes → Nodes
erase_node k nil = nil
erase_node k (cons n ns) = if text_eq (key n) k then ns else cons n (erase_node k ns)

-- The second loop of `clear`.
unfoldable pub clear_child : Text → SettingsNode → SettingsNode × Bool
clear_child k (node j null) = (node j null, false)
clear_child k (node j (collection ns)) =
    if has_key k ns
    then (node j (collection (erase_node k ns)), true)
    else (node j (collection ns), false)

-- The path up to its last key, and that key.
unfoldable pub clear_path : Text → List Text → SettingsNode → SettingsNode
unfolding clear_child
clear_path k [] n = (clear_child k n).0
clear_path k (j ∷ ks) n = modify k (clear_path j ks) n

-- What the second loop returns: whether it met the key.
unfoldable pub clear_found : Text → List Text → SettingsNode → Bool
unfolding clear_child
clear_found k [] n = (clear_child k n).1
clear_found k (j ∷ ks) n = elim (at_key k n) as (λ _. Bool) [
  | none ↦ false
  | some c ↦ clear_found j ks c
]

unfoldable pub clear : List Text → SettingsNode → SettingsNode × Bool
unfolding contains clear_path clear_found
clear [] n = (n, false)
clear (k ∷ ks) n =
    if contains (k ∷ ks) n then (clear_path k ks n, clear_found k ks n) else (n, true)

unfoldable pub replace : List Text → List Text → SettingsNode → SettingsNode
unfolding add clear
replace ks vs n = add ks vs (if contains ks n then (clear ks n).0 else n)

-- The copy constructor, which is `deepCopy` into a fresh node of the key of the other one; what
-- `deepCopy` makes of old children, where nothing happens if the other node has none; and its loop,
-- which puts a copy of each child of the other node behind the ones before.
abbrev mutual
  pub copy_node : SettingsNode → SettingsNode
  copy_node (node j ws) = node j (copy_values null ws)

  pub copy_values : Values → Values → Values
  copy_values vs null = vs
  copy_values vs (collection ns) = collection (copy_nodes ns)

  pub copy_nodes : Nodes → Nodes
  copy_nodes nil = nil
  copy_nodes (cons n ns) = cons (copy_node n) (copy_nodes ns)

-- `deepCopy`.
abbrev pub deep_copy : SettingsNode → SettingsNode → SettingsNode
deep_copy (node k vs) (node j ws) = node k (copy_values vs ws)

-- `operator=(const SettingsNode&)`, to another object.
abbrev pub assign : SettingsNode → SettingsNode → SettingsNode
assign (node k vs) other = deep_copy (node (key other) vs) other

-- `(*this)[key] = other`.
unfoldable pub assign_child : Text → SettingsNode → SettingsNode → SettingsNode
unfolding ensure_key
assign_child k other n = modify k (λ c. assign c other) (ensure_key k n)

-- The loop of `overwrite`; a key is looked up in the whole of `newSettings`.
unfoldable pub overwrite_all : List Text → SettingsNode → SettingsNode → SettingsNode
unfolding ensure_key
overwrite_all [] new n = n
overwrite_all (k ∷ ks) new n =
    overwrite_all ks new
      (modify k (λ c. deep_copy c (value_or (at_key k new) (leaf k))) (ensure_key k n))

unfoldable pub overwrite : SettingsNode → SettingsNode → SettingsNode
unfolding overwrite_all
overwrite new n = overwrite_all (value_or (values new) []) new n

abbrev pub size : Nodes → ℕ
size nil = 0
size (cons n ns) = suc (size ns)

-- `operator==`, which looks each child of the left node up in the right one.
unfoldable mutual
  pub node_eq : SettingsNode → SettingsNode → Bool
  node_eq (node k vs) other = text_eq k (key other) && pointers_eq vs other

  pub pointers_eq : Values → SettingsNode → Bool
  pointers_eq null (node _ null) = true
  pointers_eq null (node _ (collection ms)) = false
  pointers_eq (collection ns) (node _ null) = false
  pointers_eq (collection ns) (node j (collection ms)) =
      size ns == size ms && children_eq ns (node j (collection ms))

  pub children_eq : Nodes → SettingsNode → Bool
  children_eq nil other = true
  children_eq (cons n ns) other =
      (contains_key (key n) other
        && elim (at_key (key n) other) as (λ _. Bool) [ none ↦ false | some m ↦ node_eq n m ])
      && children_eq ns other

-- What the casts to a single value read: the last of the values.
unfoldable pub get_last : List Text → SettingsNode → Option Text
unfolding contains at
get_last ks n =
    if contains ks n
    then (do found ← at ks n; vs ← values found; if is_empty vs then none else some (last [] vs))
    else none

unfoldable pub get_bool : List Text → SettingsNode → Option Bool
unfolding get_last
get_bool ks n = do
  v ← get_last ks n
  some (text_eq v (codes "yes") || text_eq v (codes "1") || text_eq v (codes "true"))

-- `get` with `detail::Cast` of src/config/include/config/cast-impl.h, at each type that is asked for.
module _ ⦃sys : Platform⦄ where
  unfoldable pub cast_values : List Text → List Text
  cast_values [] = []
  cast_values (v ∷ vs) = sys.cast_string v ∷ cast_values vs

  unfoldable pub get_values : List Text → SettingsNode → Option (List Text)
  unfolding contains at cast_values
  get_values ks n =
      if contains ks n then (do found ← at ks n; vs ← values found; some (cast_values vs)) else none

  unfoldable pub get_string : List Text → SettingsNode → Option Text
  unfolding get_last
  get_string ks n = do v ← get_last ks n; some (sys.cast_string v)

  unfoldable pub get_char : List Text → SettingsNode → Option ℕ
  unfolding get_last
  get_char ks n = get_last ks n >>= sys.cast_char

  unfoldable pub get_uint32 : List Text → SettingsNode → Option ℕ
  unfolding get_last
  get_uint32 ks n = get_last ks n >>= sys.cast_uint32
