-- ===== src/Tests/SettingsRuns.antt =====
-- The settings tree at concrete inputs.
use exec_helper.Prelude.{
  Text, codes, text_eq, [], ◌∷◌, ◌++◌, none, some, true, false, ◌||◌, if◌then◌else◌, value_or,
  is_some, ◌≡◌, refl,
}
use exec_helper.Config.SettingsNode.{
  SettingsNode, node, collection, nil, cons, leaf, contains_key, contains, at, add, get_values,
  clear, replace, overwrite, node_eq,
}
use exec_helper.Config.SettingsNode.Insertion.{get_values-add}
use exec_helper.Config.SettingsNode.Removal.{IsDistinct, clear-contains, get_values-replace}
use exec_helper.Config.SettingsNode.Assignment.{overwrite-get_values}
use exec_helper.Config.SettingsNode.Comparison.{node_eq_refl, node_eq-at}
use exec_helper.Tests.Sample.{sample_platform}

abbrev ka : Text
ka = codes "a"

abbrev kb : Text
kb = codes "b"

abbrev kc : Text
kc = codes "c"

abbrev tree : SettingsNode
tree = node (codes "root") (
    collection
      (cons (node ka (collection (cons (leaf kb) (cons (leaf kc) nil)))) (cons (leaf kb) nil)))

tree-IsDistinct : IsDistinct tree
unfolding IsDistinct text_eq
tree-IsDistinct = (refl, (refl, tt, (refl, tt, tt)), (refl, tt, tt))

get_values_run :
    (get_values (ka ∷ []) (add (ka ∷ []) (codes "d" ∷ []) tree) ≡ some (kb ∷ kc ∷ codes "d" ∷ []))
    × (get_values (kb ∷ ka ∷ []) (add (kb ∷ ka ∷ []) (kc ∷ []) tree) ≡ some (kc ∷ []))
    × (get_values (kc ∷ []) tree ≡ none)
unfolding get_values add text_eq
get_values_run = (refl, refl, refl)

get_values-add_example :
    get_values (kb ∷ kc ∷ []) (add (kb ∷ kc ∷ []) (ka ∷ []) tree)
    ≡ some (value_or (get_values (kb ∷ kc ∷ []) tree) [] ++ ka ∷ [])
get_values-add_example = get_values-add (kb ∷ kc ∷ []) (ka ∷ []) tree

clear-contains_example :
    ((clear (ka ∷ kc ∷ []) tree).1 ≡ true)
    × (contains (ka ∷ kc ∷ []) (clear (ka ∷ kc ∷ []) tree).0 ≡ false)
    × (clear [] tree ≡ (tree, false))
clear-contains_example = clear-contains ka (kc ∷ []) tree tree-IsDistinct

get_values-replace_example :
    get_values (ka ∷ []) (replace (ka ∷ []) (kc ∷ []) tree) ≡ some (kc ∷ [])
get_values-replace_example = get_values-replace ka [] (kc ∷ []) tree tree-IsDistinct

overwrite-get_values_example :
    (contains_key ka (overwrite tree (leaf kc)) ≡ contains_key ka (leaf kc) || contains_key ka tree)
    × (get_values (ka ∷ []) (overwrite tree (leaf kc)) ≡ (
        if is_some (get_values (ka ∷ []) tree)
        then get_values (ka ∷ []) tree
        else get_values (ka ∷ []) (leaf kc)))
overwrite-get_values_example = overwrite-get_values ka [] tree (leaf kc)

node_eq-at_example :
    (m : SettingsNode) × (at (kb ∷ []) tree ≡ some m) × (node_eq (leaf kb) m ≡ true)
node_eq-at_example =
    node_eq-at (kb ∷ []) tree tree (leaf kb) (node_eq_refl tree tree-IsDistinct)
      (unfold at text_eq in refl)
