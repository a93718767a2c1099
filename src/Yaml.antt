-- ===== src/Yaml.antt =====
-- src/yaml/src/yamlWrapper.cpp and src/yaml/src/yaml.cpp: the walk over a tree of yaml-cpp that fills a
-- settings tree. The tree is given as what the walk asks it for.
pub mod Documents
pub mod Access
use exec_helper.Prelude.{
  Text, ℕ, suc, ◌+◌, List, [], ◌∷◌, ◌++◌, Option, none, some, Bool, true, false, ◌==◌,
  if◌then◌else◌,
}
use exec_helper.Config.SettingsNode.{SettingsNode, add}

-- `YAML::Node`, by its type. A scalar, or the key of an element, is `none` where `as<string>` throws.
mutual
  pub data YamlNode : Type 0 where
    null undefined : YamlNode
    scalar : Option Text → YamlNode
    map_of : Elements → YamlNode
    sequence : Items → YamlNode

  pub data Elements : Type 0 where
    no_elements : Elements
    element : Option Text → YamlNode → Elements → Elements

  pub data Items : Type 0 where
    no_items : Items
    item : YamlNode → Items → Items

-- What the walk goes on with only if it has not failed.
abbrev pub and_then :
    Bool × SettingsNode → (SettingsNode → Bool × SettingsNode) → Bool × SettingsNode
and_then (true, s) next = next s
and_then (false, s) next = (false, s)

-- `getSubTree`, with the loop over the elements of a map and that over a sequence.
unfoldable mutual
  pub get_sub_tree : YamlNode → List Text → SettingsNode → Bool × SettingsNode
  get_sub_tree null keys s = (true, s)
  get_sub_tree undefined keys s = (true, s)
  get_sub_tree (scalar none) keys s = (false, s)
  get_sub_tree (scalar (some v)) keys s = (true, add keys (v ∷ []) s)
  get_sub_tree (map_of es) keys s = get_elements es keys s
  get_sub_tree (sequence is) keys s = get_items is keys s

  pub get_elements : Elements → List Text → SettingsNode → Bool × SettingsNode
  get_elements no_elements keys s = (true, s)
  get_elements (element none n es) keys s = (false, s)
  get_elements (element (some k) n es) keys s =
      and_then (get_sub_tree n (keys ++ k ∷ []) (add keys (k ∷ []) s)) (get_elements es keys)

  pub get_items : Items → List Text → SettingsNode → Bool × SettingsNode
  get_items no_items keys s = (true, s)
  get_items (item n is) keys s = and_then (get_sub_tree n keys s) (get_items is keys)

-- `node.size()`.
unfoldable pub elements_size : Elements → ℕ
elements_size no_elements = 0
elements_size (element k n es) = suc (elements_size es)

unfoldable pub items_size : Items → ℕ
items_size no_items = 0
items_size (item n is) = suc (items_size is)

unfoldable pub yaml_size : YamlNode → ℕ
unfolding elements_size items_size
yaml_size (map_of es) = elements_size es
yaml_size (sequence is) = items_size is
yaml_size _ = 0

-- `getTree` of the whole document.
unfoldable pub get_tree : YamlNode → SettingsNode → Bool × SettingsNode
unfolding yaml_size get_sub_tree
get_tree n s = if yaml_size n == 0 then (false, s) else get_sub_tree n [] s
