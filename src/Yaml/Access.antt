-- ===== src/Yaml/Access.antt =====
-- src/yaml/src/yaml.cpp and the access by keys of src/yaml/include/yaml/yamlWrapper.h: a value below some
-- keys. What yaml-cpp does with a node is given; `none` is an exception of it.
use exec_helper.Prelude.{
  Text, List, [], ◌∷◌, ◌++◌, Option, none, some, Bool, false, value_or, ◌>>=◌, ◌≡◌, refl,
}
use exec_helper.Config.SettingsNode.{SettingsNode}
use exec_helper.Yaml.{YamlNode, get_tree}

-- `YAML::Node::operator[]` and `as`.
pub record YamlAccess : Type 0 where
  pub subscript : Text → YamlNode → Option YamlNode
  pub as_text : YamlNode → Option Text
  pub as_texts : YamlNode → Option (List Text)

module _ ⦃yaml : YamlAccess⦄ where
  -- `getSubNode`.
  unfoldable pub get_sub_node : List Text → YamlNode → Option YamlNode
  get_sub_node [] n = some n
  get_sub_node (k ∷ ks) n = yaml.subscript k n >>= get_sub_node ks

  -- `get` of a text and of a collection.
  unfoldable pub get_text : List Text → YamlNode → Option Text
  unfolding get_sub_node
  get_text keys n = get_sub_node keys n >>= yaml.as_text

  unfoldable pub get_texts : List Text → YamlNode → Option (List Text)
  unfolding get_sub_node
  get_texts keys n = get_sub_node keys n >>= yaml.as_texts

  -- `Yaml::getValue` and `Yaml::getValueCollection`, which catch the exceptions.
  unfoldable pub get_value : List Text → YamlNode → Text
  unfolding get_text
  get_value keys n = value_or (get_text keys n) []

  unfoldable pub get_value_collection : List Text → YamlNode → List Text
  unfolding get_texts
  get_value_collection keys n = value_or (get_texts keys n) []

  -- `getTree` below some keys.
  unfoldable pub get_tree_at : List Text → YamlNode → SettingsNode → Bool × SettingsNode
  unfolding get_sub_node
  get_tree_at keys n s = elim (get_sub_node keys n) as (λ _. Bool × SettingsNode) [
    | none ↦ (false, s)
    | some found ↦ get_tree found s
  ]

  -- Following two paths one after the other is following the path that joins them.
  pub get_sub_node-append :
      (ks js : List Text) (n : YamlNode)
      → get_sub_node (ks ++ js) n ≡ (get_sub_node ks n >>= get_sub_node js)
  unfolding get_sub_node
  get_sub_node-append [] js n = refl
  get_sub_node-append (k ∷ ks) js n = go (yaml.subscript k n) (get_sub_node-append ks js)
    where
      go :
          (o : Option YamlNode)
          → ((m : YamlNode) → get_sub_node (ks ++ js) m ≡ (get_sub_node ks m >>= get_sub_node js))
          → (o >>= get_sub_node (ks ++ js)) ≡ ((o >>= get_sub_node ks) >>= get_sub_node js)
      go none h = refl
      go (some m) h = h m
