-- ===== src/Plugins/Lua.antt =====
-- src/plugins/src/luaPlugin.cpp: what the objects `config` and `patterns`, and the functions `one` and
-- `list`, give a script. An unordered_map is kept in key order.
use exec_helper.Prelude.{
  Text, codes, text_eq, ℕ, zero, suc, List, [], ◌∷◌, Option, none, some, not, if◌then◌else◌, length,
  is_some,
}
use exec_helper.Prelude.{◌>>=◌}
use exec_helper.Platform.{Platform}
use exec_helper.OrderedMap.{Map, find, assign}
use exec_helper.Config.SettingsNode.{SettingsNode, contains, at, at_key, values, get_string}
use exec_helper.Config.Patterns.{Patterns}
use exec_helper.Plugins.Internal.Keys.{decimal}

-- An array with the positions as keys, from one position on.
unfoldable pub indexed : ℕ → List Text → Map Text → Map Text
indexed i [] result = result
indexed i (v ∷ vs) result = indexed (suc i) vs (assign (decimal i) v result)

module _ ⦃sys : Platform⦄ where
  -- The map of a node whose first child has values: `none` where a later child has none, and an
  -- optional without a value is read.
  unfoldable pub map_from : List Text → SettingsNode → Map Text → Option (Map Text)
  map_from [] subnode result = some result
  map_from (v ∷ vs) subnode result =
      get_string (v ∷ []) subnode >>= λ text. map_from vs subnode (assign v text result)

  unfoldable pub node_to_map : SettingsNode → Option (List Text) → Option (Map Text)
  unfolding map_from indexed
  node_to_map subnode none = some []
  node_to_map subnode (some []) = some []
  node_to_map subnode (some (v ∷ vs)) = at_key v subnode >>= λ subsubnode.
      if is_some (values subsubnode)
      then map_from (v ∷ vs) subnode []
      else some (indexed 0 (v ∷ vs) [])

  -- `Config::get`; the inner `none` is a key that is not there.
  unfoldable pub config_get : Text → SettingsNode → Option (Option (Map Text))
  unfolding node_to_map
  config_get key config =
      if not (contains (key ∷ []) config)
      then some none
      else (at (key ∷ []) config >>= λ subnode.
          node_to_map subnode (values subnode) >>= λ result. some (some result))

-- Values with their positions, from one position on.
unfoldable pub numbered : ℕ → List Text → List (ℕ × Text)
numbered i [] = []
numbered i (v ∷ vs) = (i, v) ∷ numbered (suc i) vs

-- `PatternWrapper::get`.
unfoldable pub pattern_get : Text → Patterns → Option (List (ℕ × Text))
unfolding numbered
pattern_get key [] = none
pattern_get key (p ∷ ps) =
    let rest = pattern_get key ps in if text_eq key p.key then some (numbered 1 p.values) else rest

-- `one`; the outer `none` is the exception of `at`.
unfoldable pub one : Option (Map Text) → Option (Option Text)
one none = some none
one (some vs) = find (codes "0") vs >>= λ v. some (some v)

-- The loop of `list`, with the number of rounds that are left.
unfoldable pub list_from : ℕ → ℕ → Map Text → Option (List (ℕ × Text))
list_from zero i vs = some []
list_from (suc rounds) i vs = do
  v ← find (decimal i) vs
  rest ← list_from rounds (suc i) vs
  some ((suc i, v) ∷ rest)

unfoldable pub list : Option (Map Text) → Option (Option (List (ℕ × Text)))
unfolding list_from
list none = some none
list (some vs) = list_from (length vs) 0 vs >>= λ result. some (some result)
