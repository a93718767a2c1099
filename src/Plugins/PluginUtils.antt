-- ===== src/Plugins/PluginUtils.antt =====
-- src/core/src/patterns.cpp and src/plugins/src/pluginUtils.cpp: patterns in texts, tasks and
-- environments are replaced by one combination of their values.
pub mod Replacement
use exec_helper.Prelude.{
  Text, codes, suc, ◌+◌, ◌-◌, List, [], ◌∷◌, ◌++◌, Option, none, some, if◌then◌else◌, value_or,
  length, is_empty,
}
use exec_helper.Platform.{Platform}
use exec_helper.OrderedMap.{Map, emplace}
use exec_helper.Core.MapPermutator.{permutations}
use exec_helper.Core.MapPermutator.Combinations.{combinations}
use exec_helper.Core.Task.{
  EnvironmentCollection, Task, append, set_working_directory, set_environment, new_task,
}
use exec_helper.Config.SettingsNode.{SettingsNode, get_values, get_string}
use exec_helper.Config.Patterns.{Patterns}

abbrev pub no_key : Text
no_key = codes "NO-KEY"

abbrev pub no_value : Text
no_value = codes "NO-VALUE"

abbrev pub environment_key : Text
environment_key = codes "environment"

unfoldable pub emplace_patterns : Patterns → Map (List Text) → Map (List Text)
emplace_patterns [] m = m
emplace_patterns (p ∷ ps) m = emplace_patterns ps (emplace p.key p.values m)

-- `makePatternPermutator`: without patterns there is one round.
unfoldable pub make_pattern_permutator : Patterns → Map (List Text)
unfolding emplace_patterns
make_pattern_permutator ps =
    emplace_patterns ps (if is_empty ps then emplace no_key (no_value ∷ []) [] else [])

-- The rounds of a range-based loop over the permutator.
unfoldable pub pattern_combinations : Patterns → Option (List (Map Text))
unfolding make_pattern_permutator
pattern_combinations ps =
    let m = make_pattern_permutator ps in permutations (suc (length (combinations m))) m

module _ ⦃sys : Platform⦄ where
  unfoldable pub replace_patterns : Text → Text → Text → Text
  replace_patterns subject pattern replacement =
      sys.replace_all subject (codes "{" ++ pattern ++ codes "}") replacement

  -- `replacePatternCombinations` of a text.
  unfoldable pub replace_text : Text → Map Text → Text
  unfolding replace_patterns
  replace_text element [] = element
  replace_text element ((k, v) ∷ combination) =
      replace_text (replace_patterns element k v) combination

  -- The loop over the pairs of the environment replaces key and value by each pattern in turn.
  unfoldable pub replace_environment_from :
      EnvironmentCollection → Map Text → EnvironmentCollection → EnvironmentCollection
  unfolding replace_text
  replace_environment_from [] combination replaced = replaced
  replace_environment_from ((k, v) ∷ env) combination replaced =
      replace_environment_from env combination
        (emplace (replace_text k combination) (replace_text v combination) replaced)

  -- `replacePatternsInEnvironment`.
  unfoldable pub replace_environment : EnvironmentCollection → Map Text → EnvironmentCollection
  unfolding replace_environment_from
  replace_environment env combination = replace_environment_from env combination []

  unfoldable pub append_replaced : List Text → Map Text → Task → Task
  unfolding replace_text
  append_replaced [] combination t = t
  append_replaced (a ∷ arguments) combination t =
      append_replaced arguments combination (append (replace_text a combination) t)

  -- `replacePatternCombinations` of a task.
  unfoldable pub replace_task : Task → Map Text → Task
  unfolding replace_environment append_replaced
  replace_task t combination = append_replaced t.task combination (
      set_working_directory (replace_text t.working_directory combination)
        (set_environment (replace_environment t.env combination) (new_task [])))

  unfoldable pub get_environment_from :
      List Text → SettingsNode → EnvironmentCollection → EnvironmentCollection
  get_environment_from [] variables result = result
  get_environment_from (name ∷ names) variables result =
      get_environment_from names variables
        (elim (get_string (environment_key ∷ name ∷ []) variables) as (λ _. EnvironmentCollection) [
          | none ↦ result
          | some v ↦ emplace name v result
        ])

  unfoldable pub get_environment : SettingsNode → EnvironmentCollection
  unfolding get_environment_from
  get_environment variables =
      get_environment_from (value_or (get_values (environment_key ∷ []) variables) []) variables []
