-- ===== src/Plugins/ExecutePlugin.antt =====
-- src/plugins/src/executePlugin.cpp: which plugin a command stands for, which variables it gets, and
-- the loop over the commands.
pub mod Children
pub mod Variables
pub mod Filled
use exec_helper.Prelude.{
  Text, codes, text_eq, List, [], ◌∷◌, ◌++◌, map, Option, none, some, Bool, false, if◌then◌else◌,
  ◌>>=◌, value_or, any, last, is_empty,
}
use exec_helper.Platform.{Platform}
use exec_helper.OrderedMap.{find}
use exec_helper.Core.Task.{Task}
use exec_helper.Config.SettingsNode.{
  SettingsNode, leaf, contains, at, at_key, assign_child, replace, get_values,
}
use exec_helper.Config.Patterns.{
  Patterns, PatternsHandler, contains_pattern, get_pattern, patterns_key,
}
use exec_helper.Plugins.State.{
  Options, Plugin, commands, command_line_command, memory, valgrind, pmd, lcov, execute, lua,
  Plugins, State, M, ◌>>=ₘ◌, pure, demand, read_top, each,
}
use exec_helper.Plugins.Internal.{
  commands_variables, command_line_variables, valgrind_variables, pmd_variables, lua_variables,
}
use exec_helper.Plugins.Internal.Keys.{Run}
use exec_helper.Plugins.Internal.Lcov.{lcov_variables}

-- `Plugin::getVariablesMap`.
unfoldable pub plugin_variables : Plugin → Options → SettingsNode
unfolding commands_variables command_line_variables valgrind_variables pmd_variables lua_variables
    lcov_variables
plugin_variables commands o = commands_variables o
plugin_variables command_line_command o = command_line_variables
plugin_variables memory o = leaf (codes "memory")
plugin_variables valgrind o = valgrind_variables o
plugin_variables pmd o = pmd_variables o
plugin_variables lcov o = lcov_variables
plugin_variables (execute cs initial) o = leaf (codes "execute-plugin")
plugin_variables (lua path script) o = lua_variables o

abbrev pub built_in : Plugins
built_in =
    (codes "command-line-command", command_line_command)
    ∷ (codes "memory", memory)
    ∷ (codes "valgrind", valgrind)
    ∷ (codes "pmd", pmd)
    ∷ (codes "lcov", lcov)
    ∷ []

unfoldable pub plugin_names : Plugins → List Text
plugin_names plugins = map (λ e. e.0) built_in ++ map (λ e. e.0) plugins

-- `getPlugin`; `none` is the exception InvalidPlugin.
unfoldable pub get_plugin : Text → Plugins → Option Plugin
get_plugin name plugins = elim (find name plugins) as (λ _. Option Plugin) [
  | none ↦ find name built_in
  | some p ↦ some p
]

unfoldable pub unknown_free : List Text → PatternsHandler → Option Patterns
unknown_free [] handler = some []
unknown_free (k ∷ ks) handler =
    let rest = unknown_free ks handler in
    if contains_pattern k handler
    then (do p ← get_pattern k handler; ps ← rest; some (p ∷ ps))
    else rest

abbrev pub copies : List Text → Text → List Text
copies [] c = []
copies (x ∷ xs) c = c ∷ copies xs c

unfoldable pub assign_children : List Text → SettingsNode → SettingsNode → Option SettingsNode
assign_children [] depth variables = some variables
assign_children (k ∷ ks) depth variables =
    at_key k depth >>= λ c. assign_children ks depth (assign_child k c variables)

module _ ⦃sys : Platform⦄ where
  -- `getNextPatterns`.
  unfoldable pub next_patterns : SettingsNode → PatternsHandler → Option Patterns
  unfolding unknown_free
  next_patterns variables handler =
      unknown_free (value_or (get_values (patterns_key ∷ []) variables) []) handler

  -- `index`; `none` where an optional without a value is read, and where the assertion fails that the
  -- path is not empty.
  unfoldable pub index : SettingsNode → SettingsNode → List Text → Option SettingsNode
  unfolding assign_children
  index variables settings ks =
      if contains ks settings
      then (if is_empty ks then none else (do
        vs ← get_values ks settings
        depth ← at ks settings
        assign_children (value_or (get_values [] depth) []) depth
            (replace (last [] ks ∷ []) vs variables)))
      else some variables

  -- The loop of `getVariablesMap`.
  unfoldable pub merge_variables :
      List (List Text) → SettingsNode → SettingsNode → Option SettingsNode
  unfolding index
  merge_variables [] settings variables = some variables
  merge_variables (ks ∷ rest) settings variables = do
    variables' ← (if contains ks settings then index variables settings ks else some variables)
    merge_variables rest settings variables'

  -- `getNextStep`.
  unfoldable pub next_step : Text → M (Option Plugin)
  unfolding plugin_names get_plugin
  next_step command = read_top State.plugins >>=ₘ λ plugins.
      if any (text_eq command) (plugin_names plugins)
      then pure (get_plugin command plugins)
      else (read_top State.settings >>=ₘ λ settings.
          pure (get_values (command ∷ []) settings >>= λ cs. some (execute cs (copies cs command))))

  -- One round of the loop of `apply`, for a command and the command that it was reached by.
  unfoldable pub execute_one : Run → Task → Text × Text → M Bool
  unfolding next_step plugin_variables merge_variables next_patterns
  execute_one run t (command, initial) = next_step command >>=ₘ λ found.
      elim found as (λ _. M Bool) [
        | none ↦ pure false
        | some plugin ↦ read_top State.fleeting >>=ₘ λ o. read_top State.settings >>=ₘ λ settings.
            demand (
              merge_variables ((command ∷ []) ∷ (command ∷ initial ∷ []) ∷ []) settings
                (plugin_variables plugin o))
            >>=ₘ λ variables. read_top State.patterns >>=ₘ λ handler.
                demand (next_patterns variables handler) >>=ₘ λ ps. run plugin t variables ps
      ]

  abbrev pub zip_commands : List Text → List Text → List (Text × Text)
  zip_commands [] initial = []
  zip_commands (c ∷ cs) [] = []
  zip_commands (c ∷ cs) (i ∷ is) = (c, i) ∷ zip_commands cs is

  unfoldable pub execute_apply : Run → List Text → List Text → Task → M Bool
  unfolding execute_one
  execute_apply run cs initial t = each (execute_one run t) (zip_commands cs initial)
