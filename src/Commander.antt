-- ===== src/Commander.antt =====
-- src/commander/src/commander.cpp: a run of the commander pushes its options, settings, patterns and
-- plugins, executes the commands of the options and pops what it pushed.
pub mod Stacks
pub mod Depth
pub mod Sequence
use exec_helper.Prelude.{
  Text, codes, ℕ, ◌+◌, [], ◌∷◌, ◌++◌, Option, none, some, Bool, false, if◌then◌else◌, ◌>>=◌,
  is_empty,
}
use exec_helper.Platform.{Platform}
use exec_helper.OrderedMap
use exec_helper.Core.Task.{EnvironmentCollection}
use exec_helper.Config.SettingsNode.{SettingsNode, key, leaf, values}
use exec_helper.Config.Patterns.{Patterns}
use exec_helper.Plugins.State.{Options, commands, execute, Plugins, State, M}
use exec_helper.Config.Patterns.{make_handler}
use exec_helper.Core.Task.{make_task}
use exec_helper.Plugins.Run.{apply}

abbrev pub working_dir_pattern_key : Text
working_dir_pattern_key = codes "EH_WORKING_DIR"

-- `ExecutePlugin::push`, of each kind.
unfoldable pub push_fleeting_options : Options → State → State
push_fleeting_options o s = record s { fleeting = o ∷ s.fleeting }

unfoldable pub push_settings_node : SettingsNode → State → State
push_settings_node n s = record s { settings = n ∷ s.settings }

unfoldable pub push_patterns : Patterns → State → State
push_patterns ps s = record s { patterns = make_handler ps ∷ s.patterns }

unfoldable pub push_plugins : Plugins → State → State
push_plugins p s = record s { plugins = p ∷ s.plugins }

-- `popPlugins`, `popFleetingOptions`, `popSettingsNode` and `popPatterns`: an empty stack is a
-- precondition that fails.
unfoldable pub pop_plugins : State → Option State
pop_plugins s = elim s.plugins as (λ _. Option State) [
  | [] ↦ none
  | p ∷ ps ↦ some (record s { plugins = ps })
]

unfoldable pub pop_fleeting_options : State → Option State
pop_fleeting_options s = elim s.fleeting as (λ _. Option State) [
  | [] ↦ none
  | o ∷ os ↦ some (record s { fleeting = os })
]

unfoldable pub pop_settings_node : State → Option State
pop_settings_node s = elim s.settings as (λ _. Option State) [
  | [] ↦ none
  | n ∷ ns ↦ some (record s { settings = ns })
]

unfoldable pub pop_patterns : State → Option State
pop_patterns s = elim s.patterns as (λ _. Option State) [
  | [] ↦ none
  | h ∷ hs ↦ some (record s { patterns = hs })
]

unfoldable pub pop_all : Bool × State → Option (Bool × State)
unfolding pop_plugins pop_fleeting_options pop_settings_node pop_patterns
pop_all (b, s) = do
  s1 ← pop_plugins s
  s2 ← pop_fleeting_options s1
  s3 ← pop_settings_node s2
  s4 ← pop_patterns s3
  some (b, s4)

unfoldable pub push_all : Options → SettingsNode → Patterns → Plugins → State → State
unfolding push_fleeting_options push_settings_node push_patterns push_plugins
push_all o settings ps plugins s =
    push_plugins plugins
      (push_patterns ps (push_settings_node settings (push_fleeting_options o s)))

module _ ⦃sys : Platform⦄ where
  unfoldable pub add_predefined_patterns : Patterns → Patterns
  add_predefined_patterns ps =
      ps
      ++ record {
        key = working_dir_pattern_key;
        values = sys.current_path ∷ [];
        short_option = none;
        long_option = none;
      }
        ∷ []

  -- `Commander::run`. The patterns given to `apply` are those that the code has moved away before; the
  -- plugin does not look at them.
  unfoldable pub run :
      ℕ → Options → SettingsNode → Patterns → Text → EnvironmentCollection → Plugins → M Bool
  unfolding add_predefined_patterns push_all pop_all
  run fuel o settings ps directory env plugins s =
      let pushed = push_all o settings (add_predefined_patterns ps) plugins s in
      if is_empty o.commands
      then some (false, pushed)
      else apply fuel (execute o.commands o.commands) (make_task [] env directory)
          (leaf (codes "commands")) [] pushed
        >>= pop_all
