-- ===== src/Tests/PatternRuns.antt =====
-- Patterns, their reading from the settings and their replacement at concrete inputs.
use exec_helper.Prelude.{
  Text, codes, text_eq, List, [], ◌∷◌, map, none, some, false, value_or, is_some, is_empty, ◌≡◌,
  refl, All,
}
use exec_helper.OrderedMap.{Map, find}
use exec_helper.Core.Task.{Task}
use exec_helper.Config.SettingsNode.{
  SettingsNode, nil, cons, leaf, contains, at_key, get_values, get_string,
}
use exec_helper.Config.Patterns.{Pattern, Patterns, contains_pattern, get_pattern, patterns_key}
use exec_helper.Plugins.PluginUtils.{replace_text, replace_task}
use exec_helper.Config.SettingsNode.{node, collection, clear, get_char, get_string, overwrite}
use exec_helper.Config.SettingsNode.Removal.{IsDistinct}
use exec_helper.Config.Patterns.{make_handler, parse_settings}
use exec_helper.Config.Patterns.Reading.{
  first_pattern, make_handler-get_pattern, parse_settings-described, described, pattern_keys,
}
use exec_helper.Core.Task.{pwd_key}
use exec_helper.Core.Task.Environment.{IsConsistent}
use exec_helper.Plugins.PluginUtils.{replace_environment}
use exec_helper.Plugins.PluginUtils.Replacement.{replace_task-IsConsistent}
use exec_helper.Tests.Sample.{sample_platform}

abbrev mode_key : Text
mode_key = codes "MODE"

abbrev mode : Pattern
mode = record {
  key = mode_key;
  values = codes "debug" ∷ codes "release" ∷ [];
  short_option = none;
  long_option = none;
}

abbrev mode_tree : SettingsNode
mode_tree = node mode_key (
    collection (
      cons
        (node (codes "default-values")
          (collection (cons (leaf (codes "debug")) (cons (leaf (codes "release")) nil))))
        nil))

abbrev configuration : SettingsNode
configuration = node (codes "root") (
    collection (
      cons (node patterns_key (collection (cons mode_tree nil)))
        (cons (node (codes "build") (collection (cons (leaf (codes "memory")) nil))) nil)))

configuration-IsDistinct : IsDistinct configuration
unfolding IsDistinct text_eq
configuration-IsDistinct =
    (refl, (refl, (refl, (refl, tt, (refl, tt, tt)), tt), tt), (refl, (refl, tt, tt), tt))

make_handler-get_pattern_example :
    (get_pattern mode_key (make_handler (mode ∷ [])) ≡ first_pattern mode_key (mode ∷ []))
    × (contains_pattern mode_key (make_handler (mode ∷ []))
        ≡ is_some (first_pattern mode_key (mode ∷ [])))
make_handler-get_pattern_example = make_handler-get_pattern mode_key (mode ∷ [])

parse_settings-described_example :
    (result : Patterns × SettingsNode) × (parse_settings (some configuration) ≡ some (some result))
    × (result.0
        ≡ described
            (value_or (at_key patterns_key configuration) (leaf patterns_key))
            (pattern_keys configuration))
    × All (λ p. is_empty p.values ≡ false) result.0
    × (contains (patterns_key ∷ []) result.1 ≡ false)
    × ((j : Text) (js : List Text)
        → text_eq j patterns_key ≡ false
        → get_values (j ∷ js) result.1 ≡ get_values (j ∷ js) configuration)
parse_settings-described_example = parse_settings-described configuration configuration-IsDistinct

parse_settings_run :
    parse_settings (some configuration)
    ≡ some (some (mode ∷ [], (clear (patterns_key ∷ []) configuration).0))
unfolding parse_settings clear get_char get_string overwrite text_eq get_values
parse_settings_run = refl

abbrev mode_task : Task
mode_task = record {
  task = codes "make" ∷ codes "{MODE}" ∷ [];
  env = (codes "OUT", codes "out/{MODE}") ∷ [];
  working_directory = codes "build/{MODE}";
}

abbrev debug : Map Text
debug = (mode_key, codes "debug") ∷ []

replace_task-IsConsistent_example :
    let t' = replace_task mode_task debug in
    IsConsistent t'
    × (t'.task ≡ map (λ a. replace_text a debug) mode_task.task)
    × (t'.working_directory ≡ replace_text mode_task.working_directory debug)
    × ((q : Text)
        → text_eq q pwd_key ≡ false
        → find q t'.env ≡ find q (replace_environment mode_task.env debug))
replace_task-IsConsistent_example = replace_task-IsConsistent mode_task debug
