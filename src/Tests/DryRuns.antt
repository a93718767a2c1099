-- ===== src/Tests/DryRuns.antt =====
-- A dry run, and the default options, at concrete inputs.
use exec_helper.Prelude.{
  Text, codes, text_eq, text_lt, List, [], ◌∷◌, some, true, ◌≡◌, refl, arith, value_or,
}
use exec_helper.OrderedMap.{Map, find, assign, emplace, IsSorted, erase}
use exec_helper.OrderedMap
use exec_helper.Platform.{starts_with}
use exec_helper.Config.Argv.{
  argv_from_main, new_buffers, copy_argument, strncpy, strnlen, texts, read,
}
use exec_helper.Core.Task.{
  Task, pwd_key, make_task, new_task, set_environment, set_working_directory, append_to_environment,
  append_all, append,
}
use exec_helper.Core.MapPermutator.{permutations}
use exec_helper.Core.MapPermutator.Combinations.{combinations}
use exec_helper.Config.SettingsNode.{
  SettingsNode, leaf, add, contains, get_values, get_string, get_bool,
}
use exec_helper.Config.SettingsNode
use exec_helper.Plugins.State.{finish, ◌>>=ₘ◌, pure, demand, read_top, register_task, each}
use exec_helper.Plugins.PluginUtils.{
  pattern_combinations, replace_task, replace_text, replace_patterns, emplace_patterns,
  make_pattern_permutator, replace_environment_from, replace_environment, append_replaced,
  get_environment, get_environment_from,
}
use exec_helper.Plugins.Internal.{
  add_environment, use_working_directory, register_replaced, lua_apply, run_script,
}
use exec_helper.Plugins.ExecutePlugin.{
  execute_apply, execute_one, next_step, get_plugin, unknown_free, merge_variables, index,
  next_patterns, plugin_names, plugin_variables,
}
use exec_helper.Plugins.Run.{apply}
use exec_helper.Config.Patterns.{make_handler, add_patterns, add_pattern}
use exec_helper.Commander.{run, push_all, pop_all, add_predefined_patterns}
use exec_helper.Core.Executor.{Session, choose_executor, execute_tasks, execute_task}
use exec_helper.Tests.Sample.{sample_platform, replace_from}
use exec_helper.Tests.SampleSystem.{sample_processes}
use exec_helper.Tests.SampleSystem.{sample_files}
use exec_helper.Yaml.{
  YamlNode, scalar, map_of, sequence, no_elements, element, no_items, item, get_tree, get_sub_tree,
  yaml_size, elements_size, items_size,
}
use exec_helper.Environment.{to_env_collection, to_env_from, split_variable}
use exec_helper.Config.Patterns.{parse_settings, process_patterns}
use exec_helper.Config.FileSearch.{
  get_home_directory, find_file, parents_from, start_directory, get_all_parent_directories,
}
use exec_helper.Config.FleetingOptions.{
  dry_run_key, command_key, new_options, get_default, read_jobs, verify_options,
}
use exec_helper.Config.OptionDescriptions.{
  Value, bool_value, texts_value, Parser, get_options_map, set_positional_argument, to_map_from,
  option_to_map, read_option, add_option, argument_keys,
}
use exec_helper.Config.SettingsNode.{replace}
use exec_helper.Prelude.{ap, subst}
use exec_helper.Application.{
  command_option, Installation, get_default_options, add_pattern_options, pattern_option,
  parse_settings_file, tree_of, set_pattern_values, pattern_values, add_additional_search_paths,
  get_additional_search_paths, get_search_paths, get_settings_file, is_script, add_scripts,
  discover_from, discover_plugins,
}
use exec_helper.Application.Main.{
  Ending, exit_code, initial_state, plugin_options, run_commander, without_settings_file,
  handle_configuration, with_options, with_file, with_first_pass, exec_helper_main,
}
use exec_helper.Application.Main
use exec_helper.Application.Main.DryRun.{FindsDryRun, dry_run_option, exec_helper_main-FindsDryRun}

-- A parser that finds the command `fail` and a dry run, whatever the arguments are.
abbrev given : Map Value
given = (command_key, texts_value (codes "fail" ∷ [])) ∷ (dry_run_key, bool_value true) ∷ []

abbrev dry_parser : Parser
dry_parser options positional allow argv = some given

abbrev document : YamlNode
document = map_of (
    element (some (codes "fail")) (sequence (item (scalar (some (codes "all"))) no_items))
      no_elements)

abbrev plain_task : Text → Task
plain_task name = record {
  task = name ∷ [];
  env = (pwd_key, codes "/work") ∷ [];
  working_directory = codes "/work";
}

abbrev installation : Installation
installation = record {
  load_file = λ file. some document;
  script = λ path t variables ps. finish (plain_task (codes "false") ∷ []);
  plugins_install_path = codes "/scripts";
}

abbrev session : Session
session = record { shell = record { environ = []; processes = [] }; last_return_code = 0 }

main_run :
    exec_helper_main 3 installation dry_parser
      (codes "exec-helper" ∷ [])
      (codes "HOME=/home" ∷ [])
      session
    ≡ some (exit_code 0, session)
unfolding run apply execute_apply execute_one next_step each push_all pop_all ◌>>=ₘ◌ pure demand
    read_top register_task add_predefined_patterns make_handler add_patterns add_pattern
    plugin_names get_plugin merge_variables plugin_variables next_patterns index lua_apply
    run_script register_replaced pattern_combinations permutations combinations replace_task
    replace_text replace_patterns emplace_patterns make_pattern_permutator replace_environment_from
    replace_environment append_replaced get_environment get_environment_from add_environment
    use_working_directory make_task new_task set_environment set_working_directory
    append_to_environment append_all append text_eq text_lt find emplace assign OrderedMap.contains
    contains get_values get_string starts_with replace_from add unknown_free erase exec_helper_main
    with_first_pass with_file with_options without_settings_file handle_configuration run_commander
    Main.finish choose_executor execute_tasks execute_task to_env_collection to_env_from
    split_variable get_options_map to_map_from option_to_map read_option get_default_options
    add_option argument_keys get_settings_file get_search_paths get_all_parent_directories
    start_directory parents_from find_file get_home_directory get_bool SettingsNode.replace
    get_default new_options read_jobs verify_options parse_settings_file tree_of get_tree
    get_sub_tree yaml_size elements_size items_size parse_settings process_patterns
    add_pattern_options pattern_option set_pattern_values pattern_values get_additional_search_paths
    add_additional_search_paths discover_plugins discover_from add_scripts is_script
    set_positional_argument SettingsNode.assign_child argv_from_main new_buffers copy_argument
    strncpy strnlen texts read
main_run = refl

default_options_run :
    IsSorted (get_default_options).options
    × (find command_key get_default_options.options ≡ some command_option)
    × (find dry_run_key get_default_options.options ≡ some dry_run_option)
unfolding get_default_options add_option emplace text_lt text_eq find argument_keys
default_options_run = (ground arith, refl, refl)

finds_dry_run : (args : List Text) → FindsDryRun dry_parser args
unfolding find text_eq
finds_dry_run args before after positional found e =
    subst (λ m. find dry_run_key m ≡ some (bool_value true)) (ap (λ o. value_or o []) e) refl

finds :
    (args : List Text)
    → texts (argv_from_main (codes "exec-helper" ∷ []) 0).0 ≡ some args
    → FindsDryRun dry_parser args
finds args e = finds_dry_run args

exec_helper_main-FindsDryRun_example : session ≡ session
exec_helper_main-FindsDryRun_example =
    exec_helper_main-FindsDryRun 3 installation dry_parser (codes "exec-helper" ∷ [])
      (codes "HOME=/home" ∷ []) session session (exit_code 0) finds main_run
