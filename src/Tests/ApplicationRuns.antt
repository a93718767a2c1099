-- ===== src/Tests/ApplicationRuns.antt =====
-- The main function at concrete inputs.
use exec_helper.Prelude.{
  Text, codes, text_eq, text_lt, ℕ, List, [], ◌∷◌, ◌++◌, none, some, Bool, true, false, ◌≡◌, refl,
  map,
}
use exec_helper.OrderedMap.{Map, find, assign, emplace, IsSorted, erase}
use exec_helper.OrderedMap
use exec_helper.Platform.{starts_with}
use exec_helper.Core.Task.{
  Task, pwd_key, make_task, new_task, set_environment, set_working_directory, append_to_environment,
  append_all, append,
}
use exec_helper.Core.MapPermutator.{permutations}
use exec_helper.Core.MapPermutator.Combinations.{combinations}
use exec_helper.Config.SettingsNode.{leaf, add, contains, get_values, get_string}
use exec_helper.Plugins.State.{
  finish, lua, State, Plugins, ◌>>=ₘ◌, pure, demand, read_top, register_task, each,
}
use exec_helper.Plugins.PluginUtils.{
  pattern_combinations, replace_task, replace_text, replace_patterns, emplace_patterns,
  make_pattern_permutator, replace_environment_from, replace_environment, append_replaced,
  get_environment, get_environment_from,
}
use exec_helper.Plugins.Internal.{
  add_environment, use_working_directory, register_replaced, lua_apply, run_script,
}
use exec_helper.Plugins.ExecutePlugin.{
  execute_apply, execute_one, next_step, get_plugin, unknown_free, merge_variables, index,
  next_patterns, plugin_names, plugin_variables,
}
use exec_helper.Plugins.Run.{apply}
use exec_helper.Config.Patterns.{make_handler, add_patterns, add_pattern}
use exec_helper.Commander.{run, push_all, pop_all, add_predefined_patterns}
use exec_helper.Core.Shell.{
  Process, Shell, returned, path_not_found, overlay, expand_items, word_expand, words_of,
  find_binary, get_path, after_start, execute_words, shell_execute,
}
use exec_helper.Core.Executor.{Session}
use exec_helper.Core.Executor.Policy.{done, step}
use exec_helper.Config.FleetingOptions.{FleetingOptions}
use exec_helper.Application.Main.{
  exit_code, terminates, initial_state, plugin_options, run_commander,
}
use exec_helper.Application.Main.Ends.{
  run_commander-keep_going, run_commander-exit, run_commander-terminates,
}
use exec_helper.Tests.Sample.{sample_platform, replace_from}
use exec_helper.Tests.SampleSystem.{sample_processes}

abbrev options : Bool → FleetingOptions
options keep_going = record {
  help = false;
  version = false;
  verbose = false;
  dry_run = false;
  keep_going = keep_going;
  jobs = 1;
  log_level = codes "none";
  list_plugins = false;
  append_search_paths = [];
  commands = codes "build" ∷ [];
  autocomplete = none;
}

abbrev plain_task : Text → Task
plain_task name = record {
  task = name ∷ [];
  env = (pwd_key, codes "/work") ∷ [];
  working_directory = codes "/work";
}

abbrev build_script : Text → Plugins
build_script second =
    (
      codes "build",
      lua (codes "/scripts/build.lua") (λ t variables ps.
          finish (plain_task (codes "true") ∷ plain_task second ∷ plain_task (codes "last") ∷ [])),
    )
    ∷ []

abbrev build_state : Text → State
build_state second = record initial_state {
  registered = plain_task (codes "true") ∷ plain_task second ∷ plain_task (codes "last") ∷ [];
}

abbrev Builds : Bool → Text → Type 0
Builds keep_going second =
    run 3 (plugin_options (options keep_going)) (leaf (codes "root")) [] (codes "/work") []
      (build_script second) initial_state
    ≡ some (true, build_state second)

script_runs :
    Builds true (codes "false") × Builds false (codes "false") × Builds true (codes "missing")
unfolding run apply execute_apply execute_one next_step each push_all pop_all ◌>>=ₘ◌ pure demand
    read_top register_task add_predefined_patterns make_handler add_patterns add_pattern
    plugin_names get_plugin merge_variables plugin_variables next_patterns index lua_apply
    run_script register_replaced pattern_combinations permutations combinations replace_task
    replace_text replace_patterns emplace_patterns make_pattern_permutator replace_environment_from
    replace_environment append_replaced get_environment get_environment_from add_environment
    use_working_directory make_task new_task set_environment set_working_directory
    append_to_environment append_all append text_eq text_lt find emplace assign OrderedMap.contains
    contains get_values get_string starts_with replace_from add unknown_free erase
script_runs = (refl, refl, refl)

abbrev process_of : Text → Process
process_of binary = record {
  binary = binary;
  arguments = [];
  directory = codes "/work";
  environment = (codes "PATH", codes "/bin") ∷ (pwd_key, codes "/work") ∷ [];
}

abbrev shell_after : List Text → Shell
shell_after binaries = record { environ = []; processes = map process_of binaries }

abbrev one : List Text
one = codes "/bin/true" ∷ []

abbrev two : List Text
two = one ++ codes "/bin/false" ∷ []

abbrev three : List Text
three = two ++ codes "/bin/last" ∷ []

task_runs :
    (shell_execute (plain_task (codes "true")) (shell_after []) ≡ (returned 0, shell_after one))
    × (shell_execute (plain_task (codes "false")) (shell_after one) ≡ (returned 3, shell_after two))
    × (shell_execute (plain_task (codes "last")) (shell_after two)
        ≡ (returned 0, shell_after three))
    × (shell_execute (plain_task (codes "missing")) (shell_after one)
        ≡ (path_not_found (codes "missing"), shell_after one))
unfolding shell_execute execute_words word_expand expand_items words_of find_binary get_path find
    assign after_start text_eq text_lt starts_with overlay
task_runs = (refl, refl, refl, refl)

abbrev session : List Text → ℕ → Session
session binaries code = record { shell = shell_after binaries; last_return_code = code }

run_commander-keep_going_example :
    run_commander 3
      (options true)
      (leaf (codes "root"))
      []
      (codes "/work")
      []
      (build_script (codes "false"))
      (session [] 0)
    ≡ some (exit_code 3, session three 3)
run_commander-keep_going_example =
    run_commander-keep_going 3 (options true) (leaf (codes "root")) [] (codes "/work") []
      (build_script (codes "false")) true (build_state (codes "false")) script_runs.0 refl
      (shell_after []) 0 refl (step task_runs.0 (step task_runs.1 (step task_runs.2 done)))

run_commander-exit_example :
    run_commander 3
      (options false)
      (leaf (codes "root"))
      []
      (codes "/work")
      []
      (build_script (codes "false"))
      (session [] 0)
    ≡ some (exit_code 3, session two 0)
run_commander-exit_example =
    run_commander-exit 3 (options false) (leaf (codes "root")) [] (codes "/work") []
      (build_script (codes "false")) true (build_state (codes "false")) script_runs.1 refl
      (shell_after []) 0 (plain_task (codes "false")) (plain_task (codes "last") ∷ []) 3 refl refl
      (step task_runs.0 done) (refl, tt) task_runs.1 refl

run_commander-terminates_example :
    run_commander 3
      (options true)
      (leaf (codes "root"))
      []
      (codes "/work")
      []
      (build_script (codes "missing"))
      (session [] 0)
    ≡ some (terminates, session one 0)
run_commander-terminates_example =
    run_commander-terminates 3 (options true) (leaf (codes "root")) [] (codes "/work") []
      (build_script (codes "missing")) true (build_state (codes "missing")) script_runs.2 refl
      (shell_after []) 0 (plain_task (codes "missing")) (plain_task (codes "last") ∷ [])
      (codes "missing") refl refl (step task_runs.0 done) task_runs.3
