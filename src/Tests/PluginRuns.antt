-- ===== src/Tests/PluginRuns.antt =====
-- The plugins and the commander at concrete inputs.
use exec_helper.Prelude.{Text, codes, text_eq, List, [], ◌∷◌, some, true, false, ◌≡◌, refl}
use exec_helper.OrderedMap.{Map, find, emplace}
use exec_helper.Core.Task.{Task, append_all}
use exec_helper.Config.SettingsNode.{SettingsNode, nil, cons, leaf, contains, get_values}
use exec_helper.Plugins.PluginUtils.{pattern_combinations}
use exec_helper.Plugins.State.{
  Options, execute, Execution, State, ◌>>=ₘ◌, pure, demand, read_top, remember, each,
}
use exec_helper.Config.SettingsNode.{node, collection}
use exec_helper.Core.Task.{make_task}
use exec_helper.Plugins.Internal.Keys.{command_line_key}
use exec_helper.Plugins.Run.{apply}
use exec_helper.Plugins.Run.Frame.{apply-Frame}
use exec_helper.Plugins.Run.Keeping.{Frame}
use exec_helper.Plugins.Run.Registration.{
  more_registered, replace_rounds, command_line_apply-registered,
}
use exec_helper.Plugins.Internal.{
  memory_apply, command_line_apply, command_line_tasks, add_environment, use_working_directory,
}
use exec_helper.Plugins.ExecutePlugin.{execute_apply}
use exec_helper.Core.MapPermutator.{permutations}
use exec_helper.Core.MapPermutator.Combinations.{combinations}
use exec_helper.Commander.{pop_all, push_all, add_predefined_patterns, run}
use exec_helper.Commander.Stacks.{run-Frame}
use exec_helper.Commander.Sequence.{Request, run_all, Left, run_all-Left}
use exec_helper.Config.Patterns.{make_handler}
use exec_helper.Tests.Sample.{sample_platform}

abbrev memory_name : Text
memory_name = codes "memory"

abbrev loop_name : Text
loop_name = codes "loop"

abbrev options : List Text → Options
options cs = record { verbosity = false; jobs = 2; commands = cs }

abbrev test_settings : SettingsNode
test_settings =
    node (codes "root")
      (collection (cons (node loop_name (collection (cons (leaf loop_name) nil))) nil))

abbrev empty_state : State
empty_state = record {
  fleeting = [];
  settings = [];
  patterns = [];
  plugins = [];
  executions = [];
  return_code = true;
  registered = [];
}

abbrev test_state : State
test_state = record empty_state {
  fleeting = options [] ∷ [];
  settings = test_settings ∷ [];
  patterns = [] ∷ [];
  plugins = [] ∷ [];
}

abbrev test_task : Task
test_task = make_task [] [] (codes "/work")

abbrev memorised : Task → Execution
memorised t = record { task = t; variables = leaf memory_name; patterns = [] }

apply_run :
    apply 2
      (execute (memory_name ∷ []) (memory_name ∷ []))
      test_task
      (leaf memory_name)
      []
      test_state
    ≡ some (true, record test_state { executions = memorised test_task ∷ [] })
unfolding apply ◌>>=ₘ◌ pure demand read_top remember text_eq execute_apply each find contains
    get_values memory_apply
apply_run = refl

apply-Frame_example : Frame test_state (record test_state { executions = memorised test_task ∷ [] })
apply-Frame_example =
    apply-Frame 2 (execute (memory_name ∷ []) (memory_name ∷ [])) test_task (leaf memory_name) []
      test_state (record test_state { executions = memorised test_task ∷ [] }) true apply_run

abbrev echo_variables : SettingsNode
echo_variables = node (codes "command-line-command") (
    collection (
      cons
        (node command_line_key
          (collection (cons (leaf (codes "echo")) (cons (leaf (codes "hello")) nil))))
        nil))

abbrev echo_task : Task
echo_task =
    append_all (codes "echo" ∷ codes "hello" ∷ [])
      (use_working_directory echo_variables (add_environment echo_variables test_task))

abbrev one_round : List (Map Text)
one_round = ((codes "NO-KEY", codes "NO-VALUE") ∷ []) ∷ []

command_line_apply-registered_example :
    command_line_apply test_task echo_variables [] test_state
    ≡ some (true, more_registered (replace_rounds (echo_task ∷ []) one_round) test_state)
command_line_apply-registered_example =
    command_line_apply-registered test_task echo_variables [] (codes "echo" ∷ codes "hello" ∷ [])
      (echo_task ∷ []) one_round test_state (unfold get_values text_eq in refl)
      (unfold command_line_tasks get_values text_eq in refl)
      (unfold pattern_combinations permutations combinations emplace find text_eq in refl)

abbrev commander_state : State
commander_state =
    push_all (options (memory_name ∷ [])) test_settings (add_predefined_patterns []) [] empty_state

commander_run :
    apply 2
      (execute (memory_name ∷ []) (memory_name ∷ []))
      test_task
      (leaf (codes "commands"))
      []
      commander_state
    ≡ some (true, record commander_state { executions = memorised test_task ∷ [] })
unfolding apply ◌>>=ₘ◌ pure demand read_top remember text_eq push_all execute_apply each find
    contains get_values memory_apply
commander_run = refl

run-Frame_example :
    (s' : State) × (run 2
        (options (memory_name ∷ []))
        test_settings
        []
        (codes "/work")
        []
        []
        empty_state
      ≡ some (true, s'))
    × (s'.registered
        ≡ (record commander_state { executions = memorised test_task ∷ [] }).registered)
    × Frame empty_state s'
run-Frame_example =
    run-Frame 2 (options (memory_name ∷ [])) test_settings [] (codes "/work") [] [] empty_state true
      (record commander_state { executions = memorised test_task ∷ [] }) refl commander_run

abbrev requests : List Request
requests =
    record {
      fuel = 2;
      options = options [];
      settings = test_settings;
      patterns = [];
      directory = codes "/work";
      env = [];
      plugins = [];
    }
    ∷ record {
      fuel = 2;
      options = options (memory_name ∷ []);
      settings = leaf (codes "other");
      patterns = [];
      directory = codes "/work";
      env = [];
      plugins = [];
    }
    ∷ []

abbrev state_after : State
state_after = record empty_state {
  fleeting = options [] ∷ [];
  settings = test_settings ∷ [];
  patterns = make_handler (add_predefined_patterns []) ∷ [];
  plugins = [] ∷ [];
  executions = memorised test_task ∷ [];
}

requests_run : run_all requests empty_state ≡ some state_after
unfolding run_all run pop_all apply ◌>>=ₘ◌ pure demand read_top remember text_eq push_all
    execute_apply each find contains get_values memory_apply
requests_run = refl

run_all-Left_example : Left requests empty_state state_after
run_all-Left_example = run_all-Left requests empty_state state_after requests_run
