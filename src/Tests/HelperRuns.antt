-- ===== src/Tests/HelperRuns.antt =====
-- The registration of tasks and the helpers for options, at concrete inputs.
use exec_helper.Prelude.{codes, [], ◌∷◌, some, true, ◌≡◌, refl}
use exec_helper.Core.Task.{Task, append}
use exec_helper.Core.Executor.{Session, going, immediate, exit_callback, execute_task}
use exec_helper.Config.SettingsNode.{SettingsNode, leaf, add}
use exec_helper.Plugins.State.{Options}
use exec_helper.Plugins.Internal.Keys.{verbosity_key}
use exec_helper.Plugins.Internal.OptionHelpers.{verbosity_variables, append_flag}
use exec_helper.Plugins.Internal.OptionHelpers.Stored.{append_flag-verbosity_variables}
use exec_helper.Plugins.TaskRegistration.{
  no_execute_callback, register_execute_callback, execute_callback, call_registered,
}
use exec_helper.Tests.Sample.{sample_platform}
use exec_helper.Tests.SampleSystem.{sample_processes}

abbrev false_task : Task
false_task = record { task = codes "false" ∷ []; env = []; working_directory = codes "/work" }

abbrev true_task : Task
true_task = record { task = codes "true" ∷ []; env = []; working_directory = codes "/work" }

abbrev test_session : Session
test_session = record { shell = record { environ = []; processes = [] }; last_return_code = 0 }

register_run :
    (call_registered no_execute_callback false_task test_session ≡ ((going, test_session), true))
    × ((task : Task)
        → call_registered
            (register_execute_callback
              (execute_callback (immediate exit_callback))
              no_execute_callback)
            task
            test_session
          ≡ (execute_task (immediate exit_callback) task test_session, true))
unfolding call_registered no_execute_callback register_execute_callback execute_callback
register_run = (refl, λ task. refl)

abbrev verbose_options : Options
verbose_options = record { verbosity = true; jobs = 1; commands = [] }

abbrev quiet_variables : SettingsNode
quiet_variables = add (verbosity_key ∷ []) (codes "no" ∷ []) (leaf (codes "variables"))

append_flag-verbosity_variables_example :
    append_flag (codes "-v") (verbosity_variables verbose_options quiet_variables) true_task
    ≡ some (append (codes "-v") true_task)
append_flag-verbosity_variables_example =
    append_flag-verbosity_variables (codes "-v") verbose_options quiet_variables true_task
