-- ===== src/Core/Executor.antt =====
-- src/core/src/immediateExecutor.cpp, src/core/src/reportingExecutor.cpp and the callbacks that
-- src/applications/exec-helper.cpp gives them: what happens to each task that is registered.
pub mod Policy
use exec_helper.Prelude.{ℕ, List, [], ◌∷◌, Bool, if◌then◌else◌}
use exec_helper.Platform.{Platform}
use exec_helper.Core.Task.{Task}
use exec_helper.Core.Shell.{
  Shell, Processes, ShellResult, returned, path_not_found, process_error, no_words,
  is_executed_successfully, shell_execute,
}

-- What the callbacks change, besides the shell.
pub record Session : Type 0 where
  pub shell : Shell
  pub last_return_code : ℕ

-- The program goes on, exits with a code, is ended by `std::terminate` because an exception leaves a
-- function that is `noexcept`, reads the first element of an empty collection, or waits for a process
-- that never ends.
pub data Reaction : Type 0 where
  going terminates undefined blocked : Reaction
  exits : ℕ → Reaction

abbrev pub Callback : Type 0
Callback = ℕ → Session → Reaction × Session

pub data Executor : Type 0 where
  reporting : Executor
  immediate : Callback → Executor

-- The lambdas of `execHelperMain`.
unfoldable pub keep_going_callback : Callback
keep_going_callback return_code s = (going, record s { last_return_code = return_code })

unfoldable pub exit_callback : Callback
exit_callback return_code s = (exits return_code, s)

-- The end of `ImmediateExecutor::execute`.
unfoldable pub react : Callback → ShellResult → Session → Reaction × Session
react callback (returned return_code) s =
    if is_executed_successfully return_code then (going, s) else callback return_code s
react callback (path_not_found name) s = (terminates, s)
react callback process_error s = (terminates, s)
react callback no_words s = (undefined, s)
react callback ShellResult.blocked s = (blocked, s)

-- The executor that `execHelperMain` chooses.
unfoldable pub choose_executor : Bool → Bool → Executor
choose_executor dry_run keep_going =
    if dry_run
    then reporting
    else if keep_going
    then immediate keep_going_callback
    else immediate exit_callback

-- What comes next happens only if the program goes on.
abbrev pub proceed : (Session → Reaction × Session) → Reaction × Session → Reaction × Session
proceed next (going, s) = next s
proceed next (terminates, s) = (terminates, s)
proceed next (undefined, s) = (undefined, s)
proceed next (blocked, s) = (blocked, s)
proceed next (exits code, s) = (exits code, s)

module _ ⦃sys : Platform⦄ ⦃os : Processes⦄ where
  -- `ImmediateExecutor::execute` and `ReportingExecutor::execute`.
  unfoldable pub execute_task : Executor → Task → Session → Reaction × Session
  unfolding react
  execute_task reporting t s = (going, s)
  execute_task (immediate callback) t s =
      let run = shell_execute t s.shell in react callback run.0 (record s { shell = run.1 })

  -- The tasks in the order in which they are registered, until the program ends.
  unfoldable pub execute_tasks : Executor → List Task → Session → Reaction × Session
  execute_tasks executor [] s = (going, s)
  execute_tasks executor (t ∷ ts) s =
      proceed (execute_tasks executor ts) (execute_task executor t s)
