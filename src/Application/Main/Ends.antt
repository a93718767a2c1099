-- ===== src/Application/Main/Ends.antt =====
-- The exit code of src/applications/exec-helper.cpp after the commands have been given to the plugins.
use exec_helper.Prelude.{
  Text, ℕ, List, ◌∷◌, ◌++◌, some, Bool, true, false, ◌==◌, if◌then◌else◌, ◌≡◌, refl, ◌∙◌, All,
}
use exec_helper.Platform.{Platform}
use exec_helper.Core.Task.{EnvironmentCollection, Task}
use exec_helper.Core.Shell.{Shell, Processes, returned, path_not_found, shell_execute}
use exec_helper.Core.Executor.{Session, Reaction, going, exits, choose_executor, execute_tasks}
use exec_helper.Core.Executor.Policy.{
  Runs, last_failure, execute_tasks-keep_going, execute_tasks-exit, execute_tasks-terminates,
}
use exec_helper.Config.SettingsNode.{SettingsNode}
use exec_helper.Config.Patterns.{Patterns}
use exec_helper.Config.FleetingOptions.{FleetingOptions}
use exec_helper.Plugins.State.{Plugins, State}
use exec_helper.Commander.{run}
use exec_helper.Application.Main.{
  exit_code, terminates, exit_failure, initial_state, plugin_options, finish, run_commander,
}

module _ ⦃sys : Platform⦄ ⦃os : Processes⦄ (fuel : ℕ) (o : FleetingOptions)
    (settings : SettingsNode) (ps : Patterns) (directory : Text) (env : EnvironmentCollection)
    (plugins : Plugins) (b : Bool) (st : State)
    (ran : run fuel (plugin_options o) settings ps directory env plugins initial_state
      ≡ some (b, st))
    (dry : o.dry_run ≡ false) (sh : Shell) (d : ℕ) where
  abbrev session : Shell → ℕ → Session
  session shell code = record { shell = shell; last_return_code = code }

  run_commander_lem :
      run_commander fuel o settings ps directory env plugins (session sh d)
      ≡ some (
          finish b
            (execute_tasks (choose_executor o.dry_run o.keep_going) st.registered (session sh d)))
  unfolding run_commander
  run_commander_lem = rw ran

  -- Told to keep going and not asked for a dry run, if the commands return and the shell gives each
  -- task that they have registered a return code, the program executes all these tasks in order. If
  -- the commands succeed, it returns the last code that is not 0, or the initial one if there is
  -- none; else it returns 1.
  pub run_commander-keep_going :
      {codes : List ℕ} {sh' : Shell}
      → o.keep_going ≡ true
      → Runs st.registered sh codes sh'
      → run_commander fuel o settings ps directory env plugins (session sh d)
        ≡ some (
          exit_code (if b then last_failure d codes else exit_failure),
          session sh' (last_failure d codes),
        )
  unfolding finish choose_executor
  run_commander-keep_going {codes} {sh'} k r =
      run_commander_lem ∙ rw (dry, k, execute_tasks-keep_going d r) (finish_going b)
    where
      finish_going :
          (b : Bool)
          → some (finish b (going, session sh' (last_failure d codes)))
            ≡ some (
              exit_code (if b then last_failure d codes else exit_failure),
              session sh' (last_failure d codes),
            )
      finish_going true = refl
      finish_going false = refl

  -- Neither told to keep going nor asked for a dry run, if the commands return, the program ends at
  -- the first registered task that returns another code than 0, when all tasks before it return 0:
  -- these have been executed, the tasks after it are not, and the program exits with that code.
  pub run_commander-exit :
      {ts : List Task} {codes : List ℕ} {sh1 sh2 : Shell} (t : Task) (rest : List Task) (code : ℕ)
      → o.keep_going ≡ false
      → st.registered ≡ ts ++ t ∷ rest
      → Runs ts sh codes sh1
      → All (λ code. code == 0 ≡ true) codes
      → shell_execute t sh1 ≡ (returned code, sh2)
      → code == 0 ≡ false
      → run_commander fuel o settings ps directory env plugins (session sh d)
        ≡ some (exit_code code, session sh2 d)
  unfolding finish choose_executor
  run_commander-exit {sh2} t rest code k g r z e ne =
      run_commander_lem ∙ rw (dry, k, g, execute_tasks-exit d code t rest r z e ne) (finish_exits b)
    where
      finish_exits :
          (b : Bool)
          → some (finish b (exits code, session sh2 d)) ≡ some (exit_code code, session sh2 d)
      finish_exits true = refl
      finish_exits false = refl

  -- Even if the program is told to keep going, and not asked for a dry run, a registered task whose
  -- binary is not found ends it by `std::terminate`, when the commands return and the shell gives
  -- each task before it a return code: these have been executed, the tasks after it are not.
  pub run_commander-terminates :
      {ts : List Task} {codes : List ℕ} {sh1 sh2 : Shell} (t : Task) (rest : List Task)
      (name : Text)
      → o.keep_going ≡ true
      → st.registered ≡ ts ++ t ∷ rest
      → Runs ts sh codes sh1
      → shell_execute t sh1 ≡ (path_not_found name, sh2)
      → run_commander fuel o settings ps directory env plugins (session sh d)
        ≡ some (terminates, session sh2 (last_failure d codes))
  unfolding finish choose_executor
  run_commander-terminates {codes} {sh2} t rest name k g r e =
      run_commander_lem
      ∙ rw (dry, k, g, execute_tasks-terminates d t name rest r e) (finish_terminates b)
    where
      finish_terminates :
          (b : Bool)
          → some (finish b (Reaction.terminates, session sh2 (last_failure d codes)))
            ≡ some (terminates, session sh2 (last_failure d codes))
      finish_terminates true = refl
      finish_terminates false = refl
