-- ===== src/Plugins/Internal.antt =====
-- The classes behind the interface Plugin: src/plugins/src/commandPlugin.cpp, commandLineCommand.cpp,
-- memory.cpp, valgrind.cpp, pmd.cpp and luaPlugin.cpp, with the helpers of commandLine, threadedness,
-- verbosity, workingDirectory and addEnvironment. Each has its default variables and its `apply`. An
-- `apply` that runs other commands is given `run`, the `apply` of any plugin.
pub mod Keys
pub mod Lcov
pub mod OptionHelpers
use exec_helper.Prelude.{
  Text, codes, text_eq, ◌+◌, ◌-◌, List, [], ◌∷◌, ◌++◌, Option, none, some, Bool, false,
  if◌then◌else◌, ◌>>=◌, value_or, is_empty,
}
use exec_helper.Platform.{Platform}
use exec_helper.OrderedMap.{Map}
use exec_helper.OrderedMap
use exec_helper.Core.Task.{
  Task, append, append_all, append_all_to_environment, set_working_directory,
}
use exec_helper.Config.SettingsNode.{SettingsNode, leaf, add, get_values, get_string, get_bool}
use exec_helper.Config.Patterns.{Patterns}
use exec_helper.Plugins.PluginUtils.{
  environment_key, pattern_combinations, replace_text, replace_task, get_environment,
}
use exec_helper.Plugins.State.{
  Options, Script, finish, fail, run_target, commands, valgrind, pmd, execute, M, ◌>>=ₘ◌, pure,
  demand, register_task, remember, each,
}
use exec_helper.Plugins.Internal.Keys.{
  minimum_tokens_key, language_key, command_line_key, verbosity_key, jobs_key, working_dir_key,
  run_command_key, tool_key, exec_key, files_key, yes_no, decimal, Run,
}

-- `getVariablesMap` of each class but lcov.
unfoldable pub commands_variables : Options → SettingsNode
commands_variables o = add (codes "commands" ∷ []) o.commands (leaf (codes "commands"))

unfoldable pub command_line_variables : SettingsNode
command_line_variables =
    add (environment_key ∷ []) []
      (add (command_line_key ∷ []) [] (leaf (codes "command-line-command")))

unfoldable pub valgrind_variables : Options → SettingsNode
valgrind_variables o =
    add (verbosity_key ∷ []) (yes_no o.verbosity ∷ [])
      (add (command_line_key ∷ []) [] (leaf (codes "valgrind")))

unfoldable pub pmd_variables : Options → SettingsNode
pmd_variables o = add (verbosity_key ∷ []) (yes_no o.verbosity ∷ []) (
    add (command_line_key ∷ []) [] (
      add (tool_key ∷ []) (codes "cpd" ∷ [])
        (add (exec_key ∷ []) (codes "pmd" ∷ []) (leaf (codes "pmd")))))

unfoldable pub lua_variables : Options → SettingsNode
lua_variables o =
    add (jobs_key ∷ []) (decimal o.jobs ∷ [])
      (add (verbosity_key ∷ []) (yes_no o.verbosity ∷ []) (leaf (codes "luaPlugin")))

module _ ⦃sys : Platform⦄ where
  -- `AddEnvironment::apply` and `WorkingDirectory::apply`.
  unfoldable pub add_environment : SettingsNode → Task → Task
  add_environment variables t = append_all_to_environment (get_environment variables) t

  unfoldable pub use_working_directory : SettingsNode → Task → Task
  use_working_directory variables t =
      elim (get_string (working_dir_key ∷ []) variables) as (λ _. Task) [
        | none ↦ t
        | some dir ↦ set_working_directory dir t
      ]

  -- A task is registered once for each round.
  unfoldable pub register_replaced : Task → List (Map Text) → M Bool
  register_replaced t rounds = each (λ c. register_task (replace_task t c)) rounds

  unfoldable pub commands_apply : Run → Task → SettingsNode → Patterns → M Bool
  commands_apply run t variables ps =
      demand (get_values (codes "commands" ∷ []) variables) >>=ₘ λ cs.
      run (execute cs cs) t variables ps

  -- The tasks of several command lines, one for each key below `command-line`.
  unfoldable pub command_tasks : SettingsNode → Task → List Text → Option (List Task)
  command_tasks variables t [] = some []
  command_tasks variables t (k ∷ ks) = do
    arguments ← get_values (command_line_key ∷ k ∷ []) variables
    rest ← command_tasks variables t ks
    some (append_all arguments t ∷ rest)

  unfoldable pub command_line_tasks : SettingsNode → Task → List Text → Option (List Task)
  unfolding command_tasks
  command_line_tasks variables t [] = some []
  command_line_tasks variables t (a ∷ arguments) =
      if is_empty (value_or (get_values (command_line_key ∷ a ∷ []) variables) [])
      then some (append_all (a ∷ arguments) t ∷ [])
      else command_tasks variables t (value_or (get_values (command_line_key ∷ []) variables) [])

  unfoldable pub command_line_apply : Task → SettingsNode → Patterns → M Bool
  unfolding add_environment use_working_directory
  command_line_apply t variables ps =
      demand (get_values (command_line_key ∷ []) variables) >>=ₘ λ arguments.
      if is_empty arguments
      then pure false
      else (demand (
            command_line_tasks variables
              (use_working_directory variables (add_environment variables t)) arguments)
          >>=ₘ λ tasks. demand (pattern_combinations ps) >>=ₘ λ rounds.
              each (λ c. each (λ t'. register_task (replace_task t' c)) tasks) rounds)

  unfoldable pub memory_apply : Task → SettingsNode → Patterns → M Bool
  memory_apply t variables ps = remember (record { task = t; variables = variables; patterns = ps })

  unfoldable pub valgrind_task : Option Text → Bool → List Text → Task → Task
  valgrind_task tool verbose arguments t =
      let named = append (codes "valgrind") t in
      let tooled = elim tool as (λ _. Task) [
        | none ↦ named
        | some x ↦ append (codes "--tool=" ++ x) named
      ] in
      append_all arguments (if verbose then append (codes "--verbose") tooled else tooled)

  unfoldable pub valgrind_apply : Run → Task → SettingsNode → Patterns → M Bool
  unfolding valgrind_task
  valgrind_apply run t variables ps =
      elim (get_values (run_command_key ∷ []) variables) as (λ _. M Bool) [
        | none ↦ pure false
        | some cs ↦ demand (get_bool (verbosity_key ∷ []) variables) >>=ₘ λ verbose.
            demand (get_values (command_line_key ∷ []) variables) >>=ₘ λ arguments.
            demand (pattern_combinations ps) >>=ₘ λ rounds.
            each
              (λ c.
                run (execute cs cs)
                  (replace_task
                    (valgrind_task (get_string (tool_key ∷ []) variables) verbose arguments t) c)
                  variables ps)
              rounds
      ]

  unfoldable pub append_option : Text → Option Text → Task → Task
  append_option flag none t = t
  append_option flag (some x) t = append_all (flag ∷ x ∷ []) t

  unfoldable pub append_files : List Text → Task → Task
  append_files [] t = t
  append_files (f ∷ fs) t = append_files fs (append_all (codes "--files" ∷ f ∷ []) t)

  unfoldable pub pmd_task : SettingsNode → Text → Text → Text → List Text → Task → Task
  unfolding append_option append_files
  pmd_task variables binary tool verbosity arguments t =
      let named = append (binary ++ codes "-" ++ tool) t in
      let spoken =
        append_option (codes "--language") (get_string (language_key ∷ []) variables) named in
      let told =
        if text_eq verbosity (codes "yes") then append (codes "-verbose") spoken else spoken in
      let detailed = append_files (value_or (get_values (files_key ∷ []) variables) []) (
        append_option (codes "--minimum-tokens") (get_string (minimum_tokens_key ∷ []) variables)
          told) in
      append_all arguments (if text_eq tool (codes "cpd") then detailed else told)

  unfoldable pub pmd_apply : Task → SettingsNode → Patterns → M Bool
  unfolding pmd_task register_replaced
  pmd_apply t variables ps = demand (get_string (exec_key ∷ []) variables) >>=ₘ λ binary.
      demand (get_string (tool_key ∷ []) variables) >>=ₘ λ tool.
      demand (get_string (verbosity_key ∷ []) variables) >>=ₘ λ verbosity.
      demand (get_values (command_line_key ∷ []) variables) >>=ₘ λ arguments.
      demand (pattern_combinations ps) >>=ₘ λ rounds.
      register_replaced (pmd_task variables binary tool verbosity arguments t) rounds

  unfoldable pub replace_texts : List Text → Map Text → List Text
  replace_texts [] c = []
  replace_texts (x ∷ xs) c = replace_text x c ∷ replace_texts xs c

  -- The function `run_target` that a script is given.
  unfoldable pub run_commands : Run → Patterns → Task → List Text → M Bool
  unfolding replace_texts
  run_commands run ps t cs = demand (pattern_combinations ps) >>=ₘ λ rounds.
      each
        (λ c.
          let cs' = replace_texts cs c in
          run (execute cs' cs') (replace_task t c) (leaf (codes "subtask")) [])
        rounds

  -- A script runs; its tasks are registered when it is done.
  unfoldable pub run_script : Run → Patterns → Script → M Bool
  unfolding run_commands register_replaced
  run_script run ps (finish tasks) =
      each (λ t. demand (pattern_combinations ps) >>=ₘ register_replaced t) tasks
  run_script run ps fail = pure false
  run_script run ps (run_target t cs next) =
      run_commands run ps t cs >>=ₘ λ done. run_script run ps (next done)

  unfoldable pub lua_apply :
      Run → (Task → SettingsNode → Patterns → Script) → Task → SettingsNode → Patterns → M Bool
  unfolding run_script add_environment use_working_directory
  lua_apply run script t variables ps =
      run_script run ps
        (script (add_environment variables (use_working_directory variables t)) variables ps)
