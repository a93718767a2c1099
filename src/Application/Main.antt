-- ===== src/Application/Main.antt =====
-- `execHelperMain` of src/applications/exec-helper.cpp: how the program ends, and what it does to the
-- shell before.
pub mod Ends
pub mod Stops
pub mod Lines
pub mod DryRun
use exec_helper.Prelude.{
  Text, codes, ℕ, ◌-◌, List, [], ◌∷◌, Option, none, some, Bool, true, false, not, ◌||◌,
  if◌then◌else◌, ◌>>=◌, value_or, is_some,
}
use exec_helper.Platform.{Platform}
use exec_helper.Files.{Files}
use exec_helper.Core.Task.{EnvironmentCollection}
use exec_helper.Core.Shell.{Processes}
use exec_helper.Core.Executor.{Session, Reaction, going, exits, choose_executor, execute_tasks}
use exec_helper.Config.Argv.{argv_from_main, texts}
use exec_helper.Environment.{to_env_collection}
use exec_helper.Config.SettingsNode.{SettingsNode, get_string}
use exec_helper.Config.Patterns.{Patterns}
use exec_helper.Config.FleetingOptions.{
  FleetingOptions, new_options, get_default, settings_file_key, verify_options,
}
use exec_helper.Config.OptionDescriptions.{
  Parser, OptionDescriptions, get_options_map, set_positional_argument,
}
use exec_helper.Plugins.State.{Options, Plugin, lua, Plugins, State}
use exec_helper.Commander.{run}
use exec_helper.Application.{
  Installation, ParsedFile, terminated, unreadable, parsed, command_option, get_default_options,
  add_pattern_options, parse_settings_file, set_pattern_values, get_additional_search_paths,
  get_settings_file, discover_plugins,
}

-- The program returns or exits with a code, is ended by `std::terminate`, waits for a process that never
-- ends, or does what has no defined meaning. The last one stands for a failed assertion, too.
pub data Ending : Type 0 where
  exit_code : ℕ → Ending
  terminates blocked undefined : Ending

abbrev pub exit_success : ℕ
exit_success = 0

abbrev pub exit_failure : ℕ
exit_failure = 1

abbrev pub initial_state : State
initial_state = record {
  fleeting = [];
  settings = [];
  patterns = [];
  plugins = [];
  executions = [];
  return_code = true;
  registered = [];
}

-- What the commander and the plugins see of the options.
abbrev pub plugin_options : FleetingOptions → Options
plugin_options o = record { verbosity = o.verbose; jobs = o.jobs; commands = o.commands }

-- The end of the main function, after the commander returns and the tasks have been executed.
unfoldable pub finish : Bool → Reaction × Session → Ending × Session
finish true (going, s) = (exit_code s.last_return_code, s)
finish false (going, s) = (exit_code exit_failure, s)
finish b (exits code, s) = (exit_code code, s)
finish b (Reaction.terminates, s) = (terminates, s)
finish b (Reaction.undefined, s) = (undefined, s)
finish b (Reaction.blocked, s) = (blocked, s)

-- What happens without a settings file.
unfoldable pub without_settings_file : FleetingOptions → ℕ
without_settings_file o =
    if o.help || o.version || o.list_plugins || is_some o.autocomplete
    then exit_success
    else exit_failure

module _ ⦃sys : Platform⦄ where
  -- `handleConfiguration`.
  unfoldable pub handle_configuration :
      Parser → List Text → OptionDescriptions → Option SettingsNode
  handle_configuration parse argv d =
      get_options_map parse (set_positional_argument command_option d) argv false get_default

  module _ ⦃os : Processes⦄ where
    -- From the choice of the executor on. A registered task is executed at once; since neither the
    -- commander nor a plugin learns what came of it, the tasks are executed here one after the other.
    -- `none` is a run of the commander that does not return.
    unfoldable pub run_commander :
        ℕ
        → FleetingOptions
        → SettingsNode
        → Patterns
        → Text
        → EnvironmentCollection
        → Plugins
        → Session
        → Option (Ending × Session)
    unfolding finish
    run_commander fuel o settings ps directory env plugins s = do
      ran ← run fuel (plugin_options o) settings ps directory env plugins initial_state
      some
          (finish ran.0 (execute_tasks (choose_executor o.dry_run o.keep_going) ran.1.registered s))

    module _ ⦃files : Files⦄ (fuel : ℕ) (installation : Installation) (parse : Parser) where
      abbrev pub load_script : Text → Plugin
      load_script path = lua path (installation.script path)

      -- From the options of the second pass on.
      unfoldable pub with_options :
          FleetingOptions
          → FleetingOptions
          → SettingsNode
          → SettingsNode
          → Patterns
          → Text
          → EnvironmentCollection
          → Session
          → Option (Ending × Session)
      unfolding run_commander
      with_options first o options_map settings ps base_path env s =
          if o.help || o.version || o.list_plugins
          then some (exit_code exit_success, s)
          else if is_some first.autocomplete
          then some ((if is_some o.autocomplete then exit_code exit_success else undefined), s)
          else if not (verify_options o)
          then some (exit_code exit_failure, s)
          else run_commander fuel o settings (set_pattern_values options_map ps) base_path env
              (discover_plugins load_script (
                get_additional_search_paths installation.plugins_install_path o settings base_path))
              s

      -- From the settings file on.
      unfoldable pub with_file :
          FleetingOptions
          → Text
          → List Text
          → EnvironmentCollection
          → Session
          → ParsedFile
          → Option (Ending × Session)
      unfolding with_options
      with_file first file argv env s terminated = some (terminates, s)
      with_file first file argv env s unreadable = some (terminates, s)
      with_file first file argv env s (parsed ps settings) =
          elim (handle_configuration parse argv (add_pattern_options ps get_default_options))
            as (λ _. Option (Ending × Session)) [
              | none ↦ some (exit_code exit_failure, s)
              | some options_map ↦
                  with_options first (new_options options_map) options_map settings ps
                    (files.parent_path file) env s
            ]

      abbrev pub settings_file_name : SettingsNode → Text
      settings_file_name options_map =
          value_or (get_string (settings_file_key ∷ []) options_map) (codes ".exec-helper")

      -- From the options of the first pass on.
      unfoldable pub with_first_pass :
          SettingsNode → List Text → EnvironmentCollection → Session → Option (Ending × Session)
      unfolding with_file without_settings_file
      with_first_pass options_map argv env s =
          let first = new_options options_map in
          get_settings_file (settings_file_name options_map) env >>= λ found.
          elim found as (λ _. Option (Ending × Session)) [
            | none ↦ some (exit_code (without_settings_file first), s)
            | some file ↦
                parse_settings_file (installation.load_file file)
                >>= with_file first file argv env s
          ]

      -- `execHelperMain`, from the arguments and the strings of the environment. The arguments are read
      -- from their copy `args`; an argument whose copy has no end has no defined meaning.
      unfoldable pub exec_helper_main : List Text → List Text → Session → Option (Ending × Session)
      unfolding with_first_pass argv_from_main texts
      exec_helper_main argv envp s =
          elim (texts (argv_from_main argv 0).0) as (λ _. Option (Ending × Session)) [
            | none ↦ some (undefined, s)
            | some args ↦ elim (to_env_collection envp) as (λ _. Option (Ending × Session)) [
              | none ↦ some (undefined, s)
              | some env ↦
                  elim (get_options_map parse get_default_options args true get_default)
                    as (λ _. Option (Ending × Session)) [
                      | none ↦ some (exit_code exit_failure, s)
                      | some options_map ↦ with_first_pass options_map args env s
                    ]
            ]
          ]
