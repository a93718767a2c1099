-- ===== src/Config/FleetingOptions.antt =====
-- src/config/src/fleetingOptions.cpp, with the keys of
-- src/config/include/config/commandLineOptions.h and the check of the options in
-- src/applications/exec-helper.cpp: the options of the command line.
pub mod Later
use exec_helper.Prelude.{
  Text, codes, text_eq, ℕ, List, [], ◌∷◌, Option, none, Bool, true, false, not, ◌&&◌, ◌==◌,
  if◌then◌else◌, value_or,
}
use exec_helper.Platform.{Platform}
use exec_helper.Core.Task.{texts_eq}
use exec_helper.Config.SettingsNode.{SettingsNode, leaf, add, get_values, get_string, get_bool}
use exec_helper.Log.{LogLevel, no_level, to_log_level}

abbrev pub help_key : Text
help_key = codes "help"

abbrev pub version_key : Text
version_key = codes "version"

abbrev pub verbose_key : Text
verbose_key = codes "verbose"

abbrev pub dry_run_key : Text
dry_run_key = codes "dry-run"

abbrev pub keep_going_key : Text
keep_going_key = codes "keep-going"

abbrev pub jobs_key : Text
jobs_key = codes "jobs"

abbrev pub settings_file_key : Text
settings_file_key = codes "settings-file"

abbrev pub command_key : Text
command_key = codes "command"

abbrev pub list_plugins_key : Text
list_plugins_key = codes "list-plugins"

abbrev pub append_search_path_key : Text
append_search_path_key = codes "additional-search-path"

abbrev pub log_level_key : Text
log_level_key = codes "debug"

abbrev pub auto_complete_key : Text
auto_complete_key = codes "auto-complete"

pub record FleetingOptions : Type 0 where
  pub help : Bool
  pub version : Bool
  pub verbose : Bool
  pub dry_run : Bool
  pub keep_going : Bool
  pub jobs : ℕ
  pub log_level : Text
  pub list_plugins : Bool
  pub append_search_paths : List Text
  pub commands : List Text
  pub autocomplete : Option Text

module _ ⦃sys : Platform⦄ where
  -- The number of jobs: `auto` is the number of threads of the machine, and what is no number is 1.
  unfoldable pub read_jobs : Text → ℕ
  read_jobs jobs =
      if text_eq jobs (codes "auto")
      then sys.hardware_concurrency
      else value_or (sys.cast_uint32 jobs) 1

  -- The constructor.
  unfoldable pub new_options : SettingsNode → FleetingOptions
  unfolding read_jobs
  new_options options_map = record {
    help = value_or (get_bool (help_key ∷ []) options_map) false;
    version = value_or (get_bool (version_key ∷ []) options_map) false;
    verbose = value_or (get_bool (verbose_key ∷ []) options_map) false;
    dry_run = value_or (get_bool (dry_run_key ∷ []) options_map) false;
    keep_going = value_or (get_bool (keep_going_key ∷ []) options_map) false;
    jobs = read_jobs (value_or (get_string (jobs_key ∷ []) options_map) (codes "auto"));
    log_level = value_or (get_string (log_level_key ∷ []) options_map) (codes "warning");
    list_plugins = value_or (get_bool (list_plugins_key ∷ []) options_map) false;
    append_search_paths = value_or (get_values (append_search_path_key ∷ []) options_map) [];
    commands = value_or (get_values (command_key ∷ []) options_map) [];
    autocomplete = get_string (auto_complete_key ∷ []) options_map;
  }

unfoldable pub same : Bool → Bool → Bool
same true b = b
same false b = not b

-- `operator==`, which looks at six of the options.
unfoldable pub options_eq : FleetingOptions → FleetingOptions → Bool
unfolding same
options_eq a b =
    same a.help b.help
    && same a.verbose b.verbose
    && same a.dry_run b.dry_run
    && a.jobs == b.jobs
    && text_eq a.log_level b.log_level
    && texts_eq a.commands b.commands

-- `getLogLevel`.
unfoldable pub get_log_level : FleetingOptions → LogLevel
get_log_level o = value_or (to_log_level o.log_level) no_level

-- `getDefault`.
unfoldable pub get_default : SettingsNode
get_default = add (command_key ∷ []) [] (
    add (append_search_path_key ∷ []) [] (
      add (list_plugins_key ∷ []) (codes "no" ∷ []) (
        add (log_level_key ∷ []) (codes "none" ∷ []) (
          add [] (settings_file_key ∷ []) (
            add (jobs_key ∷ []) (codes "auto" ∷ []) (
              add (keep_going_key ∷ []) (codes "no" ∷ []) (
                add (dry_run_key ∷ []) (codes "no" ∷ []) (
                  add (verbose_key ∷ []) (codes "no" ∷ []) (
                    add (version_key ∷ []) (codes "no" ∷ [])
                      (add (help_key ∷ []) (codes "no" ∷ []) (leaf (codes "exec-helper"))))))))))))

-- `verifyOptions` of the application.
unfoldable pub verify_options : FleetingOptions → Bool
verify_options o = not (o.jobs == 0)
