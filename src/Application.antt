-- ===== src/Application.antt =====
-- src/applications/exec-helper.cpp: the main function, with the search for the settings file and for
-- plugins.
pub mod Discovery
pub mod PatternOptions
pub mod Feedback
pub mod Main
use exec_helper.Prelude.{
  Text, codes, text_eq, ℕ, ◌+◌, ◌-◌, List, [], ◌∷◌, ◌++◌, Option, none, some, Bool, true, false,
  ◌&&◌, if◌then◌else◌, ◌>>=◌, value_or,
}
use exec_helper.Platform.{Platform}
use exec_helper.Files.{Files, Entry}
use exec_helper.Yaml.{YamlNode, get_tree}
use exec_helper.OrderedMap
use exec_helper.Core.Task.{EnvironmentCollection, Task}
use exec_helper.Config.SettingsNode.{SettingsNode, leaf, contains, get_values}
use exec_helper.Config.Patterns.{Pattern, Patterns, parse_settings}
use exec_helper.Config.FileSearch.{get_home_directory, find_file, get_all_parent_directories}
use exec_helper.Config.FleetingOptions.{
  FleetingOptions, help_key, version_key, verbose_key, dry_run_key, keep_going_key, jobs_key,
  settings_file_key, command_key, list_plugins_key, append_search_path_key, log_level_key,
  auto_complete_key,
}
use exec_helper.Config.OptionDescriptions.{
  OptionType, switch, single, multitoken, OptionInterface, OptionDescriptions, no_options,
  add_option,
}
use exec_helper.Plugins.State.{
  Script, Plugin, commands, command_line_command, memory, valgrind, pmd, lcov, lua, Plugins,
}

-- What the main function takes from outside: the parser of the YAML files (`none` where it throws), the
-- scripts, and the directory of the installed plugins.
pub record Installation : Type 0 where
  pub load_file : Text → Option YamlNode
  pub script : Text → Task → SettingsNode → Patterns → Script
  pub plugins_install_path : Text

-- `parseSettingsFile` of src/config/src/config.cpp with its reading of the file: an exception of
-- yaml-cpp leaves a function that is `noexcept`; the tree may have no content; or there are patterns and
-- settings.
pub data ParsedFile : Type 0 where
  terminated unreadable : ParsedFile
  parsed : Patterns → SettingsNode → ParsedFile

abbrev pub exec_helper_key : Text
exec_helper_key = codes "exec-helper"

unfoldable pub tree_of : Bool × SettingsNode → Option SettingsNode
tree_of (true, s) = some s
tree_of (false, s) = none

abbrev pub additional_search_paths_key : Text
additional_search_paths_key = codes "additional-search-paths"

-- `getDefaultOptions`.
abbrev pub option : Text → List Text → OptionType → OptionInterface
option id arguments type = record {
  identifying_option = id;
  argument_options = arguments;
  type = type;
}

abbrev pub command_option : OptionInterface
command_option = option command_key (codes "z" ∷ []) multitoken

unfoldable pub get_default_options : OptionDescriptions
get_default_options = add_option command_option (
    add_option (option auto_complete_key [] single) (
      add_option (option log_level_key (codes "d" ∷ []) single) (
        add_option (option settings_file_key (codes "s" ∷ []) single) (
          add_option (option append_search_path_key [] multitoken) (
            add_option (option list_plugins_key [] switch) (
              add_option (option keep_going_key (codes "k" ∷ []) switch) (
                add_option (option dry_run_key (codes "n" ∷ []) switch) (
                  add_option (option jobs_key (codes "j" ∷ []) single) (
                    add_option (option verbose_key (codes "v" ∷ []) switch) (
                      add_option (option version_key [] switch)
                        (add_option (option help_key (codes "h" ∷ []) switch) no_options)))))))))))

-- The options of a pattern: a short option counts only with a long one.
unfoldable pub pattern_option : Option ℕ → Option Text → OptionDescriptions → OptionDescriptions
pattern_option short none d = d
pattern_option none (some long) d = add_option (option long [] multitoken) d
pattern_option (some short) (some long) d =
    add_option (option long ((short ∷ []) ∷ []) multitoken) d

-- The loop of `addPatternsFromSettingsFile`.
unfoldable pub add_pattern_options : Patterns → OptionDescriptions → OptionDescriptions
unfolding pattern_option
add_pattern_options [] d = d
add_pattern_options (p ∷ ps) d =
    add_pattern_options ps (pattern_option p.short_option p.long_option d)

-- `discoverPlugins`: the plugins that are built in, and the scripts in the given directories.
abbrev pub built_in_plugins : Plugins
built_in_plugins =
    (codes "command-line-command", command_line_command)
    ∷ (codes "commands", commands)
    ∷ (codes "lcov", lcov)
    ∷ (codes "memory", memory)
    ∷ (codes "pmd", pmd)
    ∷ (codes "valgrind", valgrind)
    ∷ []

unfoldable pub is_script : Entry → Bool
is_script e = e.is_regular_file && text_eq e.extension (codes ".lua")

unfoldable pub add_scripts : (Text → Plugin) → List Entry → Plugins → Plugins
unfolding is_script
add_scripts load [] plugins = plugins
add_scripts load (e ∷ es) plugins = add_scripts load es (
    if is_script e
    then (if OrderedMap.contains e.stem plugins
        then OrderedMap.assign e.stem (load e.path) plugins
        else OrderedMap.emplace e.stem (load e.path) plugins)
    else plugins)

module _ ⦃sys : Platform⦄ where
  unfoldable pub parse_settings_file : Option YamlNode → Option ParsedFile
  unfolding tree_of
  parse_settings_file none = some terminated
  parse_settings_file (some n) =
      parse_settings (tree_of (get_tree n (leaf exec_helper_key))) >>= λ result.
      some (elim result as (λ _. ParsedFile) [
        | none ↦ unreadable
        | some (ps, settings) ↦ parsed ps settings
      ])

  -- The values that the command line gives a pattern.
  unfoldable pub pattern_values : SettingsNode → Pattern → Option Text → List Text
  pattern_values options_map p none = p.values
  pattern_values options_map p (some long) =
      if contains (long ∷ []) options_map
      then value_or (get_values (long ∷ []) options_map) p.values
      else p.values

  unfoldable pub set_pattern_values : SettingsNode → Patterns → Patterns
  unfolding pattern_values
  set_pattern_values options_map [] = []
  set_pattern_values options_map (p ∷ ps) =
      record p { values = pattern_values options_map p p.long_option }
      ∷ set_pattern_values options_map ps

module _ ⦃files : Files⦄ where
  -- `addAdditionalSearchPaths`: the paths from the last one on, each from the base directory.
  unfoldable pub add_additional_search_paths : List Text → List Text → Text → List Text
  add_additional_search_paths base [] base_path = base
  add_additional_search_paths base (path ∷ to_add) base_path =
      add_additional_search_paths base to_add base_path
      ++ (if files.is_relative path then files.join base_path path else path) ∷ []

  module _ ⦃sys : Platform⦄ where
    -- `getAdditionalSearchPaths`.
    unfoldable pub get_additional_search_paths :
        Text → FleetingOptions → SettingsNode → Text → List Text
    unfolding add_additional_search_paths
    get_additional_search_paths install_path o settings base_path =
        let installed = install_path ∷ [] in
        let configured =
          if contains (additional_search_paths_key ∷ []) settings
          then add_additional_search_paths installed
              (value_or (get_values (additional_search_paths_key ∷ []) settings) []) base_path
          else installed in
        add_additional_search_paths configured o.append_search_paths base_path

    -- `getSearchPaths` and `getSettingsFile`. The outer `none` is the fuel of the loop over the parents.
    unfoldable pub get_search_paths : EnvironmentCollection → Option (List Text)
    get_search_paths env = do
      paths ← get_all_parent_directories sys.current_path
      some (elim (get_home_directory env) as (λ _. List Text) [
        | none ↦ paths
        | some home ↦ paths ++ home ∷ []
      ])

    unfoldable pub get_settings_file : Text → EnvironmentCollection → Option (Option Text)
    unfolding get_search_paths
    get_settings_file filename env = do
      paths ← get_search_paths env
      some (find_file filename paths)

  -- A directory that cannot be read is skipped. An exception in the middle of a directory is not
  -- distinguished from one at its start.
  unfoldable pub discover_from : (Text → Plugin) → List Text → Plugins → Plugins
  unfolding add_scripts
  discover_from load [] plugins = plugins
  discover_from load (path ∷ paths) plugins =
      discover_from load paths (add_scripts load (value_or (files.entries path) []) plugins)

  unfoldable pub discover_plugins : (Text → Plugin) → List Text → Plugins
  unfolding discover_from
  discover_plugins load paths = discover_from load paths built_in_plugins
