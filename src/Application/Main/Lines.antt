-- ===== src/Application/Main/Lines.antt =====
-- What the main function of src/applications/exec-helper.cpp prints when it does not come to the
-- commands: one line for each call of `user_feedback`, in order.
use exec_helper.Prelude.{
  Text, codes, List, [], ◌∷◌, ◌++◌, ◌==◌, ◌||◌, Option, none, some, if◌then◌else◌, is_some,
  value_or, map, not,
}
use exec_helper.Platform.{Platform}
use exec_helper.Config.SettingsNode.{SettingsNode, leaf, get_values}
use exec_helper.Config.FleetingOptions.{FleetingOptions, verify_options}
use exec_helper.Config.OptionDescriptions.{OptionDescriptions}
use exec_helper.Plugins.State.{Plugin}
use exec_helper.Files.{Files}
use exec_helper.Application.{get_default_options, discover_plugins}
use exec_helper.Application.Feedback.{
  Descriptions, print_auto_complete, print_version, print_plugins, print_help, commands_key,
}

pub data Line : Type 0 where
  output error : Text → Line

abbrev pub outputs : List Text → List Line
outputs ts = map output ts

-- How a path is printed: `std::quoted`.
unfoldable pub escaped : Text → Text
escaped [] = []
escaped (c ∷ cs) = let rest = escaped cs in if c == 34 || c == 92 then 92 ∷ c ∷ rest else c ∷ rest

unfoldable pub quoted : Text → Text
unfolding escaped
quoted path = 34 ∷ (escaped path ++ 34 ∷ [])

-- The errors that `discoverPlugins` prints: one for each search path that cannot be read.
unfoldable pub discover_lines : ⦃files : Files⦄ → List Text → List Line
unfolding quoted
discover_lines [] = []
discover_lines ⦃files⦄ (path ∷ paths) =
    elim (files.entries path) as (λ _. List Line) [
      | none ↦
          error
            (codes "Failed to discover plugins for path " ++ quoted path ++ codes ". Skipping it")
          ∷ []
      | some _ ↦ []
    ]
    ++ discover_lines paths

module _ ⦃sys : Platform⦄ (d : Descriptions) (binary : Text) where
  -- The parser does not understand the options: those of the first pass are described without
  -- settings.
  unfoldable pub bad_options_lines : OptionDescriptions → SettingsNode → List Line
  unfolding print_help
  bad_options_lines options settings =
      error (codes "Could not properly parse the command line options")
      ∷ outputs (print_help d binary options settings)

  -- The branches after the exception for a missing settings file, with the search paths of the options
  -- of the first pass and what loads a script.
  unfoldable pub no_settings_lines :
      ⦃files : Files⦄ → (Text → Plugin) → FleetingOptions → List Text → List Line
  unfolding print_help print_version print_plugins print_auto_complete discover_lines
  no_settings_lines load first search_paths =
      let help = outputs (print_help d binary get_default_options (leaf (codes "Options"))) in
      if first.help
      then help
      else if first.version
      then outputs (print_version d)
      else if first.list_plugins
      then discover_lines search_paths
        ++ outputs (print_plugins (discover_plugins load search_paths))
      else if is_some first.autocomplete
      then outputs (print_auto_complete get_default_options [])
      else error (codes "Could not find an exec-helper settings file") ∷ help

  -- The branches before the commands are run, with the search paths of the options; `none` is the completion that is asked for in the first
  -- pass and not in the second, an empty optional that is read.
  unfoldable pub with_options_lines :
      ⦃files : Files⦄
      → (Text → Plugin)
      → FleetingOptions
      → FleetingOptions
      → OptionDescriptions
      → SettingsNode
      → List Text
      → Option (List Line)
  unfolding print_help print_version print_plugins print_auto_complete discover_lines
  with_options_lines load first o options settings search_paths =
      let discovered = discover_lines search_paths in
      if o.help
      then some (outputs (print_help d binary options settings))
      else if o.version
      then some (outputs (print_version d))
      else if o.list_plugins
      then some (discovered ++ outputs (print_plugins (discover_plugins load search_paths)))
      else if is_some first.autocomplete
      then (if is_some o.autocomplete
          then some (
              discovered
              ++ outputs (
                  print_auto_complete options
                    (value_or (get_values (commands_key ∷ []) settings) [])))
          else none)
      else if not (verify_options o)
      then some (
          discovered
          ++ error (
              codes
                "Invalid value passed for the number of jobs (0): it must be strictly positive.")
            ∷ [])
      else some discovered
