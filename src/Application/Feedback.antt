-- ===== src/Application/Feedback.antt =====
-- What src/applications/exec-helper.cpp tells its user, and the summaries of the plugins of src/plugins/.
-- A line goes to the standard output or, as an error, to the standard error; its colour is left out.
use exec_helper.Prelude.{
  Text, codes, ℕ, zero, suc, ◌-◌, List, [], ◌∷◌, ◌++◌, Option, none, some, value_or, length, map,
}
use exec_helper.Platform.{Platform}
use exec_helper.Config.SettingsNode.{SettingsNode, at_key, get_values}
use exec_helper.Config.OptionDescriptions.{OptionDescriptions}
use exec_helper.Plugins.State.{
  Plugin, commands, command_line_command, memory, valgrind, pmd, lcov, execute, lua, Plugins,
}

-- What comes from the build and from the parser of the options.
pub record Descriptions : Type 0 where
  pub binary_name : Text
  pub version : Text
  pub copyright : Text
  pub option_descriptions : OptionDescriptions → Text

-- `Plugin::summary`.
unfoldable pub summary : Plugin → Text
summary commands = codes "Command (internal)"
summary command_line_command = codes "Command-line-command (internal)"
summary memory = codes "Memory (internal)"
summary valgrind = codes "Valgrind (internal)"
summary pmd = codes "Pmd (internal)"
summary lcov = codes "Lcov (internal)"
summary (execute cs initial) = codes "ExecutePlugin"
summary (lua path script) = codes "Lua plugin for module " ++ path

-- `std::left << std::setw`, with the character that fills.
unfoldable pub fill_with : ℕ → ℕ → Text
fill_with zero c = []
fill_with (suc n) c = c ∷ fill_with n c

unfoldable pub left_justified : ℕ → ℕ → Text → Text
unfolding fill_with
left_justified width c t = t ++ fill_with (width - length t) c

-- `printAutoComplete`.
unfoldable pub print_auto_complete : OptionDescriptions → List Text → List Text
print_auto_complete options configured = options.option_keys ++ configured

-- `printVersion`.
unfoldable pub print_version : Descriptions → List Text
print_version d = (d.binary_name ++ codes " " ++ d.version) ∷ d.copyright ∷ []

-- `printPlugins`.
unfoldable pub plugin_line : Text × Plugin → Text
unfolding left_justified summary
plugin_line (name, p) = left_justified 25 b'.' name ++ codes " " ++ summary p

unfoldable pub print_plugins : Plugins → List Text
unfolding plugin_line
print_plugins plugins = codes "Registered plugins:" ∷ map plugin_line plugins

abbrev pub commands_key : Text
commands_key = codes "commands"

abbrev pub last_text : List Text → Option Text
last_text [] = none
last_text (t ∷ []) = some t
last_text (t ∷ u ∷ ts) = last_text (u ∷ ts)

module _ ⦃sys : Platform⦄ where
  -- A configured command, with the last of the values below it.
  unfoldable pub command_line_of : SettingsNode → Text → Text
  unfolding left_justified
  command_line_of described command =
      codes "  "
      ++ left_justified 20 b' ' command
      ++ elim (last_text (value_or (get_values (command ∷ []) described) [])) as (λ _. Text) [
        | none ↦ []
        | some description ↦ codes " " ++ description
      ]

  unfoldable pub configured_commands : SettingsNode → List Text
  unfolding command_line_of
  configured_commands settings = elim (at_key commands_key settings) as (λ _. List Text) [
    | none ↦ []
    | some described ↦
        codes "Configured commands:"
        ∷ map (command_line_of described) (value_or (get_values (commands_key ∷ []) settings) [])
  ]

  -- `printHelp`.
  unfoldable pub print_help : Descriptions → Text → OptionDescriptions → SettingsNode → List Text
  unfolding configured_commands
  print_help d binary options settings =
      (codes "Usage: " ++ binary ++ codes " [Optional arguments] COMMANDS...")
      ∷ []
      ∷ codes "Optional arguments:"
      ∷ d.option_descriptions options
      ∷ configured_commands settings
