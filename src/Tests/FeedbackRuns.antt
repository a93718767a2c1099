-- ===== src/Tests/FeedbackRuns.antt =====
-- What is printed, at concrete inputs.
use exec_helper.Prelude.{Text, codes, [], ◌∷◌, none, some, false, ◌≡◌, refl, text_eq}
use exec_helper.Config.SettingsNode.{SettingsNode, node, collection, cons, nil, leaf, get_values}
use exec_helper.Config.FleetingOptions.{FleetingOptions}
use exec_helper.Config.OptionDescriptions.{no_options}
use exec_helper.Plugins.State.{Plugin, memory, lua, fail}
use exec_helper.Application.Feedback.{
  Descriptions, print_help, print_plugins, plugin_line, summary, left_justified, fill_with,
  configured_commands, command_line_of, print_auto_complete,
}
use exec_helper.Application.Main.Lines.{
  output, error, with_options_lines, discover_lines, quoted, escaped,
}
use exec_helper.Tests.Sample.{sample_platform}
use exec_helper.Tests.SampleSystem.{sample_files}

abbrev descriptions : Descriptions
descriptions = record {
  binary_name = codes "exec-helper";
  version = codes "1.0";
  copyright = codes "c";
  option_descriptions = λ options. codes "options";
}

abbrev described_settings : SettingsNode
described_settings = node (codes "settings") (
    collection (
      cons
        (node (codes "commands") (
          collection (
            cons (node (codes "build") (collection (cons (leaf (codes "Build it")) nil)))
              (cons (leaf (codes "run")) nil))))
        nil))

print_help_run :
    print_help descriptions (codes "eh") no_options described_settings
    ≡ codes "Usage: eh [Optional arguments] COMMANDS..."
      ∷ []
      ∷ codes "Optional arguments:"
      ∷ codes "options"
      ∷ codes "Configured commands:"
      ∷ codes "  build                Build it"
      ∷ codes "  run                 "
      ∷ []
unfolding print_help configured_commands command_line_of left_justified fill_with get_values text_eq
print_help_run = refl

print_plugins_run :
    print_plugins
      ((codes "memory", memory) ∷ (codes "s", lua (codes "/s.lua") (λ t v p. fail)) ∷ [])
    ≡ codes "Registered plugins:"
      ∷ codes "memory................... Memory (internal)"
      ∷ codes "s........................ Lua plugin for module /s.lua"
      ∷ []
unfolding print_plugins plugin_line left_justified fill_with summary
print_plugins_run = refl

abbrev first_options : FleetingOptions
first_options = record {
  help = false;
  version = false;
  verbose = false;
  dry_run = false;
  keep_going = false;
  jobs = 1;
  log_level = codes "none";
  list_plugins = false;
  append_search_paths = [];
  commands = [];
  autocomplete = none;
}

abbrev no_script : Text → Plugin
no_script path = lua path (λ t v p. fail)

with_options_run :
    (with_options_lines descriptions
        (codes "eh")
        no_script
        (record first_options { autocomplete = some [] })
        (record first_options { autocomplete = some [] })
        no_options
        described_settings
        (codes "/missing" ∷ [])
      ≡ some (
          error (codes "Failed to discover plugins for path \"/missing\". Skipping it")
          ∷ output (codes "build")
          ∷ output (codes "run")
          ∷ []))
    × (with_options_lines descriptions
          (codes "eh")
          no_script
          (record first_options { autocomplete = some [] })
          first_options
          no_options
          described_settings
          []
        ≡ none)
unfolding with_options_lines print_auto_complete get_values text_eq discover_lines quoted escaped
with_options_run = (refl, refl)
