-- ===== src/Application/Main/DryRun.antt =====
-- A dry run that the parser finds among the arguments of src/applications/exec-helper.cpp.
use exec_helper.Prelude.{
  Text, codes, text_eq, text_lt, List, [], ◌∷◌, Option, some, true, false, value_or, is_some, ◌≡◌,
  refl, sym, ap, ◌∙◌, ◌++◌, append_assoc, subst, arith, inl, ℕ,
}
use exec_helper.Platform.{Platform}
use exec_helper.Files.{Files}
use exec_helper.OrderedMap.{Map, find, emplace, IsSorted}
use exec_helper.Core.Shell.{Processes}
use exec_helper.Core.Executor.{Session}
use exec_helper.Config.Argv.{argv_from_main, texts}
use exec_helper.Config.Argv.Copies.{bind_some}
use exec_helper.Config.SettingsNode.{SettingsNode, get_bool, add}
use exec_helper.Config.SettingsNode.Lookup.{get_values-values_at, get_last-values_at}
use exec_helper.Config.SettingsNode.Top.{IsDistinctTop}
use exec_helper.Config.Patterns.{Patterns}
use exec_helper.Config.FleetingOptions.{
  dry_run_key, help_key, version_key, verbose_key, jobs_key, new_options, get_default,
}
use exec_helper.Config.OptionDescriptions.{
  switch, single, OptionInterface, Value, bool_value, Parser, get_options_map,
  set_positional_argument, add_option, argument_keys,
}
use exec_helper.Config.OptionDescriptions.Switches.{On, to_map_from-On}
use exec_helper.Application.{
  Installation, option, command_option, get_default_options, add_pattern_options,
}
use exec_helper.Application.PatternOptions.{
  add_pattern_options-find, add_pattern_options-descriptions,
}
use exec_helper.Application.Main.{Ending, handle_configuration, exec_helper_main}
use exec_helper.Application.Main.Stops.{exec_helper_main-dry_run}

abbrev pub dry_run_option : OptionInterface
dry_run_option = option dry_run_key (codes "n" ∷ []) switch

-- Whatever options there are before and after the switch for a dry run: if the parser understands the
-- arguments, it finds the switch.
abbrev pub FindsDryRun : Parser → List Text → Type 0
FindsDryRun parse argv =
    (before after : List OptionInterface) (positional : Option Text) (given : Map Value)
    → parse (before ++ dry_run_option ∷ after) positional false argv ≡ some given
    → find dry_run_key given ≡ some (bool_value true)

default_options_lem :
    IsSorted (get_default_options).options
    × (find dry_run_key get_default_options.options ≡ some dry_run_option)
    × ((before after : List OptionInterface) × (get_default_options.descriptions
          ≡ before ++ dry_run_option ∷ after))
unfolding get_default_options add_option emplace text_lt text_eq find argument_keys
default_options_lem = (
  ground arith,
  refl,
  (
    option help_key (codes "h" ∷ []) switch
        ∷ option version_key [] switch
        ∷ option verbose_key (codes "v" ∷ []) switch
        ∷ option jobs_key (codes "j" ∷ []) single
        ∷ [],
    _,
    refl,
  ),
)

get_default-IsDistinctTop : IsDistinctTop get_default
unfolding get_default add text_eq
get_default-IsDistinctTop = ground arith

module _ ⦃sys : Platform⦄ where
  On-dry_run :
      (m : SettingsNode) (given : Map Value) (f : find dry_run_key given ≡ some (bool_value true))
      → On dry_run_key given f m
      → (new_options m).dry_run ≡ true
  unfolding new_options get_bool text_eq
  On-dry_run m given f h =
      rw (
        get_last-values_at (dry_run_key ∷ []) m,
        sym (get_values-values_at (dry_run_key ∷ []) m),
        h,
      )

  handle_configuration-dry_run :
      (parse : Parser) (argv : List Text)
      → FindsDryRun parse argv
      → (ps : Patterns) (options_map : SettingsNode)
      → handle_configuration parse argv (add_pattern_options ps get_default_options)
        ≡ some options_map
      → (new_options options_map).dry_run ≡ true
  unfolding handle_configuration get_options_map set_positional_argument
  handle_configuration-dry_run parse argv finds ps options_map e =
      let d = add_pattern_options ps get_default_options in
      let known =
        add_pattern_options-find dry_run_key dry_run_option ps get_default_options
          default_options_lem.0 default_options_lem.1 in
      let given =
        bind_some (parse d.descriptions (some command_option.identifying_option) false argv) _
          options_map e in
      let added = add_pattern_options-descriptions ps get_default_options in
      let (before, after, at_default) = default_options_lem.2 in
      let f = finds before (after ++ added.0) (some command_option.identifying_option) given.0 (
        ap (λ ds. parse ds (some command_option.identifying_option) false argv)
          (sym (
            added.1
            ∙ ap (λ ds. ds ++ added.0) at_default
            ∙ append_assoc before (dry_run_option ∷ after) added.0))
        ∙ given.1) in
      let on =
        to_map_from-On dry_run_key given.0 f d.options (codes "n" ∷ []) known given.0 get_default
          get_default-IsDistinctTop (inl (ap is_some f)) in
      On-dry_run options_map given.0 f
        (subst (On dry_run_key given.0 f) (ap (λ o. value_or o get_default) given.2) on)

  -- If the parser, when it understands the arguments as they are read from their copies, finds the
  -- switch for a dry run, whatever options the patterns of the settings file add, and the main
  -- function ends, it has started no process and has left the shell and the last return code as they
  -- were.
  pub exec_helper_main-FindsDryRun :
      ⦃os : Processes⦄ ⦃files : Files⦄ (fuel : ℕ) (installation : Installation) (parse : Parser)
      (argv envp : List Text) (s s' : Session) (e : Ending)
      → ((args : List Text) → texts (argv_from_main argv 0).0 ≡ some args → FindsDryRun parse args)
      → exec_helper_main fuel installation parse argv envp s ≡ some (e, s')
      → s' ≡ s
  exec_helper_main-FindsDryRun fuel installation parse argv envp s s' e finds r =
      exec_helper_main-dry_run fuel installation parse argv envp s s' e
        (λ args e. handle_configuration-dry_run parse args (finds args e)) r
