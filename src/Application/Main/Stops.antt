-- ===== src/Application/Main/Stops.antt =====
-- A dry run of src/applications/exec-helper.cpp.
use exec_helper.Prelude.{
  Text, ℕ, List, [], ◌∷◌, Option, none, some, Bool, true, false, not, ◌||◌, if◌then◌else◌, ◌>>=◌,
  is_some, ◌≡◌, refl, ◌∙◌, ap, subst,
}
use exec_helper.Platform.{Platform}
use exec_helper.Files.{Files}
use exec_helper.Core.Task.{EnvironmentCollection, Task}
use exec_helper.Core.Shell.{Processes}
use exec_helper.Core.Executor.{
  Session, Reaction, going, exits, reporting, choose_executor, execute_task, execute_tasks,
}
use exec_helper.Config.SettingsNode.{SettingsNode}
use exec_helper.Config.Patterns.{Patterns}
use exec_helper.Config.FleetingOptions.{FleetingOptions, new_options, get_default, verify_options}
use exec_helper.Config.OptionDescriptions.{Parser, get_options_map}
use exec_helper.Plugins.State.{Plugins}
use exec_helper.Config.Argv.{argv_from_main, texts}
use exec_helper.Environment.{to_env_collection}
use exec_helper.Commander.{run}
use exec_helper.Application.{
  Installation, ParsedFile, terminated, unreadable, parsed, get_default_options,
  add_pattern_options, parse_settings_file, get_settings_file,
}
use exec_helper.Application.Main.{
  Ending, initial_state, plugin_options, finish, handle_configuration, run_commander, with_options,
  with_file, with_first_pass, exec_helper_main, settings_file_name,
}

-- A run of the main function that leaves the session as it was, if it returns.
abbrev Quiet : Session → Option (Ending × Session) → Type 0
Quiet s none = Unit
Quiet s (some (e, s')) = s' ≡ s

module _ {A : Type 0} where
  Quiet-elim :
      (s : Session) (o : Option A) (d : Option (Ending × Session))
      (f : A → Option (Ending × Session))
      → Quiet s d
      → ((a : A) → o ≡ some a → Quiet s (f a))
      → Quiet s (elim o as (λ _. Option (Ending × Session)) [ none ↦ d | some a ↦ f a ])
  Quiet-elim s none d f h k = h
  Quiet-elim s (some a) d f h k = k a refl

  Quiet-bind :
      (s : Session) (o : Option A) (f : A → Option (Ending × Session))
      → ((a : A) → Quiet s (f a))
      → Quiet s (o >>= f)
  Quiet-bind s none f k = tt
  Quiet-bind s (some a) f k = k a

Quiet-if :
    (s : Session) (b : Bool) (x y : Option (Ending × Session))
    → Quiet s x
    → Quiet s y
    → Quiet s (if b then x else y)
Quiet-if s true x y h k = h
Quiet-if s false x y h k = k

finish-session : (b : Bool) (r : Reaction × Session) → (finish b r).1 ≡ r.1
unfolding finish
finish-session true (going, s) = refl
finish-session false (going, s) = refl
finish-session b (exits code, s) = refl
finish-session b (Reaction.terminates, s) = refl
finish-session b (Reaction.undefined, s) = refl
finish-session b (Reaction.blocked, s) = refl

module _ ⦃sys : Platform⦄ ⦃os : Processes⦄ where
  execute_tasks-reporting :
      (ts : List Task) (s : Session) → execute_tasks reporting ts s ≡ (going, s)
  unfolding execute_tasks execute_task
  execute_tasks-reporting [] s = refl
  execute_tasks-reporting (t ∷ ts) s = execute_tasks-reporting ts s

  run_commander-Quiet :
      (fuel : ℕ) (o : FleetingOptions) (settings : SettingsNode) (ps : Patterns) (directory : Text)
      (env : EnvironmentCollection) (plugins : Plugins) (s : Session)
      → o.dry_run ≡ true
      → Quiet s (run_commander fuel o settings ps directory env plugins s)
  unfolding run_commander choose_executor
  run_commander-Quiet fuel o settings ps directory env plugins s e =
      Quiet-bind s (run fuel (plugin_options o) settings ps directory env plugins initial_state) _
        (λ ran.
          finish-session ran.0
            (execute_tasks (choose_executor o.dry_run o.keep_going) ran.1.registered s)
          ∙ ap
              (λ (dry : Bool).
                (execute_tasks (choose_executor dry o.keep_going) ran.1.registered s).1)
              e
          ∙ ap (λ r. r.1) (execute_tasks-reporting ran.1.registered s))

  module _ ⦃files : Files⦄ (fuel : ℕ) (installation : Installation) (parse : Parser) where
    with_options-Quiet :
        (first o : FleetingOptions) (options_map settings : SettingsNode) (ps : Patterns)
        (base_path : Text) (env : EnvironmentCollection) (s : Session)
        → o.dry_run ≡ true
        → Quiet s
            (with_options fuel installation parse first o options_map settings ps base_path env s)
    unfolding with_options
    with_options-Quiet first o options_map settings ps base_path env s e =
        Quiet-if s (o.help || o.version || o.list_plugins) _ _ refl (
          Quiet-if s (is_some first.autocomplete) _ _ refl (
            Quiet-if s (not (verify_options o)) _ _ refl
              (run_commander-Quiet fuel o settings _ base_path env _ s e)))

    -- Whatever patterns the settings file adds options for, what the parser makes of the arguments asks
    -- for a dry run.
    abbrev pub AsksDryRun : List Text → Type 0
    AsksDryRun argv =
        (ps : Patterns) (options_map : SettingsNode)
        → handle_configuration parse argv (add_pattern_options ps get_default_options)
          ≡ some options_map
        → (new_options options_map).dry_run ≡ true

    with_file-Quiet :
        (first : FleetingOptions) (file : Text) (argv : List Text) (env : EnvironmentCollection)
        (s : Session) (p : ParsedFile)
        → AsksDryRun argv
        → Quiet s (with_file fuel installation parse first file argv env s p)
    unfolding with_file
    with_file-Quiet first file argv env s terminated h = refl
    with_file-Quiet first file argv env s unreadable h = refl
    with_file-Quiet first file argv env s (parsed ps settings) h =
        Quiet-elim s (handle_configuration parse argv (add_pattern_options ps get_default_options))
          _ _ refl
          (λ options_map e.
            with_options-Quiet first (new_options options_map) options_map settings ps
              (files.parent_path file) env s (h ps options_map e))

    main-Quiet :
        (argv envp : List Text) (s : Session)
        → ((args : List Text) → texts (argv_from_main argv 0).0 ≡ some args → AsksDryRun args)
        → Quiet s (exec_helper_main fuel installation parse argv envp s)
    unfolding exec_helper_main with_first_pass
    main-Quiet argv envp s h = Quiet-elim s (texts (argv_from_main argv 0).0) _ _ refl (λ args e.
        Quiet-elim s (to_env_collection envp) _ _ refl (λ env _.
          Quiet-elim s (get_options_map parse get_default_options args true get_default) _ _ refl
            (λ options_map _.
              Quiet-bind s
                (get_settings_file (settings_file_name fuel installation parse options_map) env) _
                (λ found. Quiet-elim s found _ _ refl (λ file _.
                  Quiet-bind s (parse_settings_file (installation.load_file file)) _ (λ p.
                    with_file-Quiet (new_options options_map) file args env s p (h args e)))))))

    -- If the arguments ask for a dry run, whatever options the patterns of the settings file add,
    -- and the main function ends, it has started no process and has left the shell and the last
    -- return code as they were.
    pub exec_helper_main-dry_run :
        (argv envp : List Text) (s s' : Session) (e : Ending)
        → ((args : List Text) → texts (argv_from_main argv 0).0 ≡ some args → AsksDryRun args)
        → exec_helper_main fuel installation parse argv envp s ≡ some (e, s')
        → s' ≡ s
    exec_helper_main-dry_run argv envp s s' e h r = subst (Quiet s) r (main-Quiet argv envp s h)
