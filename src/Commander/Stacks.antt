-- ===== src/Commander/Stacks.antt =====
-- What a run of src/commander/src/commander.cpp leaves on the stacks.
use exec_helper.Prelude.{Text, codes, ℕ, [], some, Bool, false, is_empty, ◌≡◌, refl}
use exec_helper.Platform.{Platform}
use exec_helper.Core.Task.{EnvironmentCollection}
use exec_helper.Config.SettingsNode.{SettingsNode, leaf}
use exec_helper.Config.Patterns.{Patterns}
use exec_helper.Plugins.State.{Options, execute, Plugins, State}
use exec_helper.Core.Task.{make_task}
use exec_helper.Plugins.Run.{apply}
use exec_helper.Plugins.Run.Frame.{apply-Frame}
use exec_helper.Plugins.Run.Keeping.{Frame}
use exec_helper.Commander.{push_all, pop_all, add_predefined_patterns, run}

module _ ⦃sys : Platform⦄ (fuel : ℕ) (o : Options) (settings : SettingsNode) (ps : Patterns)
    (directory : Text) (env : EnvironmentCollection) (plugins : Plugins) (s : State) where
  abbrev pushed : State
  pushed = push_all o settings (add_predefined_patterns ps) plugins s

  -- Popping restores the stacks if what runs in between keeps them.
  pub pop_all-Frame :
      (b : Bool) (s' : State)
      → Frame pushed s'
      → (s'' : State) × (pop_all (b, s') ≡ some (b, s''))
        × (s''.registered ≡ s'.registered)
        × Frame s s''
  unfolding pop_all push_all
  pop_all-Frame b s' f = (
    record s' {
      fleeting = s.fleeting;
      settings = s.settings;
      patterns = s.patterns;
      plugins = s.plugins;
    },
    rw (f.plugins, f.fleeting, f.settings, f.patterns),
    refl,
    record {
      fleeting = refl;
      settings = refl;
      patterns = refl;
      plugins = refl;
      return_code = f.return_code;
      registered = f.registered;
      executions = f.executions;
    },
  )

  -- If the commands of a run, of which there is at least one, return in the state in which everything
  -- is pushed, so does the run, with the same result and the same registered tasks. It leaves the
  -- four stacks and the return code of the memories as it found them, and only adds to the registered
  -- tasks and the remembered executions.
  pub run-Frame :
      (b : Bool) (s1 : State)
      → is_empty o.commands ≡ false
      → apply fuel
          (execute o.commands o.commands)
          (make_task [] env directory)
          (leaf (codes "commands"))
          []
          pushed
        ≡ some (b, s1)
      → (s' : State) × (run fuel o settings ps directory env plugins s ≡ some (b, s'))
        × (s'.registered ≡ s1.registered)
        × Frame s s'
  unfolding run
  run-Frame b s1 e h =
      let found = pop_all-Frame b s1 (apply-Frame fuel _ _ _ _ _ s1 b h) in
      (found.0, rw (e, h) found.1, found.2, found.3)
