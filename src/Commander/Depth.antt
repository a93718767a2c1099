-- ===== src/Commander/Depth.antt =====
-- When a run of src/commander/src/commander.cpp comes to an end.
use exec_helper.Prelude.{
  Text, codes, ℕ, suc, ◌<◌, List, [], ◌∷◌, some, Bool, false, is_empty, ◌≡◌, refl, All,
}
use exec_helper.Platform.{Platform}
use exec_helper.Core.Task.{EnvironmentCollection, make_task}
use exec_helper.Config.SettingsNode.{SettingsNode, leaf}
use exec_helper.Config.Patterns.{Patterns, make_handler}
use exec_helper.Plugins.State.{Options, Plugins, State}
use exec_helper.Plugins.ExecutePlugin.{zip_commands}
use exec_helper.Plugins.Run.Keeping.{Frame}
use exec_helper.Plugins.Run.Tops.{Tops}
use exec_helper.Plugins.Run.Depth.{Ranked, execute-Terminates, Below}
use exec_helper.Commander.{push_all, add_predefined_patterns, run}
use exec_helper.Commander.Stacks.{run-Frame}

push_all-Tops :
    ⦃sys : Platform⦄ (o : Options) (settings : SettingsNode) (ps : Patterns) (plugins : Plugins)
    (s : State)
    → Tops o settings (make_handler ps) plugins (push_all o settings ps plugins s)
unfolding push_all
push_all-Tops o settings ps plugins s = record {
  fleeting = refl;
  settings = refl;
  patterns = refl;
  plugins = refl;
}

module _ ⦃sys : Platform⦄ (o : Options) (settings : SettingsNode) (ps : Patterns)
    (plugins : Plugins) (Known : Text → Text → Type 0) (rank : Text → ℕ)
    (ranked : Ranked o settings
      (make_handler (add_predefined_patterns ps))
      plugins
      Known
      rank) where
  All-zip :
      (fuel : ℕ) (cs : List Text)
      → All (λ c. Known c c × (rank c < fuel)) cs
      → All
          (Below o settings
            (make_handler (add_predefined_patterns ps))
            plugins
            Known
            rank
            ranked
            fuel)
          (zip_commands cs cs)
  All-zip fuel [] h = tt
  All-zip fuel (c ∷ cs) h = (h.0, All-zip fuel cs h.1)

  -- If the commands are ranked, in that a command of the settings stands for commands of lower ranks
  -- only, that what stands in the settings for a command has values, and that the loaded plugins
  -- return, then a run of at least one command, each of a rank below the fuel, returns. It leaves
  -- the four stacks and the return code of the memories as it found them.
  pub run-Terminates :
      (fuel : ℕ) (directory : Text) (env : EnvironmentCollection) (s : State)
      → is_empty o.commands ≡ false
      → All (λ c. Known c c × (rank c < fuel)) o.commands
      → (b : Bool) × (s' : State) × (run (suc fuel) o settings ps directory env plugins s
          ≡ some (b, s'))
        × Frame s s'
  run-Terminates fuel directory env s e h =
      let handler = make_handler (add_predefined_patterns ps) in
      let pushed = push_all o settings (add_predefined_patterns ps) plugins s in
      let ran =
        execute-Terminates o settings handler plugins Known rank ranked fuel o.commands o.commands
          (make_task [] env directory) (leaf (codes "commands")) [] pushed
          (All-zip fuel o.commands h)
          (push_all-Tops o settings (add_predefined_patterns ps) plugins s) in
      let left =
        run-Frame (suc fuel) o settings ps directory env plugins s ran.0.0 ran.0.1 e ran.1 in
      (ran.0.0, left.0, left.1, left.3)
