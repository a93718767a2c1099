-- ===== src/Plugins/Run/Tops.antt =====
-- What a command of src/plugins/src/executePlugin.cpp stands for when the tops of the stacks are
-- known, and what executing it does.
use exec_helper.Prelude.{
  Text, text_eq, [], ◌∷◌, Option, none, some, Bool, true, false, if◌then◌else◌, ◌>>=◌, any, head?,
  ◌≡◌, refl, ◌∙◌, ap,
}
use exec_helper.Platform.{Platform}
use exec_helper.Core.Task.{Task}
use exec_helper.Config.SettingsNode.{SettingsNode, get_values}
use exec_helper.Config.Patterns.{Patterns, PatternsHandler}
use exec_helper.Plugins.State.{
  Options, Plugin, execute, Plugins, State, M, ◌>>=ₘ◌, pure, demand, read_top,
}
use exec_helper.Plugins.ExecutePlugin.{
  plugin_names, plugin_variables, next_step, execute_one, copies, get_plugin, merge_variables,
  next_patterns,
}
use exec_helper.Plugins.Internal.Keys.{Run}
use exec_helper.Plugins.Run.Keeping.{Frame}
use exec_helper.Plugins.Run.Steps.{bind-some, read_top-some, demand-some}

-- What is on top of the four stacks.
pub record Tops (options : Options) (node : SettingsNode) (handler : PatternsHandler)
    (loaded : Plugins) (s : State) : Type 0 where
  pub fleeting : head? s.fleeting ≡ some options
  pub settings : head? s.settings ≡ some node
  pub patterns : head? s.patterns ≡ some handler
  pub plugins : head? s.plugins ≡ some loaded

module _ ⦃sys : Platform⦄ (o : Options) (settings : SettingsNode) (handler : PatternsHandler)
    (plugins : Plugins) where
  -- What a command stands for.
  abbrev pub step_of : Text → Option Plugin
  step_of c =
      if any (text_eq c) (plugin_names plugins)
      then get_plugin c plugins
      else (get_values (c ∷ []) settings >>= λ cs. some (execute cs (copies cs c)))

  abbrev pub Reads : Plugin → Text → Text → SettingsNode → Patterns → Type 0
  Reads p c i variables ps =
      (merge_variables ((c ∷ []) ∷ (c ∷ i ∷ []) ∷ []) settings (plugin_variables p o)
        ≡ some variables)
      × (next_patterns variables handler ≡ some ps)

  pub Tops-Frame :
      (s s' : State)
      → Tops o settings handler plugins s
      → Frame s s'
      → Tops o settings handler plugins s'
  Tops-Frame s s' h f = record {
    fleeting = ap head? f.fleeting ∙ h.fleeting;
    settings = ap head? f.settings ∙ h.settings;
    patterns = ap head? f.patterns ∙ h.patterns;
    plugins = ap head? f.plugins ∙ h.plugins;
  }

  next_step_lem :
      (c : Text) (s : State)
      → Tops o settings handler plugins s
      → next_step c s ≡ some (step_of c, s)
  unfolding next_step pure
  next_step_lem c s h =
      bind-some (read_top State.plugins) _ s s plugins
        (read_top-some State.plugins s plugins h.plugins)
      ∙ go (any (text_eq c) (plugin_names plugins))
    where
      go :
          (b : Bool)
          → (if b
                then pure (get_plugin c plugins)
                else (read_top State.settings >>=ₘ λ n.
                    pure (get_values (c ∷ []) n >>= λ cs. some (execute cs (copies cs c)))))
              s
            ≡ some (
              (if b
                  then get_plugin c plugins
                  else (get_values (c ∷ []) settings >>= λ cs. some (execute cs (copies cs c)))),
              s,
            )
      go true = refl
      go false =
          bind-some (read_top State.settings) _ s s settings
            (read_top-some State.settings s settings h.settings)

  module _ (run : Run) (t : Task) (c i : Text) (s : State)
      (tops : Tops o settings handler plugins s) where
    abbrev after_step : Option Plugin → M Bool
    after_step found = elim found as (λ _. M Bool) [
      | none ↦ pure false
      | some plugin ↦ read_top State.fleeting >>=ₘ λ o. read_top State.settings >>=ₘ λ settings.
          demand
            (merge_variables ((c ∷ []) ∷ (c ∷ i ∷ []) ∷ []) settings (plugin_variables plugin o))
          >>=ₘ λ variables. read_top State.patterns >>=ₘ λ handler.
              demand (next_patterns variables handler) >>=ₘ λ ps. run plugin t variables ps
    ]

    pub execute_one_unknown : step_of c ≡ none → execute_one run t (c, i) s ≡ some (false, s)
    unfolding execute_one pure
    execute_one_unknown h =
        bind-some (next_step c) _ s s (step_of c) (next_step_lem c s tops)
        ∙ ap (λ found. after_step found s) h

    pub execute_one_step :
        (p : Plugin) (variables : SettingsNode) (ps : Patterns)
        → step_of c ≡ some p
        → Reads p c i variables ps
        → execute_one run t (c, i) s ≡ run p t variables ps s
    unfolding execute_one
    execute_one_step p variables ps h reads =
        bind-some (next_step c) _ s s (step_of c) (next_step_lem c s tops)
        ∙ ap (λ found. after_step found s) h
        ∙ bind-some (read_top State.fleeting) _ s s o
            (read_top-some State.fleeting s o tops.fleeting)
        ∙ bind-some (read_top State.settings) _ s s settings
            (read_top-some State.settings s settings tops.settings)
        ∙ bind-some (demand _) _ s s variables (demand-some _ s variables reads.0)
        ∙ bind-some (read_top State.patterns) _ s s handler
            (read_top-some State.patterns s handler tops.patterns)
        ∙ bind-some (demand _) _ s s ps (demand-some _ s ps reads.1)
