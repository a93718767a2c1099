-- ===== src/Plugins/Run/Depth.antt =====
-- How deep the calls between plugins go: settings in which no command leads back to itself have an
-- end, and a bound on the depth of the commands is enough fuel.
use exec_helper.Prelude.{
  Text, text_eq, ℕ, zero, suc, ◌≤◌, ◌<◌, arith, List, [], ◌∷◌, Option, none, some, Bool, true,
  false, any, ◌≡◌, refl, ◌∙◌, ap, All,
}
use exec_helper.Platform.{Platform}
use exec_helper.Core.Task.{Task}
use exec_helper.Config.SettingsNode.{SettingsNode, get_values}
use exec_helper.Config.Patterns.{Patterns, PatternsHandler}
use exec_helper.Plugins.State.{
  Options, Plugin, execute, Plugins, State, M, each, next_round, each_nil, each_cons,
}
use exec_helper.Plugins.ExecutePlugin.{
  plugin_names, execute_one, execute_apply, copies, get_plugin, zip_commands,
}
use exec_helper.Plugins.ExecutePlugin.{plugin_variables}
use exec_helper.Plugins.ExecutePlugin.Filled.{Filled, merge_variables-Filled, next_patterns_total}
use exec_helper.Plugins.Run.{apply}
use exec_helper.Plugins.Run.Frame.{apply-Frame}
use exec_helper.Plugins.Run.Tops.{
  Tops, step_of, Reads, Tops-Frame, execute_one_unknown, execute_one_step,
}

abbrev pub Terminates : M Bool → State → Type 0
Terminates m s = (r : Bool × State) × (m s ≡ some r)

-- Settings in which the known commands, each with the command that it is reached by, are ranked: a
-- command of the settings stands for commands of lower ranks, what stands at the paths of a command
-- has values, and the plugins that are loaded return when the fuel is at least the rank of the command
-- that stands for them.
pub record Ranked ⦃sys : Platform⦄ (o : Options) (settings : SettingsNode)
    (handler : PatternsHandler) (plugins : Plugins) (Known : Text → Text → Type 0) (rank : Text → ℕ)
    : Type 0 where
  pub lower :
      (c i : Text) (cs : List Text)
      → Known c i
      → any (text_eq c) (plugin_names plugins) ≡ false
      → get_values (c ∷ []) settings ≡ some cs
      → All (λ c'. Known c' c × (rank c' < rank c)) cs
  pub filled : (c i : Text) → Known c i → All (Filled settings) ((c ∷ []) ∷ (c ∷ i ∷ []) ∷ [])
  pub returns :
      (c i : Text) (p : Plugin) (variables : SettingsNode) (ps : Patterns)
      → Known c i
      → any (text_eq c) (plugin_names plugins) ≡ true
      → get_plugin c plugins ≡ some p
      → Reads o settings handler plugins p c i variables ps
      → (fuel : ℕ) (t : Task) (s : State) → rank c ≤ fuel
      → Tops o settings handler plugins s
      → Terminates (apply (suc fuel) p t variables ps) s

module _ ⦃sys : Platform⦄ (o : Options) (settings : SettingsNode) (handler : PatternsHandler)
    (plugins : Plugins) (Known : Text → Text → Type 0) (rank : Text → ℕ)
    (ranked : Ranked o settings handler plugins Known rank) where
  abbrev pub Below : ℕ → Text × Text → Type 0
  Below fuel (c, i) = Known c i × (rank c < fuel)

  abbrev pub Executes : ℕ → Type 0
  Executes fuel =
      (cs initial : List Text) (t : Task) (variables : SettingsNode) (ps : Patterns) (s : State)
      → All (Below fuel) (zip_commands cs initial)
      → Tops o settings handler plugins s
      → Terminates (apply (suc fuel) (execute cs initial) t variables ps) s

  -- The commands that a command stands for can be executed with less fuel.
  All-Below :
      (fuel n : ℕ) (c : Text) (cs : List Text)
      → n ≤ fuel
      → All (λ c'. Known c' c × (rank c' < n)) cs
      → All (Below fuel) (zip_commands cs (copies cs c))
  All-Below fuel n c [] le h = tt
  All-Below fuel n c (x ∷ xs) le h = ((h.0.0, omega arith), All-Below fuel n c xs le h.1)

  read_command :
      (c i : Text) (p : Plugin)
      → Known c i
      → (variables : SettingsNode) × (ps : Patterns) × Reads o settings handler plugins p c i
          variables ps
  read_command c i p known =
      let merged =
        merge_variables-Filled ((c ∷ []) ∷ (c ∷ i ∷ []) ∷ []) settings (plugin_variables p o)
          (let filled = ranked.filled c i known in ((refl, filled.0), ((refl, filled.1.0), tt))) in
      let found = next_patterns_total merged.0 handler in (merged.0, found.0, (merged.1, found.1))

  -- One round, which leaves the tops of the stacks.
  abbrev Round : ℕ → Task → Text → Text → State → Type 0
  Round fuel t c i s =
      (r : Bool × State) × (execute_one (apply fuel) t (c, i) s ≡ some r)
      × Tops o settings handler plugins r.1

  run-Round :
      (fuel : ℕ) (t : Task) (c i : Text) (s : State) (p : Plugin) (variables : SettingsNode)
      (ps : Patterns)
      → Tops o settings handler plugins s
      → step_of o settings handler plugins c ≡ some p
      → Reads o settings handler plugins p c i variables ps
      → Terminates (apply fuel p t variables ps) s
      → Round fuel t c i s
  run-Round fuel t c i s p variables ps tops e reads h = (
    h.0,
    execute_one_step o settings handler plugins (apply fuel) t c i s tops p variables ps e reads
        ∙ h.1,
    Tops-Frame o settings handler plugins s h.0.1 tops
        (apply-Frame fuel p t variables ps s h.0.1 h.0.0 h.1),
  )

  unknown-Round :
      (fuel : ℕ) (t : Task) (c i : Text) (s : State)
      → Tops o settings handler plugins s
      → step_of o settings handler plugins c ≡ none
      → Round fuel t c i s
  unknown-Round fuel t c i s tops e =
      ((false, s), execute_one_unknown o settings handler plugins (apply fuel) t c i s tops e, tops)

  step-Round :
      (fuel : ℕ) (t : Task) (c i : Text) (s : State) (b : Bool) (found : Option (List Text))
      (loaded : Option Plugin)
      → Executes fuel
      → Below (suc fuel) (c, i)
      → Tops o settings handler plugins s
      → any (text_eq c) (plugin_names plugins) ≡ b
      → get_values (c ∷ []) settings ≡ found
      → get_plugin c plugins ≡ loaded
      → Round (suc fuel) t c i s
  step-Round fuel t c i s true found none ih below tops e v g =
      unknown-Round (suc fuel) t c i s tops (rw (e, g))
  step-Round fuel t c i s true found (some p) ih below tops e v g =
      let st : step_of o settings handler plugins c ≡ some p = rw (e, g) in
      let r = read_command c i p below.0 in
      run-Round (suc fuel) t c i s p r.0 r.1 tops st r.2
        (ranked.returns c i p r.0 r.1 below.0 e g r.2 fuel t s (omega arith) tops)
  step-Round fuel t c i s false none loaded ih below tops e v g =
      unknown-Round (suc fuel) t c i s tops (rw (e, v))
  step-Round fuel t c i s false (some cs) loaded ih below tops e v g =
      let q = execute cs (copies cs c) in
      let st : step_of o settings handler plugins c ≡ some q = rw (e, v) in
      let r = read_command c i q below.0 in
      run-Round (suc fuel) t c i s q r.0 r.1 tops st r.2 (
        ih cs (copies cs c) t r.0 r.1 s
          (All-Below fuel (rank c) c cs (omega arith) (ranked.lower c i cs below.0 e v)) tops)

  each-Terminates :
      (fuel : ℕ) (t : Task)
      → ((c i : Text) (s : State)
          → Below fuel (c, i)
          → Tops o settings handler plugins s
          → Round fuel t c i s)
      → (cs initial : List Text) (s : State) → All (Below fuel) (zip_commands cs initial)
      → Tops o settings handler plugins s
      → Terminates (each (execute_one (apply fuel) t) (zip_commands cs initial)) s
  each-Terminates fuel t round [] initial s h tops = ((true, s), each_nil _ s)
  each-Terminates fuel t round (c ∷ cs) [] s h tops = ((true, s), each_nil _ s)
  each-Terminates fuel t round (c ∷ cs) (i ∷ is) s h tops =
      let r = round c i s h.0 tops in
      let f = execute_one (apply fuel) t in
      after r.0 r.2 (λ s' tops'. each-Terminates fuel t round cs is s' h.1 tops')
        (each_cons f (c, i) (zip_commands cs is) s
          ∙ ap (next_round (each f (zip_commands cs is))) r.1)
    where
      after :
          (r : Bool × State)
          → Tops o settings handler plugins r.1
          → ((s' : State)
              → Tops o settings handler plugins s'
              → Terminates (each (execute_one (apply fuel) t) (zip_commands cs is)) s')
          → each (execute_one (apply fuel) t) ((c, i) ∷ zip_commands cs is) s
            ≡ next_round (each (execute_one (apply fuel) t) (zip_commands cs is)) (some r)
          → Terminates (each (execute_one (apply fuel) t) ((c, i) ∷ zip_commands cs is)) s
      after (true, s') tops' rest e = let left = rest s' tops' in (left.0, e ∙ left.1)
      after (false, s') tops' rest e = ((false, s'), e)

  -- Executing commands of ranks below the fuel always returns.
  pub execute-Terminates : (fuel : ℕ) → Executes fuel
  unfolding apply execute_apply
  execute-Terminates zero cs initial t variables ps s h tops =
      each-Terminates zero t (λ c i s' below _. absurd (omega arith)) cs initial s h tops
  execute-Terminates (suc fuel) cs initial t variables ps s h tops =
      each-Terminates (suc fuel) t
        (λ c i s' below tops'.
          step-Round fuel t c i s' _ _ _ (execute-Terminates fuel) below tops' refl refl refl)
        cs initial s h tops
