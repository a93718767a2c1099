-- ===== src/Tests/DepthRuns.antt =====
-- Runs of nested commands, at concrete inputs.
use exec_helper.Prelude.{
  Text, codes, text_eq, ℕ, suc, ◌<◌, List, [], ◌∷◌, some, Bool, true, false, if◌then◌else◌,
  value_or, any, arith, ◌≡◌, refl, ap, subst, All,
}
use exec_helper.OrderedMap.{find}
use exec_helper.Core.Task.{Task}
use exec_helper.Config.SettingsNode.{
  SettingsNode, node, collection, cons, nil, leaf, contains, get_values,
}
use exec_helper.Config.Patterns.{Patterns, make_handler}
use exec_helper.Plugins.State.{Options, Plugin, memory, State, remember}
use exec_helper.Plugins.Internal.{memory_apply}
use exec_helper.Plugins.ExecutePlugin.{plugin_names, get_plugin}
use exec_helper.Plugins.Run.{apply}
use exec_helper.Plugins.Run.Keeping.{Frame}
use exec_helper.Plugins.Run.Depth.{Ranked, Terminates}
use exec_helper.Plugins.ExecutePlugin.Filled.{Filled}
use exec_helper.Commander.{add_predefined_patterns, run}
use exec_helper.Commander.Depth.{run-Terminates}
use exec_helper.Application.Main.{initial_state}
use exec_helper.Tests.SampleSystem.{sample_processes}
use exec_helper.Tests.Sample.{sample_platform}

abbrev all_name : Text
all_name = codes "all"

abbrev memory_name : Text
memory_name = codes "memory"

-- The command `all` stands for the plugin memory.
abbrev nested_settings : SettingsNode
nested_settings =
    node (codes "settings")
      (collection (cons (node all_name (collection (cons (leaf memory_name) nil))) nil))

abbrev all_options : Options
all_options = record { verbosity = false; jobs = 1; commands = all_name ∷ [] }

data Reached : Text → Text → Type 0 where
  outer : Reached all_name all_name
  inner : Reached memory_name all_name

rank : Text → ℕ
rank c = if text_eq c all_name then 1 else 0

texts_of : {x y : List Text} → some x ≡ some y → x ≡ y
texts_of e = ap (λ o. value_or o []) e

plugin_of : {x y : Plugin} → some x ≡ some y → x ≡ y
plugin_of e = ap (λ o. value_or o memory) e

lower_lem :
    (c i : Text) (cs : List Text)
    → Reached c i
    → any (text_eq c) (plugin_names []) ≡ false
    → get_values (c ∷ []) nested_settings ≡ some cs
    → All (λ c'. Reached c' c × (rank c' < rank c)) cs
unfolding get_values plugin_names text_eq rank
lower_lem c i cs outer e v =
    subst (All (λ c'. Reached c' all_name × (rank c' < 1))) (texts_of v) ((inner, omega arith), tt)
lower_lem c i cs inner e v = absurd (ground (arith, e))

filled_lem :
    (c i : Text) → Reached c i → All (Filled nested_settings) ((c ∷ []) ∷ (c ∷ i ∷ []) ∷ [])
unfolding get_values contains text_eq
filled_lem c i outer = (λ _. refl, (λ e. absurd (ground (arith, e)), tt))
filled_lem c i inner = (λ e. absurd (ground (arith, e)), (λ e. absurd (ground (arith, e)), tt))

memory_returns :
    (p : Plugin) (variables : SettingsNode) (ps : Patterns) (fuel : ℕ) (t : Task) (s : State)
    → memory ≡ p
    → Terminates (apply (suc fuel) p t variables ps) s
unfolding apply memory_apply remember
memory_returns p variables ps fuel t s e =
    subst (λ p. Terminates (apply (suc fuel) p t variables ps) s) e (_, refl)

returns_lem :
    (c i : Text) (p : Plugin) (variables : SettingsNode) (ps : Patterns) (fuel : ℕ) (t : Task)
    (s : State)
    → Reached c i
    → any (text_eq c) (plugin_names []) ≡ true
    → get_plugin c [] ≡ some p
    → Terminates (apply (suc fuel) p t variables ps) s
unfolding get_plugin plugin_names text_eq find
returns_lem c i p variables ps fuel t s outer e g = absurd (ground (arith, e))
returns_lem c i p variables ps fuel t s inner e g =
    memory_returns p variables ps fuel t s (plugin_of g)

ranked :
    Ranked all_options nested_settings (make_handler (add_predefined_patterns [])) [] Reached rank
ranked = record {
  lower = lower_lem;
  filled = filled_lem;
  returns = λ c i p variables ps known e g _ fuel t s _ _.
      returns_lem c i p variables ps fuel t s known e g;
}

run-Terminates_example :
    (b : Bool) × (s' : State) × (run 3 all_options nested_settings []
        (codes "/work")
        []
        []
        initial_state
      ≡ some (b, s'))
    × Frame initial_state s'
unfolding rank text_eq
run-Terminates_example =
    run-Terminates all_options nested_settings [] [] Reached rank ranked 2 (codes "/work") []
      initial_state refl ((outer, omega arith), tt)
