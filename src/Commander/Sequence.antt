-- ===== src/Commander/Sequence.antt =====
-- What several runs of src/commander/src/commander.cpp, one after the other, leave on the stacks.
use exec_helper.Prelude.{
  Text, codes, ℕ, List, [], ◌∷◌, Option, some, Bool, true, false, if◌then◌else◌, ◌>>=◌, is_empty,
  ◌≡◌, refl, sym, ◌∙◌, ap, value_or, subst,
}
use exec_helper.Platform.{Platform}
use exec_helper.Core.Task.{EnvironmentCollection, make_task}
use exec_helper.Config.Argv.Copies.{bind_some}
use exec_helper.Config.SettingsNode.{SettingsNode, leaf}
use exec_helper.Config.Patterns.{Patterns, make_handler}
use exec_helper.Plugins.State.{Options, execute, Plugins, State}
use exec_helper.Plugins.Run.{apply}
use exec_helper.Plugins.Run.Frame.{apply-Frame}
use exec_helper.Commander.{push_all, pop_all, add_predefined_patterns, run}
use exec_helper.Commander.Stacks.{pop_all-Frame}

-- The arguments of a call of `Commander::run`.
pub record Request : Type 0 where
  pub fuel : ℕ
  pub options : Options
  pub settings : SettingsNode
  pub patterns : Patterns
  pub directory : Text
  pub env : EnvironmentCollection
  pub plugins : Plugins

-- What the requests without a command put on a stack, the last one on top.
abbrev pub left : {A : Type 0} → (Request → A) → List Request → List A → List A
left f [] stack = stack
left f (r ∷ rs) stack = left f rs (if is_empty r.options.commands then f r ∷ stack else stack)

-- The stacks of a state after some requests.
pub record Left ⦃sys : Platform⦄ (rs : List Request) (s s' : State) : Type 0 where
  pub fleeting : s'.fleeting ≡ left (λ r. r.options) rs s.fleeting
  pub settings : s'.settings ≡ left (λ r. r.settings) rs s.settings
  pub patterns :
      s'.patterns ≡ left (λ r. make_handler (add_predefined_patterns r.patterns)) rs s.patterns
  pub plugins : s'.plugins ≡ left (λ r. r.plugins) rs s.plugins

module _ ⦃sys : Platform⦄ where
  abbrev pub run_request : Request → State → Option (Bool × State)
  run_request r s = run r.fuel r.options r.settings r.patterns r.directory r.env r.plugins s

  -- Calls of `Commander::run`, one after the other.
  unfoldable pub run_all : List Request → State → Option State
  run_all [] s = some s
  run_all (r ∷ rs) s = run_request r s >>= λ ran. run_all rs ran.1

  same_state : (x y : Bool × State) → (Option.some x ≡ some y) → x.1 ≡ y.1
  same_state x y e = ap (λ o. (value_or o x).1) e

  abbrev pushed : Request → State → State
  pushed r s = push_all r.options r.settings (add_predefined_patterns r.patterns) r.plugins s

  run_request-Left :
      (r : Request) (s : State) (ran : Bool × State)
      → run_request r s ≡ some ran
      → Left (r ∷ []) s ran.1
  unfolding run push_all
  run_request-Left r s ran h = of_run _ refl h
    where
      of_run :
          (b : Bool)
          → is_empty r.options.commands ≡ b
          → (if b
              then some (false, pushed r s)
              else apply r.fuel
                  (execute r.options.commands r.options.commands)
                  (make_task [] r.env r.directory)
                  (leaf (codes "commands"))
                  []
                  (pushed r s)
                >>= pop_all)
            ≡ some ran
          → Left (r ∷ []) s ran.1
      of_run true e h =
          subst (λ t. Left (r ∷ []) s t) (same_state _ ran h)
            (record { fleeting = rw e; settings = rw e; patterns = rw e; plugins = rw e })
      of_run false e h =
          let applied = bind_some _ pop_all ran h in
          let popped =
            pop_all-Frame r.fuel r.options r.settings r.patterns r.directory r.env r.plugins s
              applied.0.0 applied.0.1
              (apply-Frame r.fuel _ _ _ _ (pushed r s) applied.0.1 applied.0.0 applied.1) in
          let frame = popped.3 in
          subst (λ t. Left (r ∷ []) s t)
            (same_state (applied.0.0, popped.0) ran (sym popped.1 ∙ applied.2))
            (record {
              fleeting = rw (e, frame.fleeting);
              settings = rw (e, frame.settings);
              patterns = rw (e, frame.patterns);
              plugins = rw (e, frame.plugins);
            })

  -- After any calls of `run` on one commander, one after the other, that all return, the four stacks
  -- hold, above what was there, exactly what the calls without a command have pushed, the last of
  -- these on top; the calls with a command leave nothing.
  pub run_all-Left : (rs : List Request) (s s' : State) → run_all rs s ≡ some s' → Left rs s s'
  unfolding run_all
  run_all-Left [] s s' h =
      let same = ap (λ o. value_or o s) h in
      record {
        fleeting = ap (λ t. t.fleeting) (sym same);
        settings = ap (λ t. t.settings) (sym same);
        patterns = ap (λ t. t.patterns) (sym same);
        plugins = ap (λ t. t.plugins) (sym same);
      }
  run_all-Left (r ∷ rs) s s' h =
      let ran = bind_some (run_request r s) (λ ran. run_all rs ran.1) s' h in
      let one = run_request-Left r s ran.0 ran.1 in
      let rest = run_all-Left rs ran.0.1 s' ran.2 in
      record {
        fleeting = rest.fleeting ∙ ap (left (λ r. r.options) rs) one.fleeting;
        settings = rest.settings ∙ ap (left (λ r. r.settings) rs) one.settings;
        patterns =
            rest.patterns
            ∙ ap (left (λ r. make_handler (add_predefined_patterns r.patterns)) rs) one.patterns;
        plugins = rest.plugins ∙ ap (left (λ r. r.plugins) rs) one.plugins;
      }
