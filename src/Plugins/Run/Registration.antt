-- ===== src/Plugins/Run/Registration.antt =====
-- What src/plugins/src/commandLineCommand.cpp registers.
use exec_helper.Prelude.{
  Text, List, [], ◌∷◌, ◌++◌, append_assoc, append-nil, some, true, false, if◌then◌else◌, is_empty,
  ◌≡◌, sym, ◌∙◌, ap,
}
use exec_helper.Platform.{Platform}
use exec_helper.OrderedMap.{Map}
use exec_helper.Core.Task.{Task}
use exec_helper.Config.SettingsNode.{SettingsNode, get_values}
use exec_helper.Config.Patterns.{Patterns}
use exec_helper.Plugins.PluginUtils.{pattern_combinations, replace_task}
use exec_helper.Plugins.State.{State, ◌>>=ₘ◌, pure, demand, register_task, each}
use exec_helper.Plugins.Internal.Keys.{command_line_key}
use exec_helper.Plugins.Internal.{
  command_line_apply, command_line_tasks, add_environment, use_working_directory,
}
use exec_helper.Plugins.State.{next_round, each_nil, each_cons}

abbrev pub more_registered : List Task → State → State
more_registered ts s = record s { registered = s.registered ++ ts }

module _ ⦃sys : Platform⦄ where
  abbrev pub replace_tasks : List Task → Map Text → List Task
  replace_tasks [] c = []
  replace_tasks (t ∷ ts) c = replace_task t c ∷ replace_tasks ts c

  abbrev pub replace_rounds : List Task → List (Map Text) → List Task
  replace_rounds ts [] = []
  replace_rounds ts (c ∷ cs) = replace_tasks ts c ++ replace_rounds ts cs

  register_tasks :
      (c : Map Text) (ts : List Task) (s : State)
      → each (λ t. register_task (replace_task t c)) ts s
        ≡ some (true, more_registered (replace_tasks ts c) s)
  unfolding each register_task
  register_tasks c [] s =
      ap (λ r. some (true, record s { registered = r })) (sym (append-nil s.registered))
  register_tasks c (t ∷ ts) s =
      register_tasks c ts (more_registered (replace_task t c ∷ []) s)
      ∙ ap (λ r. some (true, record s { registered = r }))
          (append_assoc s.registered (replace_task t c ∷ []) (replace_tasks ts c))

  register_rounds :
      (ts : List Task) (cs : List (Map Text)) (s : State)
      → each (λ c. each (λ t. register_task (replace_task t c)) ts) cs s
        ≡ some (true, more_registered (replace_rounds ts cs) s)
  register_rounds ts [] s =
      each_nil (λ c. each (λ t. register_task (replace_task t c)) ts) s
      ∙ ap (λ r. some (true, record s { registered = r })) (sym (append-nil s.registered))
  register_rounds ts (c ∷ cs) s =
      each_cons (λ c. each (λ t. register_task (replace_task t c)) ts) c cs s
      ∙ ap (next_round (each (λ c. each (λ t. register_task (replace_task t c)) ts) cs))
          (register_tasks c ts s)
      ∙ register_rounds ts cs (more_registered (replace_tasks ts c) s)
      ∙ ap (λ r. some (true, record s { registered = r }))
          (append_assoc s.registered (replace_tasks ts c) (replace_rounds ts cs))

  -- A command line with at least one argument, whose lines can be read and whose patterns give some
  -- rounds: for each round, in order, each line is registered once with the round's replacements, and
  -- nothing else of the state changes. Without arguments nothing is registered and the result is false.
  pub command_line_apply-registered :
      (t : Task) (variables : SettingsNode) (ps : Patterns) (arguments : List Text)
      (tasks : List Task) (rounds : List (Map Text)) (s : State)
      → get_values (command_line_key ∷ []) variables ≡ some arguments
      → command_line_tasks variables
          (use_working_directory variables (add_environment variables t))
          arguments
        ≡ some tasks
      → pattern_combinations ps ≡ some rounds
      → command_line_apply t variables ps s ≡ (
          if is_empty arguments
          then some (false, s)
          else some (true, more_registered (replace_rounds tasks rounds) s))
  unfolding command_line_apply ◌>>=ₘ◌ demand pure
  command_line_apply-registered t variables ps [] tasks rounds s e f g = rw e
  command_line_apply-registered t variables ps (a ∷ arguments) tasks rounds s e f g =
      rw (e, f, g) (register_rounds tasks rounds s)
