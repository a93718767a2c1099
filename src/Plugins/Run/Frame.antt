-- ===== src/Plugins/Run/Frame.antt =====
-- What no plugin changes: the stacks and the return code; and the tasks that are registered and the
-- executions that are remembered are only added to.
use exec_helper.Prelude.{
  Text, text_eq, ℕ, zero, suc, List, [], ◌∷◌, some, Bool, true, false, not, value_or, any, is_empty,
  ◌≡◌, subst,
}
use exec_helper.Platform.{Platform}
use exec_helper.OrderedMap.{Map}
use exec_helper.Core.Task.{Task}
use exec_helper.Config.SettingsNode.{SettingsNode, get_values}
use exec_helper.Config.Patterns.{Patterns}
use exec_helper.Plugins.PluginUtils.{replace_task}
use exec_helper.Plugins.State.{
  Script, finish, fail, run_target, Plugin, commands, command_line_command, memory, valgrind, pmd,
  lcov, execute, lua, State, M, pure,
}
use exec_helper.Plugins.Internal.{
  commands_apply, register_replaced, command_line_apply, memory_apply, valgrind_apply, pmd_apply,
  run_commands, run_script, lua_apply,
}
use exec_helper.Plugins.Internal.Keys.{Run, run_command_key}
use exec_helper.Plugins.Internal.Lcov.{LcovSettings, lcov_apply, lcov_round, when, ◌thenₘ◌}
use exec_helper.Plugins.ExecutePlugin.{
  plugin_names, next_step, execute_one, execute_apply, zip_commands,
}
use exec_helper.Plugins.Run.{dispatch, apply}
use exec_helper.Plugins.Run.Keeping.{
  Frame, After, Keeps, Keeps-bind, Keeps-pure, Keeps-demand, Keeps-read_top, Keeps-if, Keeps-each,
  Keeps-elim, Keeps-register, Keeps-remember,
}

module _ ⦃sys : Platform⦄ where
  register_replaced-Keeps :
      (t : Task) (rounds : List (Map Text)) → Keeps (register_replaced t rounds)
  unfolding register_replaced
  register_replaced-Keeps t rounds = Keeps-each _ rounds (λ c. Keeps-register (replace_task t c))

  command_line_apply-Keeps :
      (t : Task) (variables : SettingsNode) (ps : Patterns)
      → Keeps (command_line_apply t variables ps)
  unfolding command_line_apply
  command_line_apply-Keeps t variables ps = Keeps-bind _ _ (Keeps-demand _) (λ arguments.
      Keeps-if (is_empty arguments) _ _ (Keeps-pure false) (
        Keeps-bind _ _ (Keeps-demand _) (λ tasks. Keeps-bind _ _ (Keeps-demand _) (λ rounds.
          Keeps-each _ rounds
            (λ c. Keeps-each _ tasks (λ t'. Keeps-register (replace_task t' c)))))))

  memory_apply-Keeps :
      (t : Task) (variables : SettingsNode) (ps : Patterns) → Keeps (memory_apply t variables ps)
  unfolding memory_apply
  memory_apply-Keeps t variables ps = Keeps-remember _

  pmd_apply-Keeps :
      (t : Task) (variables : SettingsNode) (ps : Patterns) → Keeps (pmd_apply t variables ps)
  unfolding pmd_apply
  pmd_apply-Keeps t variables ps = Keeps-bind _ _ (Keeps-demand _) (λ binary.
      Keeps-bind _ _ (Keeps-demand _) (λ tool. Keeps-bind _ _ (Keeps-demand _) (λ verbosity.
        Keeps-bind _ _ (Keeps-demand _)
          (λ arguments. Keeps-bind _ _ (Keeps-demand _) (register_replaced-Keeps _)))))

-- The plugins that are given `run` keep the frame if `run` does.
module _ ⦃sys : Platform⦄ (run : Run)
    (run-Keeps : (p : Plugin) (t : Task) (variables : SettingsNode) (ps : Patterns)
      → Keeps (run p t variables ps)) where
  commands_apply-Keeps :
      (t : Task) (variables : SettingsNode) (ps : Patterns)
      → Keeps (commands_apply run t variables ps)
  unfolding commands_apply
  commands_apply-Keeps t variables ps =
      Keeps-bind _ _ (Keeps-demand _) (λ cs. run-Keeps (execute cs cs) t variables ps)

  valgrind_apply-Keeps :
      (t : Task) (variables : SettingsNode) (ps : Patterns)
      → Keeps (valgrind_apply run t variables ps)
  unfolding valgrind_apply
  valgrind_apply-Keeps t variables ps =
      Keeps-elim (get_values (run_command_key ∷ []) variables) _ _ (Keeps-pure false) (λ cs.
        Keeps-bind _ _ (Keeps-demand _) (λ verbose. Keeps-bind _ _ (Keeps-demand _) (λ arguments.
          Keeps-bind _ _ (Keeps-demand _)
            (λ rounds. Keeps-each _ rounds (λ c. run-Keeps (execute cs cs) _ variables ps)))))

  thenₘ-Keeps : (m n : M Bool) → Keeps m → Keeps n → Keeps (m thenₘ n)
  thenₘ-Keeps m n h k = Keeps-bind m _ h (λ done. Keeps-if done n (pure false) k (Keeps-pure false))

  when-Keeps : (b : Bool) (m : M Bool) → Keeps m → Keeps (when b m)
  when-Keeps b m h = Keeps-if b m (pure true) h (Keeps-pure true)

  lcov_round-Keeps :
      (m : M Bool) (l : LcovSettings) (html t : Task) (c : Map Text)
      → Keeps m
      → Keeps (lcov_round m l html t c)
  unfolding lcov_round
  lcov_round-Keeps m l html t c h =
      thenₘ-Keeps _ _
        (thenₘ-Keeps _ _
          (thenₘ-Keeps _ _ (thenₘ-Keeps _ _ (when-Keeps l.zero_counters _ (Keeps-register _)) h)
            (Keeps-register _))
          (when-Keeps (not (is_empty l.excludes)) _ (Keeps-register _)))
        (when-Keeps l.gen_html _ (Keeps-register _))

  lcov_apply-Keeps :
      (t : Task) (variables : SettingsNode) (ps : Patterns) → Keeps (lcov_apply run t variables ps)
  unfolding lcov_apply
  lcov_apply-Keeps t variables ps =
      let cs = value_or (get_values (run_command_key ∷ []) variables) [] in
      Keeps-if (is_empty cs) _ _ (Keeps-pure false) (
        Keeps-bind _ _ (Keeps-demand _) (λ l. Keeps-bind _ _ (Keeps-demand _) (λ html.
          Keeps-bind _ _ (Keeps-demand _) (λ rounds.
            Keeps-each _ rounds
              (λ c. lcov_round-Keeps _ l html t c (run-Keeps (execute cs cs) t variables ps))))))

  run_commands-Keeps :
      (ps : Patterns) (t : Task) (cs : List Text) → Keeps (run_commands run ps t cs)
  unfolding run_commands
  run_commands-Keeps ps t cs =
      Keeps-bind _ _ (Keeps-demand _) (λ rounds. Keeps-each _ rounds (λ c. run-Keeps _ _ _ _))

  run_script-Keeps : (ps : Patterns) (script : Script) → Keeps (run_script run ps script)
  unfolding run_script
  run_script-Keeps ps (finish tasks) =
      Keeps-each _ tasks (λ t. Keeps-bind _ _ (Keeps-demand _) (register_replaced-Keeps t))
  run_script-Keeps ps fail = Keeps-pure false
  run_script-Keeps ps (run_target t cs next) =
      Keeps-bind _ _ (run_commands-Keeps ps t cs) (λ done. run_script-Keeps ps (next done))

  next_step-Keeps : (command : Text) → Keeps (next_step command)
  unfolding next_step
  next_step-Keeps command = Keeps-bind _ _ (Keeps-read_top State.plugins) (λ plugins.
      Keeps-if (any (text_eq command) (plugin_names plugins)) _ _ (Keeps-pure _)
        (Keeps-bind _ _ (Keeps-read_top State.settings) (λ settings. Keeps-pure _)))

  execute_one-Keeps : (t : Task) (e : Text × Text) → Keeps (execute_one run t e)
  unfolding execute_one
  execute_one-Keeps t (command, initial) = Keeps-bind _ _ (next_step-Keeps command) (λ found.
      Keeps-elim found _ _ (Keeps-pure false) (λ plugin.
        Keeps-bind _ _ (Keeps-read_top State.fleeting) (λ o.
          Keeps-bind _ _ (Keeps-read_top State.settings) (λ settings.
            Keeps-bind _ _ (Keeps-demand _) (λ variables.
              Keeps-bind _ _ (Keeps-read_top State.patterns) (λ handler.
                Keeps-bind _ _ (Keeps-demand _) (λ ps. run-Keeps plugin t variables ps)))))))

  execute_apply-Keeps : (cs initial : List Text) (t : Task) → Keeps (execute_apply run cs initial t)
  unfolding execute_apply
  execute_apply-Keeps cs initial t = Keeps-each _ (zip_commands cs initial) (execute_one-Keeps t)

  lua_apply-Keeps :
      (script : Task → SettingsNode → Patterns → Script) (t : Task) (variables : SettingsNode)
      (ps : Patterns)
      → Keeps (lua_apply run script t variables ps)
  unfolding lua_apply
  lua_apply-Keeps script t variables ps = run_script-Keeps ps _

  dispatch-Keeps :
      (p : Plugin) (t : Task) (variables : SettingsNode) (ps : Patterns)
      → Keeps (dispatch run p t variables ps)
  unfolding dispatch
  dispatch-Keeps commands t variables ps = commands_apply-Keeps t variables ps
  dispatch-Keeps command_line_command t variables ps = command_line_apply-Keeps t variables ps
  dispatch-Keeps memory t variables ps = memory_apply-Keeps t variables ps
  dispatch-Keeps valgrind t variables ps = valgrind_apply-Keeps t variables ps
  dispatch-Keeps pmd t variables ps = pmd_apply-Keeps t variables ps
  dispatch-Keeps lcov t variables ps = lcov_apply-Keeps t variables ps
  dispatch-Keeps (execute cs initial) t variables ps = execute_apply-Keeps cs initial t
  dispatch-Keeps (lua path script) t variables ps = lua_apply-Keeps script t variables ps

module _ ⦃sys : Platform⦄ where
  apply-Keeps :
      (fuel : ℕ) (p : Plugin) (t : Task) (variables : SettingsNode) (ps : Patterns)
      → Keeps (apply fuel p t variables ps)
  unfolding apply
  apply-Keeps zero p t variables ps = record { frame = λ s. tt }
  apply-Keeps (suc fuel) p t variables ps =
      dispatch-Keeps (apply fuel) (apply-Keeps fuel) p t variables ps

  -- Whatever plugin runs, at whatever depth of nested calls: if it returns, the four stacks and the
  -- return code of the memories are as they were, and the registered tasks and the remembered
  -- executions are those of before, followed by new ones.
  pub apply-Frame :
      (fuel : ℕ) (p : Plugin) (t : Task) (variables : SettingsNode) (ps : Patterns) (s s' : State)
      (b : Bool)
      → apply fuel p t variables ps s ≡ some (b, s')
      → Frame s s'
  apply-Frame fuel p t variables ps s s' b h =
      subst (After s) h ((apply-Keeps fuel p t variables ps).frame s)
