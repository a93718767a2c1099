-- ===== src/Plugins/Run.antt =====
-- The calls between plugins, tied together: `apply` of any plugin, with fuel for the depth of the
-- nested calls.
pub mod Keeping
pub mod Frame
pub mod Cycle
pub mod Registration
pub mod Steps
pub mod Tops
pub mod Depth
use exec_helper.Prelude.{ℕ, zero, suc, none, Bool}
use exec_helper.Platform.{Platform}
use exec_helper.OrderedMap
use exec_helper.Core.Task.{Task}
use exec_helper.Config.SettingsNode.{SettingsNode}
use exec_helper.Config.Patterns.{Patterns}
use exec_helper.Plugins.State.{
  Plugin, commands, command_line_command, memory, valgrind, pmd, lcov, execute, lua, M,
}
use exec_helper.Plugins.Internal.{
  commands_apply, command_line_apply, memory_apply, valgrind_apply, pmd_apply, lua_apply,
}
use exec_helper.Plugins.Internal.Keys.{Run}
use exec_helper.Plugins.Internal.Lcov.{lcov_apply}
use exec_helper.Plugins.ExecutePlugin.{execute_apply}

module _ ⦃sys : Platform⦄ where
  -- The virtual call of `Plugin::apply`.
  unfoldable pub dispatch : Run → Plugin → Task → SettingsNode → Patterns → M Bool
  dispatch run commands t variables ps = commands_apply run t variables ps
  dispatch run command_line_command t variables ps = command_line_apply t variables ps
  dispatch run memory t variables ps = memory_apply t variables ps
  dispatch run valgrind t variables ps = valgrind_apply run t variables ps
  dispatch run pmd t variables ps = pmd_apply t variables ps
  dispatch run lcov t variables ps = lcov_apply run t variables ps
  dispatch run (execute cs initial) t variables ps = execute_apply run cs initial t
  dispatch run (lua path script) t variables ps = lua_apply run script t variables ps

  unfoldable pub apply : ℕ → Plugin → Task → SettingsNode → Patterns → M Bool
  unfolding dispatch
  apply zero plugin t variables ps s = none
  apply (suc fuel) plugin t variables ps s = dispatch (apply fuel) plugin t variables ps s
