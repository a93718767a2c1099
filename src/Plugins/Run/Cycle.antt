-- ===== src/Plugins/Run/Cycle.antt =====
-- A command of the settings that stands for itself, in src/plugins/src/executePlugin.cpp.
use exec_helper.Platform.{Platform}
use exec_helper.Core.Task.{Task}
use exec_helper.Config.SettingsNode.{SettingsNode}
use exec_helper.Config.Patterns.{Patterns}
use exec_helper.Plugins.State.{Plugins, State}
use exec_helper.Plugins.Internal.Keys.{Run}
