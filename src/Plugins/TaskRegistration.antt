-- ===== src/Plugins/TaskRegistration.antt =====
-- src/plugins/src/plugin.cpp: the callback that is registered for tasks, and the call of it, as the main
-- function of src/applications/exec-helper.cpp registers it.
use exec_helper.Prelude.{Bool, true}
use exec_helper.Core.Task.{Task}
use exec_helper.Core.Shell.{Processes}
use exec_helper.Platform.{Platform}
use exec_helper.Core.Executor.{Session, Reaction, going, Executor, execute_task}

-- A callback changes the session that it refers to; the program can end in it.
abbrev pub ExecuteCallback : Type 0
ExecuteCallback = Task → Session → Reaction × Session

-- `noExecuteCallback`, which is registered first, only writes to the log.
unfoldable pub no_execute_callback : ExecuteCallback
no_execute_callback t s = (going, s)

-- `registerExecuteCallback` replaces the callback that was registered.
unfoldable pub register_execute_callback : ExecuteCallback → ExecuteCallback → ExecuteCallback
register_execute_callback callback registered = callback

-- `registerTask` returns true if the callback returns.
unfoldable pub call_registered : ExecuteCallback → Task → Session → (Reaction × Session) × Bool
call_registered registered t s = (registered t s, true)

module _ ⦃sys : Platform⦄ ⦃os : Processes⦄ where
  -- The lambda of the main function: the executor executes the task.
  unfoldable pub execute_callback : Executor → ExecuteCallback
  execute_callback executor t s = execute_task executor t s
