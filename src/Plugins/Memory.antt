-- ===== src/Plugins/Memory.antt =====
-- src/plugins/src/memory.cpp: what a handler does to the memories, and the memory that keeps its own.
use exec_helper.Prelude.{List, [], ◌∷◌, ◌++◌, Bool, true}
use exec_helper.Core.Task.{Task}
use exec_helper.Config.SettingsNode.{SettingsNode}
use exec_helper.Config.Patterns.{Patterns}
use exec_helper.Plugins.State.{Execution, State}

-- `Memory::reset` and `Memory::setReturnCode`; the handler passes both on.
unfoldable pub reset : State → State
reset s = record s { executions = []; return_code = true }

unfoldable pub set_return_code : Bool → State → State
set_return_code b s = record s { return_code = b }

-- The constructor and the destructor of `MemoryHandler`.
unfoldable pub new_handler : State → State
unfolding reset
new_handler s = reset s

unfoldable pub delete_handler : State → State
unfolding reset
delete_handler s = reset s

-- `SpecialMemory`.
pub record SpecialMemory : Type 0 where
  pub return_code : Bool
  pub executions : List Execution

unfoldable pub new_special_memory : Bool → SpecialMemory
new_special_memory return_code = record { return_code = return_code; executions = [] }

unfoldable pub special_memory_apply :
    Task → SettingsNode → Patterns → SpecialMemory → Bool × SpecialMemory
special_memory_apply t variables ps m = (
  m.return_code,
  record m {
    executions = m.executions ++ record { task = t; variables = variables; patterns = ps } ∷ [];
  },
)
