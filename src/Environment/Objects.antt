-- ===== src/Environment/Objects.antt =====
-- The objects of src/config/src/envp.cpp: the strings of an environment in buffers of their own, with
-- the same copies and assignments as those of src/config/src/argv.cpp.
pub mod Copies
use exec_helper.Prelude.{
  Text, codes, ℕ, List, [], ◌∷◌, ◌++◌, Option, none, some, Bool, if◌then◌else◌, ◌>>=◌, length,
}
use exec_helper.Core.Task.{EnvironmentCollection}
use exec_helper.Config.Argv.{Pointers, argv_from_task, deep_copy}
use exec_helper.Config.Argv.Ownership.{Heap, allocated, clear_argv}

-- The constructor, with the buffers that it makes.
unfoldable pub variable_texts : EnvironmentCollection → List Text
variable_texts [] = []
variable_texts ((k, v) ∷ env) = (k ++ (codes "=" ++ v)) ∷ variable_texts env

unfoldable pub envp_from_collection : EnvironmentCollection → ℕ → Pointers × ℕ
unfolding variable_texts
envp_from_collection env next = argv_from_task (variable_texts env) next

-- `deepCopy`, which clears first.
unfoldable pub replace_envp : Pointers → Pointers → Heap → Option (Pointers × Heap)
replace_envp envp other heap = do
  live ← clear_argv envp heap.live
  copied ← deep_copy other heap.next
  some (allocated copied live)

-- The copy constructor: a new object has no pointers before.
unfoldable pub copy_envp : Pointers → Heap → Option (Pointers × Heap)
unfolding replace_envp
copy_envp other heap = replace_envp [] other heap

unfoldable pub assign_envp : Bool → Pointers → Pointers → Heap → Option (Pointers × Heap)
unfolding replace_envp
assign_envp same envp other heap = if same then some (envp, heap) else replace_envp envp other heap

unfoldable pub swap_envp : Pointers × Pointers → Pointers × Pointers
swap_envp (a, b) = (b, a)

unfoldable pub move_envp : Pointers → Pointers × Pointers
unfolding swap_envp
move_envp other = swap_envp ([], other)

-- `size`; `none` is the violated postcondition.
unfoldable pub envp_size : Pointers → Option ℕ
envp_size [] = none
envp_size (p ∷ ps) = some (length ps)
