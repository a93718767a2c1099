-- ===== src/Core/Task.antt =====
-- src/core/include/core/task.h and src/core/src/task.cpp: a task is the arguments of a command, its
-- environment and its working directory.
pub mod Environment
pub mod Equality
pub mod Printing
use exec_helper.Prelude.{
  Text, codes, text_eq, ◌+◌, List, [], ◌∷◌, ◌++◌, Bool, true, false, ◌&&◌, if◌then◌else◌, is_empty,
}
use exec_helper.Platform.{Platform}
use exec_helper.OrderedMap.{Map, contains, emplace, erase}

abbrev pub EnvironmentCollection : Type 0
EnvironmentCollection = Map Text

pub record Task : Type 0 where
  pub task : List Text
  pub env : EnvironmentCollection
  pub working_directory : Text

abbrev pub pwd_key : Text
pwd_key = codes "PWD"

-- `appendToEnvironment(EnvironmentValue&&)`.
unfoldable pub append_to_environment : Text → Text → Task → Task
append_to_environment k v t =
    let env' = if contains k t.env then erase k t.env else t.env in
    record t { env = emplace k v env' }

-- `appendToEnvironment(EnvironmentCollection&&)`.
unfoldable pub append_all_to_environment : EnvironmentCollection → Task → Task
append_all_to_environment [] t = t
append_all_to_environment ((k, v) ∷ values) t =
    append_all_to_environment values (append_to_environment k v t)

unfoldable pub append : Text → Task → Task
append part t = record t { task = t.task ++ part ∷ [] }

unfoldable pub append_all : List Text → Task → Task
append_all parts t = record t { task = t.task ++ parts }

module _ ⦃sys : Platform⦄ where
  unfoldable pub set_working_directory : Text → Task → Task
  unfolding append_to_environment
  set_working_directory dir t =
      append_to_environment pwd_key (sys.absolute dir) (record t { working_directory = dir })

  unfoldable pub set_environment : EnvironmentCollection → Task → Task
  unfolding set_working_directory
  set_environment env t = set_working_directory t.working_directory (record t { env = env })

  unfoldable pub make_task : List Text → EnvironmentCollection → Text → Task
  unfolding set_working_directory
  make_task subtasks environment dir =
      set_working_directory dir
        (record { task = subtasks; env = environment; working_directory = dir })

  -- The constructors that are given no environment and no directory.
  unfoldable pub new_task : List Text → Task
  unfolding make_task
  new_task subtasks = make_task subtasks [] sys.current_path

-- `implodeVector`: the loop of `std::accumulate`.
unfoldable pub implode_from : Text → List Text → Text → Text
implode_from result [] delimiter = result
implode_from result (b ∷ rest) delimiter =
    implode_from (if is_empty result then b else result ++ delimiter ++ b) rest delimiter

unfoldable pub to_string : Task → Text
unfolding implode_from
to_string t = implode_from [] t.task (codes " ")

unfoldable pub texts_eq : List Text → List Text → Bool
texts_eq [] [] = true
texts_eq (a ∷ xs) (b ∷ ys) = text_eq a b && texts_eq xs ys
texts_eq _ _ = false

unfoldable pub environment_eq : EnvironmentCollection → EnvironmentCollection → Bool
environment_eq [] [] = true
environment_eq ((j, v) ∷ xs) ((k, w) ∷ ys) = text_eq j k && text_eq v w && environment_eq xs ys
environment_eq _ _ = false

-- `operator==`.
unfoldable pub task_eq : Task → Task → Bool
unfolding texts_eq environment_eq
task_eq a b =
    texts_eq a.task b.task
    && text_eq a.working_directory b.working_directory
    && environment_eq a.env b.env
