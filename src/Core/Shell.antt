-- ===== src/Core/Shell.antt =====
-- src/core/src/posixShell.cpp, as it is compiled outside Windows: the words of a task are expanded, the
-- binary is looked up, and a process is started. What wordexp and Boost.Process do is a parameter.
pub mod Execution
use exec_helper.Prelude.{
  Text, codes, ℕ, ◌+◌, ◌%◌, ◌^◌, List, [], ◌∷◌, ◌++◌, Option, none, some, Bool, ◌==◌, if◌then◌else◌,
  is_empty,
}
use exec_helper.Platform.{Platform}
use exec_helper.OrderedMap.{find, assign}
use exec_helper.Core.Task.{EnvironmentCollection, Task}
use exec_helper.Environment.{make_envp}

-- A process that is started: `system(binary, args, start_dir, env)`.
pub record Process : Type 0 where
  pub binary : Text
  pub arguments : List Text
  pub directory : Text
  pub environment : EnvironmentCollection

-- The global variable `environ`, and the processes that have been started.
pub record Shell : Type 0 where
  pub environ : List Text
  pub processes : List Process

-- What `wordexp` makes of a text: its words, or a return code that is not 0.
pub data Expansion : Type 0 where
  words : List Text → Expansion
  error : ℕ → Expansion

-- What becomes of a process: Boost throws a process error, the process ends with an exit code, or it
-- never ends.
pub data ProcessEnd : Type 0 where
  not_started running : ProcessEnd
  ended : ℕ → ProcessEnd

-- The operations of wordexp, Boost.Process and the file system. Their answers may depend on all that
-- has happened before.
pub record Processes : Type 0 where
  pub wordexp : Shell → Text → Expansion
  -- `boost::this_process::environment`, `boost::this_process::path`, and the list that a value of
  -- `PATH` stands for.
  pub environment : EnvironmentCollection
  pub path : List Text
  pub to_vector : Text → List Text
  -- `boost::process::search_path`.
  pub search_path : Text → List Text → Text
  pub is_relative : Text → Bool
  pub exists : Shell → Text → Bool
  pub start : Shell → Process → ProcessEnd

-- How `PosixShell::execute` ends: with a return code, with the exception PathNotFoundError, with a
-- process error, or with a read of the first element of an empty collection. Or it does not end: it
-- waits for a process that does not.
pub data ShellResult : Type 0 where
  returned : ℕ → ShellResult
  path_not_found : Text → ShellResult
  process_error : ShellResult
  no_words : ShellResult
  blocked : ShellResult

abbrev pub path_key : Text
path_key = codes "PATH"

abbrev pub posix_success : ℕ
posix_success = 0

-- `isExecutedSuccessfully`.
unfoldable pub is_executed_successfully : ℕ → Bool
is_executed_successfully return_code = return_code == posix_success

-- The loop over the pairs of the task's environment.
unfoldable pub overlay : EnvironmentCollection → EnvironmentCollection → EnvironmentCollection
overlay [] env = env
overlay ((k, v) ∷ pairs) env = overlay pairs (assign k v env)

-- `boost::process::system`: an exception says that the process has not started, or it has started and
-- its end is waited for. A return code has 8 bits.
unfoldable pub after_start : Process → Shell → ProcessEnd → ShellResult × Shell
after_start process s not_started = (process_error, s)
after_start process s running = (blocked, record s { processes = s.processes ++ process ∷ [] })
after_start process s (ended code) =
    (returned (code % 2 ^ 8), record s { processes = s.processes ++ process ∷ [] })

-- The words of one item; an item that cannot be expanded stands for itself.
unfoldable pub words_of : Text → Expansion → List Text
words_of item (words ws) = ws
words_of item (error code) = item ∷ []

module _ ⦃os : Processes⦄ where
  unfoldable pub expand_items : List Text → Shell → List Text
  unfolding words_of
  expand_items [] s = []
  expand_items (item ∷ items) s = words_of item (os.wordexp s item) ++ expand_items items s

  -- `wordExpand`: the global environment is the task's while the words are expanded.
  unfoldable pub word_expand : Task → Shell → List Text × Shell
  unfolding expand_items
  word_expand t s =
      let cached_environ = s.environ in
      let during = record s { environ = make_envp t.env } in
      (expand_items t.task during, record during { environ = cached_environ })

  module _ ⦃sys : Platform⦄ where
    -- `getPath`.
    unfoldable pub get_path : EnvironmentCollection → Text → List Text
    get_path env working_dir =
        sys.absolute working_dir
        ∷ elim (find path_key env) as (λ _. List Text) [ none ↦ os.path | some v ↦ os.to_vector v ]

    unfoldable pub find_binary : Text → EnvironmentCollection → Text → Text
    unfolding get_path
    find_binary name env directory =
        if os.is_relative name
        then sys.absolute (os.search_path name (get_path env directory))
        else name

    -- The end of `execute`, from the first word on.
    unfoldable pub execute_words :
        List Text → EnvironmentCollection → Text → Shell → ShellResult × Shell
    unfolding find_binary after_start
    execute_words [] env directory s = (no_words, s)
    execute_words (name ∷ arguments) env directory s =
        let binary = find_binary name env directory in
        let process : Process = record {
          binary = binary;
          arguments = arguments;
          directory = directory;
          environment = env;
        } in
        if os.exists s binary
        then after_start process s (os.start s process)
        else (path_not_found name, s)

    -- `PosixShell::execute`.
    unfoldable pub shell_execute : Task → Shell → ShellResult × Shell
    unfolding execute_words word_expand overlay
    shell_execute t s =
        if is_empty t.task
        then (returned posix_success, s)
        else (let expanded = word_expand t s in
            execute_words expanded.0 (overlay t.env os.environment) t.working_directory expanded.1)
