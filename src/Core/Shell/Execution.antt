-- ===== src/Core/Shell/Execution.antt =====
-- What a call of the shell of src/core/src/posixShell.cpp does to the program and to the system.
use exec_helper.Prelude.{
  Text, text_eq_iff, ◌%◌, ◌^◌, List, [], ◌∷◌, ◌++◌, Bool, true, false, if◌then◌else◌, is_empty, ◌≡◌,
  ◌⊎◌, refl, ◌∙◌, All, arith, inl, inr,
}
use exec_helper.Platform.{Platform}
use exec_helper.OrderedMap.{find, contains, IsSorted, assign}
use exec_helper.OrderedMap.Laws.{find-assign, find-Above}
use exec_helper.Core.Task.{EnvironmentCollection, Task}
use exec_helper.Environment.{make_envp}
use exec_helper.Core.Shell.{
  Process, ProcessEnd, not_started, running, ended, Shell, Processes, words, ShellResult, returned,
  blocked, path_not_found, no_words, overlay, expand_items, word_expand, find_binary, after_start,
  execute_words, shell_execute,
}

overlay-find :
    (k : Text) (pairs env : EnvironmentCollection)
    → IsSorted pairs
    → find k (overlay pairs env) ≡ (if contains k pairs then find k pairs else find k env)
unfolding overlay find contains
overlay-find k [] env s = refl
overlay-find k ((j, v) ∷ pairs) env (a, s) =
    overlay-find k pairs (assign j v env) s
    ∙ rw (find-assign k j v env) (ground (arith, text_eq_iff k j, find-Above j pairs a))

module _ ⦃sys : Platform⦄ ⦃os : Processes⦄ where
  -- What the shell returns for a process that it has started: its exit code modulo 256, if it ends.
  abbrev pub ResultOf : ShellResult → ProcessEnd → Type 0
  ResultOf result not_started = ⊥
  ResultOf result running = result ≡ blocked
  ResultOf result (ended code) = result ≡ returned (code % 256)

  -- The process that a call of the shell starts for a task, and what becomes of it.
  pub record Ran (t : Task) (s : Shell) (result : ShellResult) (s' : Shell) : Type 0 where
    pub process : Process
    pub process_end : ProcessEnd
    pub started : os.start s process ≡ process_end
    pub result_lem : ResultOf result process_end
    pub processes : s'.processes ≡ s.processes ++ process ∷ []
    pub found : os.exists s process.binary ≡ true
    pub directory : process.directory ≡ t.working_directory
    pub environment :
        (k : Text)
        → find k process.environment
          ≡ (if contains k t.env then find k t.env else find k os.environment)

  abbrev pub Outcome : Task → Shell → ShellResult × Shell → Type 0
  Outcome t s r = (r.1 ≡ s) ⊎ Ran t s r.0 r.1

  execute_words-Outcome :
      (ws : List Text) (t : Task) (s : Shell)
      → IsSorted t.env
      → Outcome t s (execute_words ws (overlay t.env os.environment) t.working_directory s)
  unfolding execute_words
  execute_words-Outcome [] t s h = inl refl
  execute_words-Outcome (name ∷ arguments) t s h = choose (os.exists s binary) refl
    where
      binary : Text
      binary = find_binary name (overlay t.env os.environment) t.working_directory

      process : Process
      process = record {
        binary = binary;
        arguments = arguments;
        directory = t.working_directory;
        environment = overlay t.env os.environment;
      }

      ran :
          (o : ProcessEnd) (result : ShellResult)
          → os.start s process ≡ o
          → os.exists s binary ≡ true
          → ResultOf result o
          → Ran t s result (record s { processes = s.processes ++ process ∷ [] })
      ran o result e x r = record {
        process = process;
        process_end = o;
        started = e;
        result_lem = r;
        processes = refl;
        found = x;
        directory = refl;
        environment = λ k. overlay-find k t.env os.environment h;
      }

      start :
          (o : ProcessEnd)
          → os.start s process ≡ o
          → os.exists s binary ≡ true
          → Outcome t s (after_start process s o)
      start not_started e x = inl refl
      start running e x = inr (ran running blocked e x refl)
      start (ended code) e x = inr (ran (ended code) (returned (code % 2 ^ 8)) e x refl)

      choose :
          (b : Bool)
          → os.exists s binary ≡ b
          → Outcome t s
              (if b then after_start process s (os.start s process) else (path_not_found name, s))
      choose true x = start (os.start s process) refl x
      choose false x = inl refl

  -- A call of the shell for a task with its variables in key order either leaves the shell as it
  -- was, the global environment included, or starts one process whose binary exists, in the
  -- directory of the task, with the variables of the task before those of the program; then that
  -- process is all that it adds. If the process ends, the result is its exit code modulo 256; if it
  -- does not, nor does the call.
  pub shell_execute-Outcome :
      (t : Task) (s : Shell) → IsSorted t.env → Outcome t s (shell_execute t s)
  unfolding shell_execute word_expand
  shell_execute-Outcome t s h = choose (is_empty t.task)
    where
      expanded : List Text
      expanded = (word_expand t s).0

      choose :
          (b : Bool)
          → Outcome t s (
              if b
              then (returned 0, s)
              else execute_words expanded (overlay t.env os.environment) t.working_directory s)
      choose true = inl refl
      choose false = execute_words-Outcome expanded t s h

  expand_items_none :
      (items : List Text) (s : Shell)
      → All (λ item. os.wordexp s item ≡ words []) items
      → expand_items items s ≡ []
  unfolding expand_items
  expand_items_none [] s h = refl
  expand_items_none (item ∷ items) s (e, h) = rw (e, expand_items_none items s h)

  -- A task with arguments, each of which expands to no words, makes the shell read the first word of an
  -- empty collection.
  pub shell_execute_no_words :
      (t : Task) (s : Shell)
      → is_empty t.task ≡ false
      → All (λ item. os.wordexp (record s { environ = make_envp t.env }) item ≡ words []) t.task
      → (shell_execute t s).0 ≡ no_words
  unfolding shell_execute word_expand
  shell_execute_no_words t s e h =
      rw (e, expand_items_none t.task (record s { environ = make_envp t.env }) h) refl
