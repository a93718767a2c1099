-- ===== src/Core/Executor/Policy.antt =====
-- What the executors of src/core/src/immediateExecutor.cpp and src/core/src/reportingExecutor.cpp, with
-- the callbacks of src/applications/exec-helper.cpp, make of the tasks that are registered.
use exec_helper.Prelude.{
  Text, codes, ℕ, List, [], ◌∷◌, ◌++◌, append-nil, true, false, ◌==◌, if◌then◌else◌, ◌≡◌, refl, sym,
  ◌∙◌, ap, All, Bool-cases, inl, inr,
}
use exec_helper.Platform.{Platform}
use exec_helper.Core.Task.{Task}
use exec_helper.Core.Shell.{
  Shell, Processes, ShellResult, returned, path_not_found, is_executed_successfully, shell_execute,
}
use exec_helper.Core.Executor.{
  Session, Reaction, going, terminates, exits, immediate, keep_going_callback, exit_callback, react,
  proceed, execute_task, execute_tasks,
}

-- The last return code that is not 0, or the one given.
abbrev pub last_failure : ℕ → List ℕ → ℕ
last_failure default [] = default
last_failure default (code ∷ codes) = last_failure (if code == 0 then default else code) codes

module _ ⦃sys : Platform⦄ ⦃os : Processes⦄ where
  -- The shell runs some tasks one after the other, and they return some codes.
  pub data Runs : List Task → Shell → List ℕ → Shell → Type 0 where
    done : {s : Shell} → Runs [] s [] s
    step :
        {t : Task} {ts : List Task} {s s1 s2 : Shell} {code : ℕ} {codes : List ℕ}
        → shell_execute t s ≡ (returned code, s1)
        → Runs ts s1 codes s2
        → Runs (t ∷ ts) s (code ∷ codes) s2

  execute_task-returned :
      (callback : ℕ → Session → Reaction × Session) (t : Task) (s : Session) (code : ℕ) (s1 : Shell)
      → shell_execute t s.shell ≡ (returned code, s1)
      → execute_task (immediate callback) t s ≡ (
          if code == 0
          then (going, record s { shell = s1 })
          else callback code (record s { shell = s1 }))
  unfolding execute_task is_executed_successfully
  execute_task-returned callback t s code s1 e =
      ap (λ r. react callback r.0 (record s { shell = r.1 })) e

  execute_tasks-append_keep_going :
      {ts : List Task} {codes : List ℕ} {sh sh' : Shell} (d : ℕ) (rest : List Task)
      → Runs ts sh codes sh'
      → execute_tasks
          (immediate keep_going_callback)
          (ts ++ rest)
          (record { shell = sh; last_return_code = d })
        ≡ execute_tasks
            (immediate keep_going_callback)
            rest
            (record { shell = sh'; last_return_code = last_failure d codes })
  unfolding execute_tasks keep_going_callback
  execute_tasks-append_keep_going d rest done = refl
  execute_tasks-append_keep_going {sh} d rest (step {t} {ts} {s1} {code} e r) =
      ap (proceed (execute_tasks (immediate keep_going_callback) (ts ++ rest))) (
        execute_task-returned keep_going_callback t (record { shell = sh; last_return_code = d })
          code s1 e)
      ∙ elim (Bool-cases (code == 0)) [
        | inl z ↦ rw z (execute_tasks-append_keep_going d rest r)
        | inr z ↦ rw z (execute_tasks-append_keep_going code rest r)
      ]

  -- Told to keep going, the program runs all tasks in order, and keeps the last code that is not 0.
  pub execute_tasks-keep_going :
      {ts : List Task} {codes : List ℕ} {sh sh' : Shell} (d : ℕ)
      → Runs ts sh codes sh'
      → execute_tasks
          (immediate keep_going_callback)
          ts
          (record { shell = sh; last_return_code = d })
        ≡ (going, record { shell = sh'; last_return_code = last_failure d codes })
  unfolding execute_tasks
  execute_tasks-keep_going {ts} {sh} d r =
      ap
        (λ x.
          execute_tasks (immediate keep_going_callback) x
            (record { shell = sh; last_return_code = d }))
        (sym (append-nil ts))
      ∙ execute_tasks-append_keep_going d [] r

  execute_tasks-first :
      (callback : ℕ → Session → Reaction × Session) (t : Task) (rest : List Task) (s : Session)
      (result : ShellResult) (sh : Shell)
      → shell_execute t s.shell ≡ (result, sh)
      → execute_tasks (immediate callback) (t ∷ rest) s
        ≡ proceed
            (execute_tasks (immediate callback) rest)
            (react callback result (record s { shell = sh }))
  unfolding execute_tasks execute_task
  execute_tasks-first callback t rest s result sh e =
      ap
        (λ r.
          proceed (execute_tasks (immediate callback) rest)
            (react callback r.0 (record s { shell = r.1 })))
        e

  -- A binary that is not found ends the program by `std::terminate`, also if it is told to keep going
  -- and whatever has returned before: the exception cannot leave the executor, and no later task runs.
  pub execute_tasks-terminates :
      {ts : List Task} {codes : List ℕ} {sh sh1 sh2 : Shell} (d : ℕ) (t : Task) (name : Text)
      (rest : List Task)
      → Runs ts sh codes sh1
      → shell_execute t sh1 ≡ (path_not_found name, sh2)
      → execute_tasks
          (immediate keep_going_callback)
          (ts ++ t ∷ rest)
          (record { shell = sh; last_return_code = d })
        ≡ (terminates, record { shell = sh2; last_return_code = last_failure d codes })
  unfolding react
  execute_tasks-terminates {codes} {sh1} {sh2} d t name rest r e =
      execute_tasks-append_keep_going d (t ∷ rest) r
      ∙ execute_tasks-first keep_going_callback t rest
          (record { shell = sh1; last_return_code = last_failure d codes }) (path_not_found name)
          sh2 e

  execute_tasks-append_exit :
      {ts : List Task} {codes : List ℕ} {sh sh' : Shell} (d : ℕ) (rest : List Task)
      → Runs ts sh codes sh'
      → All (λ code. code == 0 ≡ true) codes
      → execute_tasks
          (immediate exit_callback)
          (ts ++ rest)
          (record { shell = sh; last_return_code = d })
        ≡ execute_tasks
            (immediate exit_callback)
            rest
            (record { shell = sh'; last_return_code = d })
  unfolding execute_tasks
  execute_tasks-append_exit d rest done h = refl
  execute_tasks-append_exit {sh} d rest (step {t} {ts} {s1} {code} e r) (z, h) =
      ap (proceed (execute_tasks (immediate exit_callback) (ts ++ rest))) (
        execute_task-returned exit_callback t (record { shell = sh; last_return_code = d }) code s1
          e)
      ∙ rw z (execute_tasks-append_exit d rest r h)

  -- Not told so, the program exits at the first task that returns another code than 0, with that code;
  -- the tasks after it are not run.
  pub execute_tasks-exit :
      {ts : List Task} {codes : List ℕ} {sh sh1 sh2 : Shell} (d code : ℕ) (t : Task)
      (rest : List Task)
      → Runs ts sh codes sh1
      → All (λ code. code == 0 ≡ true) codes
      → shell_execute t sh1 ≡ (returned code, sh2)
      → code == 0 ≡ false
      → execute_tasks
          (immediate exit_callback)
          (ts ++ t ∷ rest)
          (record { shell = sh; last_return_code = d })
        ≡ (exits code, record { shell = sh2; last_return_code = d })
  unfolding react is_executed_successfully exit_callback
  execute_tasks-exit {sh1} {sh2} d code t rest r h e z =
      execute_tasks-append_exit d (t ∷ rest) r h
      ∙ execute_tasks-first exit_callback t rest (record { shell = sh1; last_return_code = d })
          (returned code) sh2 e
      ∙ rw z
