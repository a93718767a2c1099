-- ===== src/Tests/ShellRuns.antt =====
-- The shell and the executors at concrete inputs.
use exec_helper.Prelude.{Text, codes, text_eq, text_lt, List, [], ◌∷◌, ◌≡◌, refl}
use exec_helper.OrderedMap.{find, assign, IsSorted}
use exec_helper.Platform.{starts_with}
use exec_helper.Core.Task.{Task, pwd_key}
use exec_helper.Core.Shell.{
  Process, Shell, returned, no_words, overlay, expand_items, word_expand, words_of, find_binary,
  get_path, after_start, execute_words, shell_execute,
}
use exec_helper.Core.Shell.Execution.{Outcome, shell_execute-Outcome, shell_execute_no_words}
use exec_helper.Tests.Sample.{sample_platform}
use exec_helper.Tests.SampleSystem.{sample_processes}

abbrev empty_shell : Shell
empty_shell = record { environ = codes "X=1" ∷ []; processes = [] }

abbrev task_of : List Text → Task
task_of ts = record {
  task = ts;
  env = (pwd_key, codes "/work") ∷ [];
  working_directory = codes "/work";
}

task_of-IsSorted : IsSorted ((pwd_key, codes "/work") ∷ [])
task_of-IsSorted = (tt, tt)

abbrev true_task : Task
true_task = task_of (codes "true" ∷ [])

shell_execute-Outcome_example : Outcome true_task empty_shell (shell_execute true_task empty_shell)
shell_execute-Outcome_example = shell_execute-Outcome true_task empty_shell task_of-IsSorted

abbrev started : Text → List Text → Process
started binary arguments = record {
  binary = binary;
  arguments = arguments;
  directory = codes "/work";
  environment = (codes "PATH", codes "/bin") ∷ (pwd_key, codes "/work") ∷ [];
}

shell_execute_run :
    shell_execute (task_of (codes "false" ∷ codes "(" ∷ codes "$NOTHING" ∷ [])) empty_shell ≡ (
      returned 3,
      record empty_shell { processes = started (codes "/bin/false") (codes "(" ∷ []) ∷ [] },
    )
unfolding shell_execute execute_words word_expand expand_items words_of find_binary get_path find
    assign after_start text_eq text_lt starts_with overlay
shell_execute_run = refl

shell_execute_no_words_example :
    (shell_execute (task_of (codes "$NOTHING" ∷ [])) empty_shell).0 ≡ no_words
shell_execute_no_words_example =
    shell_execute_no_words (task_of (codes "$NOTHING" ∷ [])) empty_shell refl
      (unfold text_eq in refl, tt)
