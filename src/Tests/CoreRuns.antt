-- ===== src/Tests/CoreRuns.antt =====
-- Tasks and permutations at concrete inputs.
use exec_helper.Prelude.{Text, codes, text_eq, text_lt, List, [], ◌∷◌, some, ◌≡◌, refl, arith}
use exec_helper.Platform.{starts_with}
use exec_helper.OrderedMap.{Map, emplace, find, IsSorted}
use exec_helper.Core.MapPermutator.{permutations}
use exec_helper.Core.MapPermutator.Combinations.{combinations}
use exec_helper.Core.MapPermutator.Visit.{permutations-combinations}
use exec_helper.Core.Task.{
  EnvironmentCollection, Task, pwd_key, append_to_environment, append, append_all, set_environment,
  make_task, to_string,
}
use exec_helper.Core.Task.Environment.{IsConsistent, operations-IsConsistent}
use exec_helper.Tests.Sample.{sample_platform}

abbrev two_keys : Map (List Text)
two_keys = (codes "A", codes "1" ∷ codes "2" ∷ []) ∷ (codes "B", codes "x" ∷ codes "y" ∷ []) ∷ []

two_keys-IsSorted : IsSorted two_keys
unfolding text_lt
two_keys-IsSorted = ((refl, tt), (tt, tt))

permutations-combinations_example : permutations 5 two_keys ≡ some (combinations two_keys)
permutations-combinations_example =
    permutations-combinations two_keys 5 (cc) two_keys-IsSorted
      ((refl, omega arith), ((refl, omega arith), tt)) (unfold combinations in omega arith)

permutations_run :
    permutations 5 two_keys
    ≡ some (
        ((codes "A", codes "1") ∷ (codes "B", codes "x") ∷ [])
        ∷ ((codes "A", codes "1") ∷ (codes "B", codes "y") ∷ [])
        ∷ ((codes "A", codes "2") ∷ (codes "B", codes "x") ∷ [])
        ∷ ((codes "A", codes "2") ∷ (codes "B", codes "y") ∷ [])
        ∷ [])
unfolding permutations text_eq text_lt find emplace
permutations_run = refl

abbrev lacking : Map (List Text)
lacking = (codes "A", codes "1" ∷ []) ∷ (codes "B", []) ∷ []

abbrev sample_env : EnvironmentCollection
sample_env = (codes "CC", codes "gcc") ∷ (codes "PATH", codes "/bin") ∷ []

sample_env-IsSorted : IsSorted sample_env
unfolding text_lt
sample_env-IsSorted = ((refl, tt), (tt, tt))

abbrev sample_task : Task
sample_task = make_task (codes "make" ∷ codes "all" ∷ []) sample_env (codes "build")

sample_task-IsConsistent : IsConsistent sample_task
sample_task-IsConsistent =
    (operations-IsConsistent (codes "make" ∷ codes "all" ∷ []) [] sample_env (codes "build") []
      (codes "CC") []
      (record {
        task = [];
        env = (pwd_key, codes "/work/build") ∷ [];
        working_directory = codes "build";
      })
      sample_env-IsSorted
      (record { ordered = (tt, tt); pwd = unfold find text_eq starts_with in refl })
      (unfold text_eq in refl)).0

operations-IsConsistent_example :
    IsConsistent (make_task [] sample_env (codes "src"))
    × IsConsistent (set_environment sample_env sample_task)
    × IsConsistent (append (codes "-j") sample_task)
    × IsConsistent (append_all (codes "a" ∷ []) sample_task)
    × IsConsistent (append_to_environment (codes "CC") (codes "clang") sample_task)
operations-IsConsistent_example =
    operations-IsConsistent [] (codes "a" ∷ []) sample_env (codes "src") (codes "-j") (codes "CC")
      (codes "clang") sample_task sample_env-IsSorted sample_task-IsConsistent
      (unfold text_eq in refl)

to_string_run : to_string sample_task ≡ codes "make all"
unfolding to_string make_task
to_string_run = refl
