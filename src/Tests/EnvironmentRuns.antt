-- ===== src/Tests/EnvironmentRuns.antt =====
-- The environment of a process at concrete inputs.
use exec_helper.Prelude.{Text, codes, text_lt, none, true, List, [], ◌∷◌, some, ◌≡◌, refl}
use exec_helper.Core.Task.{EnvironmentCollection}
use exec_helper.Environment.{make_envp, to_env_collection}
use exec_helper.Config.Argv.{Pointers, texts}
use exec_helper.Config.Argv.Ownership.{Heap}
use exec_helper.Environment.Objects.{
  envp_from_collection, copy_envp, assign_envp, move_envp, swap_envp, envp_size,
}
use exec_helper.Environment.Objects.Copies.{copy_envp-to_env_collection}

abbrev two_variables : EnvironmentCollection
two_variables = (codes "A", codes "x=y") ∷ (codes "B", []) ∷ []

copy_envp-to_env_collection_example :
    (r : Pointers × Heap) × (copy_envp
        (envp_from_collection two_variables 4).0
        (record { next = 6; live = 5 ∷ 4 ∷ [] })
      ≡ some r)
    × (ts : List Text) × (texts r.0 ≡ some ts)
    × (to_env_collection ts ≡ some two_variables)
    × (envp_size r.0 ≡ some 2)
copy_envp-to_env_collection_example =
    copy_envp-to_env_collection two_variables 4 (record { next = 6; live = 5 ∷ 4 ∷ [] })
      ((unfold text_lt in refl, tt), (tt, tt))
      (((refl, tt), (refl, tt), (refl, (refl, (refl, tt)))), (((refl, tt), (refl, tt), tt), tt))

moved_run :
    (envp_size (move_envp (envp_from_collection two_variables 4).0).1 ≡ none)
    × (assign_envp true [] [] (record { next = 6; live = [] })
        ≡ some ([], record { next = 6; live = [] }))
unfolding move_envp swap_envp envp_size assign_envp
moved_run = (refl, refl)

make_envp_run : make_envp two_variables ≡ codes "A=x=y" ∷ codes "B=" ∷ []
unfolding make_envp
make_envp_run = refl
