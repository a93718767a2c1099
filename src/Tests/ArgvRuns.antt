-- ===== src/Tests/ArgvRuns.antt =====
-- Argument vectors at concrete inputs.
use exec_helper.Prelude.{
  Text, codes, ℕ, ◌-◌, List, [], ◌∷◌, ◌++◌, none, some, true, false, if◌then◌else◌, length,
  is_empty, ◌≡◌, refl, All, arith,
}
use exec_helper.Prelude.{leb, ◌^◌}
use exec_helper.Config.Argv.{
  Pointers, argv_from_main, argv_from_task, assign_argv, move, deep_copy, copy_argument, get_argc,
  at_index, argv_eq, read, texts, strncpy, strnlen,
}
use exec_helper.Config.Argv.Lengths.{IsCString, read-copy_argument}
use exec_helper.Config.Argv.Ownership.{
  Heap, Objects, Operation, build, copy_to_second, move_to_second, operate_all, construct_two,
  destroy_two,
}
use exec_helper.Config.Argv.Ownership.Balance.{count, operate_all-released}
use exec_helper.Config.Argv.Copies.{deep_copy-texts}

abbrev two_arguments : List Text
two_arguments = codes "make" ∷ codes "-j" ∷ []

two_arguments-IsCString : All IsCString two_arguments
two_arguments-IsCString = ((refl, (refl, (refl, (refl, tt)))), ((refl, (refl, tt)), tt))

read-copy_argument_example :
    read (copy_argument (codes "-j"))
    ≡ (if leb (length (codes "-j")) 256 then some (codes "-j") else none)
read-copy_argument_example = read-copy_argument (codes "-j") (refl, (refl, tt))

abbrev two_pointers : Pointers
two_pointers =
    some (record { address = 7; bytes = codes "make" ++ 0 ∷ [] })
    ∷ some (record { address = 8; bytes = codes "-j" ++ 0 ∷ [] })
    ∷ none
    ∷ []

deep_copy-texts_example :
    (r : Pointers × ℕ) × (deep_copy two_pointers 9 ≡ some r)
    × (texts r.0 ≡ some two_arguments)
    × (is_empty two_arguments ≡ false → argv_eq r.0 two_pointers ≡ false)
deep_copy-texts_example =
    deep_copy-texts two_pointers 9 two_arguments (unfold texts read in refl)
      (omega arith, (omega arith, tt))

argv_run :
    (argv_from_task two_arguments 7 ≡ (two_pointers, 9))
    × (argv_from_main two_arguments 7 ≡ (two_pointers, 9))
    × (at_index 2 two_pointers ≡ some none)
    × (get_argc (move two_pointers).1 ≡ 2 ^ 64 - 1)
    × (assign_argv true two_pointers [] 9 ≡ some (two_pointers, 9))
unfolding argv_from_task argv_from_main at_index get_argc assign_argv copy_argument strncpy strnlen
argv_run = (refl, refl, refl, refl, refl)

abbrev test_operations : List Operation
test_operations = copy_to_second ∷ build (codes "-j" ∷ []) ∷ move_to_second ∷ []

abbrev test_heap : Heap
test_heap = record { next = 7; live = 3 ∷ [] }

operate_all-released_example :
    (o : Objects) × (operate_all test_operations (construct_two two_arguments [] test_heap)
      ≡ some o)
    × (texts o.first ≡ some two_arguments)
    × (texts o.second ≡ some (codes "-j" ∷ []))
    × (rest : List ℕ) × (destroy_two o ≡ some rest)
    × ((c : ℕ) → count c rest ≡ count c (3 ∷ []))
operate_all-released_example =
    operate_all-released two_arguments [] test_operations test_heap two_arguments-IsCString tt
      (tt, (((refl, (refl, tt)), tt), (tt, tt)))
