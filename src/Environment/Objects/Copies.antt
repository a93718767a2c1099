-- ===== src/Environment/Objects/Copies.antt =====
-- A copy of an object of src/config/src/envp.cpp describes the same environment.
use exec_helper.Prelude.{
  Text, codes, ℕ, suc, List, [], ◌∷◌, ◌++◌, some, length, ◌≡◌, refl, ◌∙◌, ap, arith, All,
  All-append,
}
use exec_helper.OrderedMap.{IsSorted}
use exec_helper.Core.Task.{EnvironmentCollection}
use exec_helper.Config.Argv.{Pointers, texts}
use exec_helper.Config.Argv.Copies.{argv_from_task-read, deep_copy-read, deep_copy-length}
use exec_helper.Config.Argv.Lengths.{IsCString}
use exec_helper.Config.Argv.Ownership.{Heap, addresses, clear_argv}
use exec_helper.Environment.{make_envp, to_env_collection}
use exec_helper.Environment.RoundTrip.{IsVariable, c_string-Lacks, to_env_collection-make_envp}
use exec_helper.Environment.Objects.{
  variable_texts, envp_from_collection, replace_envp, copy_envp, envp_size,
}

variable_texts-IsCString :
    (env : EnvironmentCollection) → All IsVariable env → All IsCString (variable_texts env)
unfolding variable_texts
variable_texts-IsCString [] h = tt
variable_texts-IsCString ((k, v) ∷ env) ((n, e, n'), h) =
    (All-append _ k (codes "=" ++ v) n (refl, n'), variable_texts-IsCString env h)

variable_texts-make_envp :
    (env : EnvironmentCollection) → All IsVariable env → variable_texts env ≡ make_envp env
unfolding variable_texts make_envp
variable_texts-make_envp [] h = refl
variable_texts-make_envp ((k, v) ∷ env) ((n, e, n'), h) = rw (
  c_string-Lacks (k ++ (codes "=" ++ v)) (All-append _ k (codes "=" ++ v) n (refl, n')),
  variable_texts-make_envp env h,
)

variable_texts-length : (env : EnvironmentCollection) → length (variable_texts env) ≡ length env
unfolding variable_texts
variable_texts-length [] = refl
variable_texts-length (x ∷ env) = ap suc (variable_texts-length env)

envp_size-length : (ps : Pointers) (n : ℕ) → length ps ≡ suc n → envp_size ps ≡ some n
unfolding envp_size
envp_size-length [] n e = absurd (omega arith)
envp_size-length (p ∷ ps) n e = ap some (omega arith)

-- An environment in key order whose names and values have no null byte, and whose names have no
-- equals sign, is read back from the strings of a copy of the object that is built from it. The size
-- of the copy is the number of variables.
pub copy_envp-to_env_collection :
    (env : EnvironmentCollection) (next : ℕ) (heap : Heap)
    → IsSorted env
    → All IsVariable env
    → (r : Pointers × Heap) × (copy_envp (envp_from_collection env next).0 heap ≡ some r)
      × (ts : List Text) × (texts r.0 ≡ some ts)
      × (to_env_collection ts ≡ some env)
      × (envp_size r.0 ≡ some (length env))
unfolding envp_from_collection copy_envp replace_envp clear_argv
copy_envp-to_env_collection env next heap s h =
    let strings = argv_from_task-read (variable_texts env) next (variable_texts-IsCString env h) in
    let copied =
      deep_copy-read (envp_from_collection env next).0 heap.next (variable_texts env) strings in
    (
      (copied.0.0, record { next = copied.0.1; live = addresses copied.0.0 ++ heap.live }),
      rw copied.1,
      variable_texts env,
      copied.2,
      ap to_env_collection (variable_texts-make_envp env h) ∙ to_env_collection-make_envp env s h,
      envp_size-length copied.0.0 (length env) (
          deep_copy-length (envp_from_collection env next).0 heap.next (variable_texts env) copied.0
            strings copied.1
          ∙ ap suc (variable_texts-length env)),
    )
