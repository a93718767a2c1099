-- ===== src/Environment/RoundTrip.antt =====
-- The environment of src/config/src/envp.cpp is read again by src/applications/exec-helper.cpp.
use exec_helper.Prelude.{
  Text, codes, ℕ, [], ◌∷◌, ◌++◌, append_assoc, append-nil, some, false, ◌==◌, ◌≡◌, refl, All,
  All-append,
}
use exec_helper.OrderedMap.{IsSorted}
use exec_helper.OrderedMap.Laws.{emplace-last}
use exec_helper.Core.Task.{EnvironmentCollection}
use exec_helper.Core.MapPermutator.Visit.{Before, Before-nil, Before-cons}
use exec_helper.Environment.{c_string, make_envp, split_variable, to_env_from, to_env_collection}

-- A text without a given byte.
abbrev pub Lacks : ℕ → Text → Type 0
Lacks b = All (λ c. c == b ≡ false)

-- A variable that a process can be given: no byte ends a string, and the name has no `=`.
abbrev pub IsVariable : Text × Text → Type 0
IsVariable (k, v) = Lacks 0 k × Lacks b'=' k × Lacks 0 v

pub c_string-Lacks : (s : Text) → Lacks 0 s → c_string s ≡ s
unfolding c_string
c_string-Lacks [] h = refl
c_string-Lacks (c ∷ s) (p, h) = rw (p, c_string-Lacks s h)

split_variable-join :
    (k v : Text) → Lacks b'=' k → split_variable (k ++ (codes "=" ++ v)) ≡ some (k, v)
unfolding split_variable
split_variable-join [] v h = refl
split_variable-join (c ∷ k) v (p, h) = rw (p, split_variable-join k v h)

to_env_from-make_envp :
    (env done : EnvironmentCollection)
    → IsSorted env
    → All IsVariable env
    → Before done env
    → to_env_from (make_envp env) done ≡ some (done ++ env)
unfolding to_env_from make_envp
to_env_from-make_envp [] done s h b = rw append-nil
to_env_from-make_envp ((k, v) ∷ env) done (a, s) ((n, e, n'), h) b = rw (
  c_string-Lacks (k ++ (codes "=" ++ v)) (All-append _ k (codes "=" ++ v) n (refl, n')),
  split_variable-join k v e,
  emplace-last k v done (Before-nil done k v env b),
  to_env_from-make_envp env _ s h (Before-cons done k v v env b a),
  append_assoc,
)

-- An environment in key order whose names and values have no null byte, and whose names have no
-- equals sign, is read back from the strings that it is given to a process as.
pub to_env_collection-make_envp :
    (env : EnvironmentCollection)
    → IsSorted env
    → All IsVariable env
    → to_env_collection (make_envp env) ≡ some env
unfolding to_env_collection
to_env_collection-make_envp env s h = to_env_from-make_envp env [] s h tt
