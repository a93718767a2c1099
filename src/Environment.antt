-- ===== src/Environment.antt =====
-- How an environment goes to a process and comes from one: the strings of src/config/src/envp.cpp, and
-- `toEnvCollection` of src/applications/exec-helper.cpp, which reads them. A C string is the bytes
-- before its end, and the null pointer at the end of an array is the end of a list.
pub mod RoundTrip
pub mod Objects
use exec_helper.Prelude.{
  Text, codes, ◌+◌, List, [], ◌∷◌, ◌++◌, Option, none, some, ◌==◌, if◌then◌else◌, ◌>>=◌,
}
use exec_helper.OrderedMap.{emplace}
use exec_helper.Core.Task.{EnvironmentCollection}

-- What is left of a string that is copied as a C string.
unfoldable pub c_string : Text → Text
c_string [] = []
c_string (c ∷ s) = let rest = c_string s in if c == 0 then [] else c ∷ rest

-- The constructor of `Envp`.
unfoldable pub make_envp : EnvironmentCollection → List Text
unfolding c_string
make_envp [] = []
make_envp ((k, v) ∷ env) = c_string (k ++ (codes "=" ++ v)) ∷ make_envp env

-- The name before the first delimiter and the value behind it; `none` is the failed assertion.
unfoldable pub split_variable : Text → Option (Text × Text)
split_variable [] = none
split_variable (c ∷ s) =
    let rest = split_variable s in
    if c == b'=' then some ([], s) else (rest >>= λ p. some (c ∷ p.0, p.1))

unfoldable pub to_env_from : List Text → EnvironmentCollection → Option EnvironmentCollection
unfolding split_variable
to_env_from [] result = some result
to_env_from (x ∷ xs) result = split_variable x >>= λ p. to_env_from xs (emplace p.0 p.1 result)

-- `toEnvCollection`.
unfoldable pub to_env_collection : List Text → Option EnvironmentCollection
unfolding to_env_from
to_env_collection envp = to_env_from envp []
