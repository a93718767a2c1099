-- ===== src/Plugins/PluginUtils/Replacement.antt =====
-- What the replacement of patterns in texts and tasks does, in src/core/src/patterns.cpp and
-- src/plugins/src/pluginUtils.cpp.
use exec_helper.Prelude.{
  Text, codes, text_eq, ℕ, List, [], ◌∷◌, ◌++◌, map, append_assoc, append-nil, false, ◌==◌, ◌≡◌,
  ◌≢◌, refl, sym, ◌∙◌, ap, All, arith,
}
use exec_helper.Platform.{Platform}
use exec_helper.OrderedMap.{Map, find}
use exec_helper.Core.Task.{
  EnvironmentCollection, Task, append, set_working_directory, set_environment, new_task,
}
use exec_helper.Plugins.PluginUtils.{replace_text, replace_task}
use exec_helper.Core.Task.{pwd_key}
use exec_helper.Core.Task.Environment.{IsConsistent, set_working_directory-IsConsistent}
use exec_helper.Platform.{starts_with}
use exec_helper.OrderedMap.{IsSorted}
use exec_helper.OrderedMap.Laws.{emplace-IsSorted}
use exec_helper.Plugins.PluginUtils.{
  replace_patterns, replace_environment, replace_environment_from, append_replaced,
}

-- A text without an opening brace.
abbrev pub IsPlain : Text → Type 0
IsPlain s = All (λ c. c == b'{' ≡ false) s

-- A pattern as it stands in a text.
abbrev pub braced : Text → Text
braced k = codes "{" ++ k ++ codes "}"

starts_with_brace :
    (c : ℕ) (rest k : Text) → c == b'{' ≡ false → starts_with (braced k) (c ∷ rest) ≡ false
unfolding starts_with
starts_with_brace c rest k h = ground arith

braced_not_nil : (k : Text) → braced k ≢ []
braced_not_nil k e = ground arith

module _ ⦃sys : Platform⦄ where
  replace_plain_prefix :
      (before rest k v : Text)
      → IsPlain before
      → replace_patterns (before ++ rest) k v ≡ before ++ replace_patterns rest k v
  unfolding replace_patterns
  replace_plain_prefix [] rest k v h = refl
  replace_plain_prefix (c ∷ before) rest k v (p, h) =
      sys.replace_all_skip c (before ++ rest) (braced k) v
        (starts_with_brace c (before ++ rest) k p)
      ∙ ap (λ t. c ∷ t) (replace_plain_prefix before rest k v h)

  replace_patterns_nil : (k v : Text) → replace_patterns [] k v ≡ []
  unfolding replace_patterns
  replace_patterns_nil k v = sys.replace_all-nil (braced k) v

  -- The first occurrence of a pattern after a plain text becomes the value, also if the value has
  -- braces itself, and the replacement goes on behind it.
  pub replace_patterns_first :
      (before after k v : Text)
      → IsPlain before
      → replace_patterns (before ++ (braced k ++ after)) k v
        ≡ before ++ (v ++ replace_patterns after k v)
  unfolding replace_patterns
  replace_patterns_first before after k v h =
      replace_plain_prefix before (braced k ++ after) k v h
      ∙ ap (λ t. before ++ t) (sys.replace_all_hit after (braced k) v (braced_not_nil k))

  -- No combination changes a text without an opening brace.
  pub replace_text_plain :
      (s : Text) (combination : Map Text) → IsPlain s → replace_text s combination ≡ s
  unfolding replace_text
  replace_text_plain s [] h = refl
  replace_text_plain s ((k, v) ∷ combination) h =
      ap (λ x. replace_text x combination)
        (rw (← append-nil s)
          (replace_plain_prefix s [] k v h ∙ ap (λ t. s ++ t) (replace_patterns_nil k v)))
      ∙ replace_text_plain s combination h

  replace_environment_from-IsSorted :
      (env : EnvironmentCollection) (combination : Map Text) (replaced : EnvironmentCollection)
      → IsSorted replaced
      → IsSorted (replace_environment_from env combination replaced)
  unfolding replace_environment_from
  replace_environment_from-IsSorted [] combination replaced h = h
  replace_environment_from-IsSorted ((k, v) ∷ env) combination replaced h =
      replace_environment_from-IsSorted env combination _
        (emplace-IsSorted (replace_text k combination) (replace_text v combination) replaced h)

  append_replaced_lem :
      (arguments : List Text) (combination : Map Text) (t : Task)
      → append_replaced arguments combination t
        ≡ record t { task = t.task ++ map (λ a. replace_text a combination) arguments }
  unfolding append_replaced append
  append_replaced_lem [] combination t = ap (λ x. record t { task = x }) (sym (append-nil t.task))
  append_replaced_lem (a ∷ arguments) combination t =
      append_replaced_lem arguments combination (append (replace_text a combination) t)
      ∙ ap (λ x. record t { task = x })
          (append_assoc t.task (replace_text a combination ∷ [])
            (map (λ x. replace_text x combination) arguments))

  new_task_nil : (new_task []).task ≡ []
  unfolding new_task
  new_task_nil = refl

  -- Replacing in a task replaces in each argument, in the working directory and in the environment.
  -- `PWD` of the new task is its new working directory, also if the environment said otherwise; any
  -- other variable is the one of the replaced environment.
  pub replace_task-IsConsistent :
      (t : Task) (combination : Map Text)
      → let t' = replace_task t combination in
        IsConsistent t'
        × (t'.task ≡ map (λ a. replace_text a combination) t.task)
        × (t'.working_directory ≡ replace_text t.working_directory combination)
        × ((q : Text)
            → text_eq q pwd_key ≡ false
            → find q t'.env ≡ find q (replace_environment t.env combination))
  unfolding replace_task set_environment replace_environment
  replace_task-IsConsistent t combination =
      let start = new_task [] in
      let env = replace_environment t.env combination in
      let one =
        set_working_directory-IsConsistent start.working_directory (record start { env = env })
          (replace_environment_from-IsSorted t.env combination [] tt) in
      let two =
        set_working_directory-IsConsistent (replace_text t.working_directory combination)
          (set_environment env start) one.0.ordered in
      let e = append_replaced_lem t.task combination (
        set_working_directory (replace_text t.working_directory combination)
          (set_environment env start)) in
      rw e (
        record { ordered = two.0.ordered; pwd = two.0.pwd },
        rw (two.2, one.2)
            (ap (λ x. x ++ map (λ a. replace_text a combination) t.task) new_task_nil),
        two.1,
        λ q ne. two.3 q ne ∙ one.3 q ne,
      )
