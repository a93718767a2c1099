-- ===== src/Plugins/Internal/Lcov.antt =====
-- src/plugins/src/lcov.cpp: coverage around the execution of commands.
use exec_helper.Prelude.{
  Text, codes, List, [], ◌∷◌, ◌++◌, Option, some, Bool, true, false, not, if◌then◌else◌, ◌>>=◌,
  value_or, is_empty,
}
use exec_helper.Platform.{Platform}
use exec_helper.OrderedMap.{Map}
use exec_helper.Core.Task.{Task, append, append_all, new_task}
use exec_helper.Config.SettingsNode.{SettingsNode, leaf, add, get_values, get_string, get_bool}
use exec_helper.Config.Patterns.{Patterns}
use exec_helper.Plugins.PluginUtils.{pattern_combinations, replace_task}
use exec_helper.Plugins.State.{execute, M, ◌>>=ₘ◌, pure, demand, register_task, each}
use exec_helper.Plugins.Internal.Keys.{command_line_key, run_command_key, Run}

abbrev pub info_file_key : Text
info_file_key = codes "info-file"

abbrev pub base_directory_key : Text
base_directory_key = codes "base-directory"

abbrev pub directory_key : Text
directory_key = codes "directory"

abbrev pub zero_counters_key : Text
zero_counters_key = codes "zero-counters"

abbrev pub gen_html_key : Text
gen_html_key = codes "gen-html"

abbrev pub gen_html_output_key : Text
gen_html_output_key = codes "gen-html-output"

abbrev pub gen_html_title_key : Text
gen_html_title_key = codes "gen-html-title"

abbrev pub gen_html_command_line_key : Text
gen_html_command_line_key = codes "gen-html-command-line"

abbrev pub excludes_key : Text
excludes_key = codes "excludes"

unfoldable pub lcov_variables : SettingsNode
lcov_variables = add (excludes_key ∷ []) [] (
    add (gen_html_command_line_key ∷ []) [] (
      add (gen_html_title_key ∷ []) (codes "Hello" ∷ []) (
        add (gen_html_output_key ∷ []) (codes "." ∷ []) (
          add (gen_html_key ∷ []) (codes "no" ∷ []) (
            add (zero_counters_key ∷ []) (codes "no" ∷ []) (
              add (directory_key ∷ []) (codes "." ∷ []) (
                add (base_directory_key ∷ []) (codes "." ∷ []) (
                  add (info_file_key ∷ []) (codes "lcov-plugin.info" ∷ [])
                    (add (command_line_key ∷ []) [] (leaf (codes "lcov")))))))))))

-- What `apply` reads before it makes its tasks.
pub record LcovSettings : Type 0 where
  pub info_file : Text
  pub base_directory : Text
  pub directory : Text
  pub arguments : List Text
  pub zero_counters : Bool
  pub gen_html : Bool
  pub excludes : List Text

unfoldable pub zero_counters_task : LcovSettings → Task → Task
zero_counters_task l t = append_all l.arguments (
    append (codes "--zerocounters") (
      append_all (codes "--directory" ∷ l.directory ∷ [])
        (append_all (codes "--base-directory" ∷ l.base_directory ∷ []) (append (codes "lcov") t))))

unfoldable pub capture_task : LcovSettings → Task → Task
capture_task l t = append_all l.arguments (
    append_all (codes "--output" ∷ l.info_file ∷ []) (
      append (codes "--capture") (
        append_all (codes "--directory" ∷ l.directory ∷ []) (
          append_all (codes "--base-directory" ∷ l.base_directory ∷ [])
            (append (codes "lcov") t)))))

abbrev quote : Text
quote = b'"' ∷ []

-- `getExcludes`.
unfoldable pub quote_all : List Text → List Text
quote_all [] = []
quote_all (x ∷ xs) = (quote ++ x ++ quote) ∷ quote_all xs

unfoldable pub exclude_task : LcovSettings → Task → Task
unfolding quote_all
exclude_task l t =
    if is_empty l.excludes
    then t
    else append_all l.arguments (
        append_all (codes "--output-file" ∷ l.info_file ∷ []) (
          append_all (quote_all l.excludes)
            (append_all (codes "--remove" ∷ l.info_file ∷ []) (append (codes "lcov") t))))

-- The second step is made only if the first returns true.
infixl 20 ◌thenₘ◌
abbrev pub ◌thenₘ◌ : M Bool → M Bool → M Bool
m thenₘ n = m >>=ₘ λ done. if done then n else pure false

abbrev pub when : Bool → M Bool → M Bool
when b m = if b then m else pure true

module _ ⦃sys : Platform⦄ where
  unfoldable pub read_settings : SettingsNode → Option LcovSettings
  read_settings variables = do
    info_file ← get_string (info_file_key ∷ []) variables
    base_directory ← get_string (base_directory_key ∷ []) variables
    directory ← get_string (directory_key ∷ []) variables
    arguments ← get_values (command_line_key ∷ []) variables
    zero_counters ← get_bool (zero_counters_key ∷ []) variables
    gen_html ← get_bool (gen_html_key ∷ []) variables
    excludes ← get_values (excludes_key ∷ []) variables
    some (record {
      info_file = info_file;
      base_directory = base_directory;
      directory = directory;
      arguments = arguments;
      zero_counters = zero_counters;
      gen_html = gen_html;
      excludes = excludes;
    })

  unfoldable pub gen_html_task : LcovSettings → SettingsNode → Task → Option Task
  gen_html_task l variables t = do
    output ← get_string (gen_html_output_key ∷ []) variables
    title ← get_string (gen_html_title_key ∷ []) variables
    arguments ← get_values (gen_html_command_line_key ∷ []) variables
    some (
        append l.info_file (
          append_all arguments (
            append_all (codes "--title" ∷ title ∷ []) (
              append_all (codes "--output-directory" ∷ output ∷ []) (append (codes "genhtml") t)))))

  -- The task is made before the rounds, and only if it is asked for.
  unfoldable pub asked_gen_html_task : LcovSettings → SettingsNode → Task → Option Task
  unfolding gen_html_task
  asked_gen_html_task l variables t =
      if l.gen_html then gen_html_task l variables t else some (new_task [])

  abbrev pub run_task : Task → Map Text → M Bool
  run_task t c = register_task (replace_task t c)

  -- One round of the loop.
  unfoldable pub lcov_round : M Bool → LcovSettings → Task → Task → Map Text → M Bool
  unfolding zero_counters_task capture_task exclude_task
  lcov_round execution l html t c =
      when l.zero_counters (run_task (zero_counters_task l t) c)
      thenₘ execution
      thenₘ run_task (capture_task l t) c
      thenₘ when (not (is_empty l.excludes)) (run_task (exclude_task l t) c)
      thenₘ when l.gen_html (run_task html c)

  unfoldable pub lcov_apply : Run → Task → SettingsNode → Patterns → M Bool
  unfolding read_settings asked_gen_html_task lcov_round
  lcov_apply run t variables ps =
      let cs = value_or (get_values (run_command_key ∷ []) variables) [] in
      if is_empty cs
      then pure false
      else (demand (read_settings variables) >>=ₘ λ l.
          demand (asked_gen_html_task l variables t) >>=ₘ λ html.
          demand (pattern_combinations ps) >>=ₘ λ rounds.
          each (lcov_round (run (execute cs cs) t variables ps) l html t) rounds)
