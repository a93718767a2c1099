-- ===== src/Plugins/Internal/OptionHelpers.antt =====
-- The helpers of the plugins for their options: verbosity.h and .cpp, threadedness.h and .cpp and
-- commandLine.h and .cpp of src/plugins. `none` is an optional without a value that is read.
pub mod Stored
use exec_helper.Prelude.{Text, codes, List, [], ◌∷◌, Option, none, some, if◌then◌else◌, ◌>>=◌}
use exec_helper.Platform.{Platform}
use exec_helper.Core.Task.{Task, append, append_all}
use exec_helper.Config.SettingsNode.{SettingsNode, add, get_bool, get_uint32, get_values}
use exec_helper.Plugins.State.{Options}
use exec_helper.Plugins.Internal.Keys.{verbosity_key, jobs_key, command_line_key, yes_no, decimal}

-- `VerbosityLong::getVariables`, to which the other two forward.
unfoldable pub verbosity_variables : Options → SettingsNode → SettingsNode
verbosity_variables o variables = add (verbosity_key ∷ []) (yes_no o.verbosity ∷ []) variables

-- `JobsLong::getVariables`, to which the other one forwards.
unfoldable pub jobs_variables : Options → SettingsNode → SettingsNode
jobs_variables o variables = add (jobs_key ∷ []) (decimal o.jobs ∷ []) variables

-- `CommandLine::getVariables`.
unfoldable pub arguments_variables : SettingsNode → SettingsNode
arguments_variables variables = add (command_line_key ∷ []) [] variables

-- The three `apply` of verbosity.h differ in the flag.
unfoldable pub append_flag : Text → SettingsNode → Task → Option Task
append_flag flag variables t = get_bool (verbosity_key ∷ []) variables >>= λ verbose.
    some (if verbose then append flag t else t)

unfoldable pub append_verbose : SettingsNode → Task → Option Task
unfolding append_flag
append_verbose variables t = append_flag (codes "--verbose") variables t

unfoldable pub append_debug : SettingsNode → Task → Option Task
unfolding append_flag
append_debug variables t = append_flag (codes "--debug") variables t

unfoldable pub append_short_verbose : SettingsNode → Task → Option Task
unfolding append_flag
append_short_verbose variables t = append_flag (codes "-v") variables t

module _ ⦃sys : Platform⦄ where
  -- The two `apply` of threadedness.h.
  unfoldable pub append_jobs : SettingsNode → Task → Option Task
  append_jobs variables t = get_uint32 (jobs_key ∷ []) variables >>= λ jobs.
      some (append_all (codes "--jobs" ∷ decimal jobs ∷ []) t)

  unfoldable pub append_short_jobs : SettingsNode → Task → Option Task
  append_short_jobs variables t = get_uint32 (jobs_key ∷ []) variables >>= λ jobs.
      some (append_all (codes "-j" ∷ decimal jobs ∷ []) t)

  -- `CommandLine::apply`.
  unfoldable pub append_command_line : SettingsNode → Task → Option Task
  append_command_line variables t =
      get_values (command_line_key ∷ []) variables >>= λ arguments. some (append_all arguments t)
