-- ===== src/Tests/OptionRuns.antt =====
-- The log levels and the options of the command line at concrete inputs.
use exec_helper.Prelude.{codes, text_eq, [], ◌∷◌, true, false, ◌≡◌, refl}
use exec_helper.Log.{no_level, to_log_level}
use exec_helper.Config.SettingsNode.{add, get_values, get_bool, get_string}
use exec_helper.Config.FleetingOptions.{
  new_options, jobs_key, get_default, get_log_level, verify_options,
}
use exec_helper.Tests.Sample.{sample_platform}

default_run :
    ((new_options get_default).jobs ≡ 4)
    × (get_log_level (new_options get_default) ≡ no_level)
    × (verify_options (new_options get_default) ≡ true)
    × (verify_options (new_options (add (jobs_key ∷ []) (codes "0" ∷ []) get_default)) ≡ false)
unfolding new_options get_default get_log_level verify_options text_eq to_log_level get_values
    get_bool get_string add
default_run = (refl, refl, refl, refl)
