-- ===== src/Plugins/Internal/Keys.antt =====
-- The keys and small helpers that the plugins share.
use exec_helper.Prelude.{
  Text, codes, ℕ, zero, suc, ◌+◌, ◌/◌, ◌%◌, [], ◌∷◌, Bool, ltb, if◌then◌else◌,
}
use exec_helper.Core.Task.{Task}
use exec_helper.Config.SettingsNode.{SettingsNode}
use exec_helper.Config.Patterns.{Patterns}
use exec_helper.Plugins.State.{Plugin, M}

-- The `apply` of a plugin.
abbrev pub Run : Type 0
Run = Plugin → Task → SettingsNode → Patterns → M Bool

abbrev pub yes_no : Bool → Text
yes_no b = if b then codes "yes" else codes "no"

-- `std::to_string` of a `uint32_t`, which has ten digits at most.
unfoldable pub decimal_from : ℕ → ℕ → Text → Text
decimal_from zero n out = out
decimal_from (suc fuel) n out =
    let more = decimal_from fuel (n / 10) ((b'0' + n % 10) ∷ out) in
    if ltb n 10 then (b'0' + n) ∷ out else more

unfoldable pub decimal : ℕ → Text
unfolding decimal_from
decimal n = decimal_from 10 n []

abbrev pub command_line_key : Text
command_line_key = codes "command-line"

abbrev pub verbosity_key : Text
verbosity_key = codes "verbose"

abbrev pub jobs_key : Text
jobs_key = codes "jobs"

abbrev pub working_dir_key : Text
working_dir_key = codes "working-dir"

abbrev pub run_command_key : Text
run_command_key = codes "run-command"

abbrev pub tool_key : Text
tool_key = codes "tool"

abbrev pub exec_key : Text
exec_key = codes "exec"

abbrev pub minimum_tokens_key : Text
minimum_tokens_key = codes "minimum-tokens"

abbrev pub files_key : Text
files_key = codes "files"

abbrev pub language_key : Text
language_key = codes "language"
