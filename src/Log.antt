-- ===== src/Log.antt =====
-- src/log/include/log/logLevel.h and src/log/src/logLevel.cpp: the log levels and their names.
pub mod Names
use exec_helper.Prelude.{
  Text, codes, text_eq, ℕ, zero, suc, List, [], ◌∷◌, Option, none, some, if◌then◌else◌, ◌>>=◌,
  get_elem?, all,
}

-- `all_levels` and `no_level` are the constants `all` and `none`.
pub data LogLevel : Type 0 where
  all_levels test trace debug info warning error fatal no_level : LogLevel

-- The number of a constant.
unfoldable pub level_index : LogLevel → ℕ
level_index all_levels = 0
level_index test = 1
level_index trace = 2
level_index debug = 3
level_index info = 4
level_index warning = 5
level_index error = 6
level_index fatal = 7
level_index no_level = 8

-- `getLogLevelStrings`.
abbrev pub log_level_strings : List Text
log_level_strings =
    codes "all"
    ∷ codes "test"
    ∷ codes "trace"
    ∷ codes "debug"
    ∷ codes "info"
    ∷ codes "warning"
    ∷ codes "error"
    ∷ codes "fatal"
    ∷ codes "none"
    ∷ []

-- `std::find` and `std::distance`.
unfoldable pub index_of : Text → List Text → Option ℕ
index_of s [] = none
index_of s (x ∷ xs) =
    let rest = index_of s xs in if text_eq s x then some 0 else (rest >>= λ i. some (suc i))

-- The conversion of a number to a constant.
unfoldable pub level_at : ℕ → List LogLevel → Option LogLevel
level_at i [] = none
level_at zero (l ∷ ls) = some l
level_at (suc i) (l ∷ ls) = level_at i ls

abbrev pub constants : List LogLevel
constants = all_levels ∷ test ∷ trace ∷ debug ∷ info ∷ warning ∷ error ∷ fatal ∷ no_level ∷ []

-- `toLogLevel`; `none` is the exception InvalidLogLevel.
unfoldable pub to_log_level : Text → Option LogLevel
unfolding index_of level_at
to_log_level level = index_of level log_level_strings >>= λ i. level_at i constants

-- `toString`; `none` is the failed precondition.
unfoldable pub to_string : LogLevel → Option Text
unfolding level_index
to_string level = get_elem? log_level_strings (level_index level)

-- `getLogLevels`.
abbrev pub log_levels : List LogLevel
log_levels = no_level ∷ fatal ∷ error ∷ warning ∷ info ∷ debug ∷ trace ∷ all_levels ∷ []
