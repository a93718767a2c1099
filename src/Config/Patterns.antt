-- ===== src/Config/Patterns.antt =====
-- src/config/include/config/pattern.h, patternsHandler.h, src/config/src/pattern.cpp,
-- patternsHandler.cpp and config.cpp: patterns, the map of patterns by key, and their reading from the
-- settings file. `none` of `get_pattern` stands for a precondition that fails.
pub mod Reading
use exec_helper.Prelude.{
  Text, codes, text_eq, ℕ, List, [], ◌∷◌, Option, none, some, Bool, true, false, ◌&&◌, ◌==◌, ◌>>=◌,
  if◌then◌else◌, value_or,
}
use exec_helper.Platform.{Platform}
use exec_helper.Core.Task.{texts_eq}
use exec_helper.OrderedMap.{Map, find, emplace}
use exec_helper.OrderedMap
use exec_helper.Config.SettingsNode.{
  SettingsNode, leaf, at_key, contains, get_values, get_char, get_string, overwrite, clear,
}

pub record Pattern : Type 0 where
  pub key : Text
  pub values : List Text
  pub short_option : Option ℕ
  pub long_option : Option Text

unfoldable pub option_eq : {A : Type 0} → (A → A → Bool) → Option A → Option A → Bool
option_eq eq none none = true
option_eq eq (some a) (some b) = eq a b
option_eq eq _ _ = false

-- `operator==`.
unfoldable pub pattern_eq : Pattern → Pattern → Bool
unfolding option_eq
pattern_eq a b =
    text_eq a.key b.key
    && texts_eq a.values b.values
    && option_eq (λ c d. c == d) a.short_option b.short_option
    && option_eq text_eq a.long_option b.long_option

unfoldable pub set_values : List Text → Pattern → Pattern
set_values vs p = record p { values = vs }

abbrev pub Patterns : Type 0
Patterns = List Pattern

abbrev pub PatternsHandler : Type 0
PatternsHandler = Map Pattern

unfoldable pub add_pattern : Pattern → PatternsHandler → PatternsHandler
add_pattern p handler = emplace p.key p handler

unfoldable pub add_patterns : Patterns → PatternsHandler → PatternsHandler
unfolding add_pattern
add_patterns [] handler = handler
add_patterns (p ∷ ps) handler = add_patterns ps (add_pattern p handler)

-- The constructor from a collection of patterns.
unfoldable pub make_handler : Patterns → PatternsHandler
unfolding add_patterns
make_handler ps = add_patterns ps []

unfoldable pub contains_pattern : Text → PatternsHandler → Bool
contains_pattern k handler = OrderedMap.contains k handler

unfoldable pub get_pattern : Text → PatternsHandler → Option Pattern
get_pattern k handler = find k handler

abbrev pub default_values_key : Text
default_values_key = codes "default-values"

abbrev pub short_option_key : Text
short_option_key = codes "short-option"

abbrev pub long_option_key : Text
long_option_key = codes "long-option"

abbrev pub patterns_key : Text
patterns_key = codes "patterns"

-- `getDefaultPatternMap`.
abbrev pub default_pattern_map : Text → SettingsNode
default_pattern_map k = leaf k

-- The end of `toPattern`, from the three settings that it reads.
abbrev pub build_pattern : Text → Option (List Text) → Option ℕ → Option Text → Option Pattern
build_pattern k none short long = none
build_pattern k (some []) short long = none
build_pattern k (some (v ∷ vs)) short long =
    some (record { key = k; values = v ∷ vs; short_option = short; long_option = long })

-- A key without a pattern is passed over.
abbrev pub keep_pattern : Option Pattern → Patterns → Patterns
keep_pattern none ps = ps
keep_pattern (some p) ps = p ∷ ps

module _ ⦃sys : Platform⦄ where
  unfoldable pub to_pattern : Text → SettingsNode → Option Pattern
  to_pattern k map' =
      build_pattern k (get_values (default_values_key ∷ []) map')
        (get_char (short_option_key ∷ []) map') (get_string (long_option_key ∷ []) map')

  -- The loop of `processPatterns`, over the keys under the node of the patterns.
  unfoldable pub process_keys : SettingsNode → List Text → Option Patterns
  unfolding to_pattern
  process_keys settings [] = some []
  process_keys settings (k ∷ ks) = do
    source ← at_key k settings
    rest ← process_keys settings ks
    some (keep_pattern (to_pattern k (overwrite source (default_pattern_map k))) rest)

  unfoldable pub process_patterns : SettingsNode → Option Patterns
  unfolding process_keys
  process_patterns settings =
      if contains (patterns_key ∷ []) settings
      then (do
        found ← at_key patterns_key settings
        process_keys found (value_or (get_values (patterns_key ∷ []) settings) []))
      else some []

  -- `parseSettingsFile`, from the tree that the YAML parser built, if it built one. The outer `none`
  -- is a failed precondition, the inner one the error that is reported.
  unfoldable pub parse_settings : Option SettingsNode → Option (Option (Patterns × SettingsNode))
  unfolding process_patterns
  parse_settings none = some none
  parse_settings (some configuration) = do
    ps ← process_patterns configuration
    some (some (ps, (clear (patterns_key ∷ []) configuration).0))
