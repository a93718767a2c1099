-- ===== src/Config/OptionDescriptions.antt =====
-- src/config/include/config/optionDescriptions.h and src/config/src/optionDescriptions.cpp: the options
-- of the command line, and how the values that boost::program_options finds become variables.
pub mod Switches
use exec_helper.Prelude.{
  Text, codes, List, [], ◌∷◌, ◌++◌, Option, none, some, Bool, ◌==◌, if◌then◌else◌, ◌>>=◌, length,
}
use exec_helper.OrderedMap.{Map}
use exec_helper.OrderedMap
use exec_helper.Config.SettingsNode.{SettingsNode, replace}

-- The classes `Option<bool>`, `Option<T>` and `Option<std::vector<T>>`.
pub data OptionType : Type 0 where
  switch single multitoken : OptionType

pub record OptionInterface : Type 0 where
  pub identifying_option : Text
  pub argument_options : List Text
  pub type : OptionType

-- The value of an option, which `as` reads with one of the three types.
pub data Value : Type 0 where
  bool_value : Bool → Value
  text_value : Text → Value
  texts_value : List Text → Value

-- The options are kept twice: as `m_optionDescription`, all that were added, and by their names, of
-- which the first one with a name counts.
pub record OptionDescriptions : Type 0 where
  pub descriptions : List OptionInterface
  pub option_keys : List Text
  pub options : Map OptionInterface
  pub positional : Option Text

abbrev pub no_options : OptionDescriptions
no_options = record { descriptions = []; option_keys = []; options = []; positional = none }

abbrev pub dashed : Text → Text
dashed o = if length o == 1 then codes "-" ++ o else codes "--" ++ o

unfoldable pub argument_keys : List Text → List Text
argument_keys [] = []
argument_keys (o ∷ os) = dashed o ∷ argument_keys os

-- `addOption`.
unfoldable pub add_option : OptionInterface → OptionDescriptions → OptionDescriptions
unfolding argument_keys
add_option o d = record d {
  descriptions = d.descriptions ++ o ∷ [];
  option_keys =
      d.option_keys ++ ((codes "--" ++ o.identifying_option) ∷ argument_keys o.argument_options);
  options = OrderedMap.emplace o.identifying_option o d.options;
}

unfoldable pub set_positional_argument : OptionInterface → OptionDescriptions → OptionDescriptions
set_positional_argument o d = record d { positional = some o.identifying_option }

-- The values that the three classes put in place of the old ones; `none` where `as` throws.
unfoldable pub read_option : OptionType → Option Value → Option (List Text)
read_option switch none = some (codes "0" ∷ [])
read_option switch (some (bool_value b)) = some ((if b then codes "1" else codes "0") ∷ [])
read_option switch (some _) = none
read_option single (some (text_value v)) = some (v ∷ [])
read_option single _ = none
read_option multitoken (some (texts_value vs)) = some vs
read_option multitoken _ = none

-- `toMap` of an option; its result is not looked at.
unfoldable pub option_to_map : OptionInterface → Map Value → SettingsNode → SettingsNode
unfolding read_option
option_to_map o options_map variables_map =
    elim (read_option o.type (OrderedMap.find o.identifying_option options_map))
      as (λ _. SettingsNode) [
        | none ↦ variables_map
        | some vs ↦ replace (o.identifying_option ∷ []) vs variables_map
      ]

-- The loop of `toMap` over the options that were given.
unfoldable pub to_map_from :
    Map OptionInterface → Map Value → Map Value → SettingsNode → SettingsNode
unfolding option_to_map
to_map_from options options_map [] variables_map = variables_map
to_map_from options options_map ((k, v) ∷ given) variables_map =
    to_map_from options options_map given (elim (OrderedMap.find k options) as (λ _. SettingsNode) [
      | none ↦ variables_map
      | some o ↦ option_to_map o options_map variables_map
    ])

-- The parser of boost::program_options: for the options that were added to the description, of which
-- several can have the same name, the positional option, whether others are allowed and the arguments,
-- the values found, or `none` where it throws.
abbrev pub Parser : Type 0
Parser = List OptionInterface → Option Text → Bool → List Text → Option (Map Value)

-- `getOptionsMap`.
unfoldable pub get_options_map :
    Parser → OptionDescriptions → List Text → Bool → SettingsNode → Option SettingsNode
unfolding to_map_from
get_options_map parse d argv allow_unregistered variables_map = do
  options_map ← parse d.descriptions d.positional allow_unregistered argv
  some (to_map_from d.options options_map options_map variables_map)
