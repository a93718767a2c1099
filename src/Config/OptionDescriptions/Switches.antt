-- ===== src/Config/OptionDescriptions/Switches.antt =====
-- A switch that the parser finds on the command line, in src/config/src/optionDescriptions.cpp.
use exec_helper.Prelude.{
  Text, codes, text_eq, text_eq_sound, List, [], ◌∷◌, Option, none, some, true, false, is_some, ◌⊎◌,
  ◌≡◌, sym, ◌∙◌, subst, arith, Bool-cases, inl, inr,
}
use exec_helper.Platform.{Platform}
use exec_helper.OrderedMap.{Map, find}
use exec_helper.Config.SettingsNode.{SettingsNode, get_values, replace}
use exec_helper.Config.SettingsNode.Lookup.{get_values-values_at}
use exec_helper.Config.SettingsNode.Top.{
  IsDistinctTop, replace_single-IsDistinctTop, get_values-replace_single,
}
use exec_helper.Plugins.ExecutePlugin.Variables.{replace_first-ne}
use exec_helper.Config.OptionDescriptions.{
  OptionInterface, OptionType, switch, single, multitoken, Value, bool_value, read_option,
  option_to_map, to_map_from,
}

module _ ⦃sys : Platform⦄ (q : Text) (options_map : Map Value)
    (found : find q options_map ≡ some (bool_value true)) where
  -- The switch is on.
  abbrev pub On : SettingsNode → Type 0
  On m = get_values (q ∷ []) m ≡ some (codes "1" ∷ [])

  replace-On :
      (k : Text) (vs : List Text) (m : SettingsNode)
      → text_eq q k ≡ false
      → On m
      → On (replace (k ∷ []) vs m)
  replace-On k vs m ne h =
      get_values-values_at (q ∷ []) (replace (k ∷ []) vs m)
      ∙ replace_first-ne q k [] vs m ne
      ∙ sym (get_values-values_at (q ∷ []) m)
      ∙ h

  -- What `toMap` does with the values that it reads.
  abbrev stored : Option (List Text) → Text → SettingsNode → SettingsNode
  stored o k m = elim o as (λ _. SettingsNode) [ none ↦ m | some vs ↦ replace (k ∷ []) vs m ]

  stored-IsDistinctTop :
      (r : Option (List Text)) (k : Text) (m : SettingsNode)
      → IsDistinctTop m
      → IsDistinctTop (stored r k m)
  stored-IsDistinctTop none k m d = d
  stored-IsDistinctTop (some vs) k m d = replace_single-IsDistinctTop k vs m d

  stored_ne-On :
      (r : Option (List Text)) (k : Text) (m : SettingsNode)
      → text_eq q k ≡ false
      → On m
      → On (stored r k m)
  stored_ne-On none k m ne h = h
  stored_ne-On (some vs) k m ne h = replace-On k vs m ne h

  -- An option for the switch itself, of whatever type, stores that it is on, or nothing.
  stored_same-On :
      (type : OptionType) (m : SettingsNode)
      → IsDistinctTop m
      → On m
      → On (stored (read_option type (some (bool_value true))) q m)
  unfolding read_option
  stored_same-On switch m d h = get_values-replace_single q (codes "1" ∷ []) m d
  stored_same-On single m d h = h
  stored_same-On multitoken m d h = h

  option_to_map-IsDistinctTop :
      (o : OptionInterface) (m : SettingsNode)
      → IsDistinctTop m
      → IsDistinctTop (option_to_map o options_map m)
  unfolding option_to_map
  option_to_map-IsDistinctTop o m d = stored-IsDistinctTop _ o.identifying_option m d

  option_to_map-On :
      (o : OptionInterface) (m : SettingsNode)
      → IsDistinctTop m
      → On m
      → On (option_to_map o options_map m)
  unfolding option_to_map
  option_to_map-On o m d h = elim (Bool-cases (text_eq q o.identifying_option)) [
    | inl e ↦
        subst (λ k. On (stored (read_option o.type (find k options_map)) k m))
          (text_eq_sound q o.identifying_option e)
          (subst (λ v. On (stored (read_option o.type v) q m)) (sym found)
            (stored_same-On o.type m d h))
    | inr e ↦ stored_ne-On _ o.identifying_option m e h
  ]

  switch-On :
      (arguments : List Text) (m : SettingsNode)
      → IsDistinctTop m
      → On (
          option_to_map
            (record { identifying_option = q; argument_options = arguments; type = switch })
            options_map
            m)
  unfolding option_to_map read_option
  switch-On arguments m d =
      subst (λ v. On (stored (read_option switch v) q m)) (sym found)
        (get_values-replace_single q (codes "1" ∷ []) m d)

  module _ (options : Map OptionInterface) (arguments : List Text)
      (known : find q options
        ≡ some
            (record { identifying_option = q; argument_options = arguments; type = switch })) where
    abbrev entry : Option OptionInterface → SettingsNode → SettingsNode
    entry found_option m = elim found_option as (λ _. SettingsNode) [
      | none ↦ m
      | some o ↦ option_to_map o options_map m
    ]

    entry-IsDistinctTop :
        (found_option : Option OptionInterface) (m : SettingsNode)
        → IsDistinctTop m
        → IsDistinctTop (entry found_option m)
    entry-IsDistinctTop none m d = d
    entry-IsDistinctTop (some o) m d = option_to_map-IsDistinctTop o m d

    entry-On :
        (found_option : Option OptionInterface) (m : SettingsNode)
        → IsDistinctTop m
        → On m
        → On (entry found_option m)
    entry-On none m d h = h
    entry-On (some o) m d h = option_to_map-On o m d h

    -- A switch that is among the values left, or is stored already, is on after the loop.
    pub to_map_from-On :
        (given : Map Value) (m : SettingsNode)
        → IsDistinctTop m
        → (is_some (find q given) ≡ true) ⊎ On m
        → On (to_map_from options options_map given m)
    unfolding to_map_from find
    to_map_from-On [] m d (inl h) = absurd (ground (arith, h))
    to_map_from-On [] m d (inr h) = h
    to_map_from-On ((k, v) ∷ given) m d (inr h) =
        to_map_from-On given (entry (find k options) m) (entry-IsDistinctTop _ m d)
          (inr (entry-On _ m d h))
    to_map_from-On ((k, v) ∷ given) m d (inl h) = elim (Bool-cases (text_eq q k)) [
      | inl e ↦ to_map_from-On given (entry (find k options) m) (entry-IsDistinctTop _ m d) (
          inr (
            subst (λ k. On (entry (find k options) m)) (text_eq_sound q k e)
              (subst (λ o. On (entry o m)) (sym known) (switch-On arguments m d))))
      | inr e ↦
          to_map_from-On given (entry (find k options) m) (entry-IsDistinctTop _ m d)
            (inl (ground (arith, h, e)))
    ]
