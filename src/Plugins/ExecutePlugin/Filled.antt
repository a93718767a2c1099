-- ===== src/Plugins/ExecutePlugin/Filled.antt =====
-- When src/plugins/src/executePlugin.cpp finds the variables and the patterns of a command: no
-- optional without a value is read if what stands in the settings for the command has values.
use exec_helper.Prelude.{
  Text, List, [], ◌∷◌, Option, none, some, Bool, true, false, if◌then◌else◌, ◌>>=◌, is_some,
  is_empty, arith, ◌≡◌, refl, sym, ◌∙◌, ap, All,
}
use exec_helper.Platform.{Platform}
use exec_helper.OrderedMap.{find}
use exec_helper.OrderedMap
use exec_helper.Config.SettingsNode.{SettingsNode, contains, at, values, get_values}
use exec_helper.Config.SettingsNode.Lookup.{contains-at, values_at, get_values-values_at}
use exec_helper.Config.Patterns.{Patterns, Pattern, PatternsHandler, contains_pattern, get_pattern}
use exec_helper.Plugins.ExecutePlugin.{unknown_free, next_patterns, index, merge_variables}
use exec_helper.Plugins.ExecutePlugin.Variables.{index-override}

-- If there is something at a path, it has values.
abbrev pub Filled : ⦃sys : Platform⦄ → SettingsNode → List Text → Type 0
Filled settings ks = contains ks settings ≡ true → is_some (get_values ks settings) ≡ true

some_of : {A : Type 0} (o : Option A) → is_some o ≡ true → (a : A) × (o ≡ some a)
some_of none h = absurd (ground (arith, h))
some_of (some a) h = (a, refl)

unknown_free_total :
    (ks : List Text) (handler : PatternsHandler)
    → (ps : Patterns) × (unknown_free ks handler ≡ some ps)
unfolding unknown_free contains_pattern get_pattern OrderedMap.contains
unknown_free_total [] handler = ([], refl)
unknown_free_total (k ∷ ks) handler =
    let rest = unknown_free_total ks handler in go (find k handler) rest.0 rest.1
  where
    go :
        (found : Option Pattern) (ps : Patterns)
        → unknown_free ks handler ≡ some ps
        → (qs : Patterns) × ((if is_some found
              then (do p ← found; ps ← unknown_free ks handler; some (p ∷ ps))
              else unknown_free ks handler)
            ≡ some qs)
    go none ps e = (ps, e)
    go (some p) ps e = (p ∷ ps, rw e)

module _ ⦃sys : Platform⦄ where
  -- The patterns of a command are always found.
  pub next_patterns_total :
      (variables : SettingsNode) (handler : PatternsHandler)
      → (ps : Patterns) × (next_patterns variables handler ≡ some ps)
  unfolding next_patterns
  next_patterns_total variables handler = unknown_free_total _ handler

  index-Filled :
      (variables settings : SettingsNode) (ks : List Text)
      → is_empty ks ≡ false
      → contains ks settings ≡ true
      → is_some (get_values ks settings) ≡ true
      → (result : SettingsNode) × (index variables settings ks ≡ some result)
  unfolding values_at
  index-Filled variables settings ks ne c f =
      let depth = some_of (at ks settings) (sym (contains-at ks settings) ∙ c) in
      let vs = some_of (get_values ks settings) f in
      let found =
        index-override variables settings depth.0 ks vs.0 ne depth.1
          (sym (ap (λ o. o >>= values) depth.1) ∙ sym (get_values-values_at ks settings) ∙ vs.1) in
      (found.0, found.1)

  index_step-Filled :
      (variables settings : SettingsNode) (ks : List Text) (b : Bool)
      → is_empty ks ≡ false
      → contains ks settings ≡ b
      → (b ≡ true → is_some (get_values ks settings) ≡ true)
      → (result : SettingsNode) × ((if b then index variables settings ks else some variables)
          ≡ some result)
  index_step-Filled variables settings ks true ne c f =
      index-Filled variables settings ks ne c (f refl)
  index_step-Filled variables settings ks false ne c f = (variables, refl)

  -- The variables of a command are found if its paths are not empty and what stands at them has
  -- values.
  pub merge_variables-Filled :
      (paths : List (List Text)) (settings variables : SettingsNode)
      → All (λ ks. (is_empty ks ≡ false) × Filled settings ks) paths
      → (result : SettingsNode) × (merge_variables paths settings variables ≡ some result)
  unfolding merge_variables
  merge_variables-Filled [] settings variables h = (variables, refl)
  merge_variables-Filled (ks ∷ rest) settings variables h =
      let first = index_step-Filled variables settings ks _ h.0.0 refl h.0.1 in
      let others = merge_variables-Filled rest settings first.0 h.1 in
      (others.0, ap (λ o. o >>= merge_variables rest settings) first.1 ∙ others.1)
