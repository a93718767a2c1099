-- ===== src/Plugins/ExecutePlugin/Variables.antt =====
-- Which variables the settings give a command, in `index` of src/plugins/src/executePlugin.cpp.
use exec_helper.Prelude.{
  Text, text_eq, List, [], ◌∷◌, some, Bool, true, false, if◌then◌else◌, ◌>>=◌, value_or, is_some,
  last, is_empty, ◌≡◌, refl, sym, ◌∙◌, ap, subst, All,
}
use exec_helper.Platform.{Platform}
use exec_helper.Config.SettingsNode.{
  SettingsNode, add, contains, at, at_key, values, replace, get_values,
}
use exec_helper.Platform.{Platform}
use exec_helper.Config.SettingsNode.{
  SettingsNode, at_key, contains, at, values, add, get_values, clear, replace,
}
use exec_helper.Config.SettingsNode.Lookup.{contains-at, values_at, get_values-values_at}
use exec_helper.Config.SettingsNode.Insertion.{get_values-add_ne}
use exec_helper.Config.SettingsNode.Removal.{get_values-clear_ne}
use exec_helper.Config.Patterns.Reading.{values-at_key}
use exec_helper.Plugins.ExecutePlugin.{assign_children, index}
use exec_helper.Plugins.ExecutePlugin.Children.{assign_children_lem, override_absent, values_at-nil}

pub replace_first-ne :
    ⦃sys : Platform⦄ (j k : Text) (js vs : List Text) (n : SettingsNode)
    → text_eq j k ≡ false
    → values_at (j ∷ js) (replace (k ∷ []) vs n) ≡ values_at (j ∷ js) n
unfolding replace
replace_first-ne j k js vs n ne =
    let cleared = if contains (k ∷ []) n then (clear (k ∷ []) n).0 else n in
    sym (get_values-values_at (j ∷ js) (add (k ∷ []) vs cleared))
    ∙ get_values-add_ne [] j k js [] vs cleared ne
    ∙ go (contains (k ∷ []) n)
    ∙ get_values-values_at (j ∷ js) n
  where
    go :
        (b : Bool)
        → get_values (j ∷ js) (if b then (clear (k ∷ []) n).0 else n) ≡ get_values (j ∷ js) n
    go true = get_values-clear_ne [] j k js [] n ne
    go false = refl

module _ ⦃sys : Platform⦄ where
  index-assign_children :
      (variables settings depth : SettingsNode) (ks names : List Text)
      → is_empty ks ≡ false
      → at ks settings ≡ some depth
      → values depth ≡ some names
      → index variables settings ks
        ≡ assign_children names depth (replace (last [] ks ∷ []) names variables)
  unfolding index values_at
  index-assign_children variables settings depth ks names ne e v =
      let c = contains-at ks settings ∙ ap is_some e in
      let g = get_values-values_at ks settings ∙ ap (λ o. o >>= values) e ∙ v in
      let g0 = get_values-values_at [] depth ∙ values_at-nil depth ∙ v in
      rw (c, ne, g, e, ◌>>=◌, g0)

  -- The settings at a path that is not empty, if there is something with values there, become
  -- variables: what they have for a key goes before what the variables had, and all else stays. Left
  -- out is the last key of the path itself, under which the keys found are put.
  pub index-override :
      (variables settings depth : SettingsNode) (ks names : List Text)
      → is_empty ks ≡ false
      → at ks settings ≡ some depth
      → values depth ≡ some names
      → (result : SettingsNode) × (index variables settings ks ≡ some result)
        × ((j : Text) (js : List Text)
            → text_eq j (last [] ks) ≡ false
            → get_values (j ∷ js) result ≡ (
                if is_some (get_values (j ∷ []) depth)
                then get_values (j ∷ js) depth
                else get_values (j ∷ js) variables))
  index-override variables settings depth ks names filled e v =
      let start = replace (last [] ks ∷ []) names variables in
      let rest = assign_children_lem names depth start (
        subst (λ o. All (λ k. is_some (at_key k depth) ≡ true) (value_or o [])) v
          (values-at_key depth)) in
      (
        rest.0,
        index-assign_children variables settings depth ks names filled e v ∙ rest.1,
        λ j js ne.
            rw
              (
                get_values-values_at (j ∷ js) rest.0,
                get_values-values_at (j ∷ []) depth,
                get_values-values_at (j ∷ js) depth,
                get_values-values_at (j ∷ js) variables,
              )
              (rest.2 j js
                ∙ override_absent j js depth start names v
                ∙ ap
                    (λ x.
                      if is_some (values_at (j ∷ []) depth) then values_at (j ∷ js) depth else x)
                    (replace_first-ne j (last [] ks) js names variables ne)),
      )
