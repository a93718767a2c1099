-- ===== src/Tests/VariableRuns.antt =====
-- The variables of a command at concrete inputs.
use exec_helper.Prelude.{
  Text, codes, text_eq, List, [], ◌∷◌, none, some, false, if◌then◌else◌, is_some, ◌≡◌, refl,
}
use exec_helper.Config.SettingsNode.{
  SettingsNode, node, collection, cons, nil, leaf, at, get_values, contains,
}
use exec_helper.Plugins.ExecutePlugin.{index}
use exec_helper.Plugins.ExecutePlugin.Variables.{index-override}
use exec_helper.Tests.Sample.{sample_platform}

abbrev tool : Text
tool = codes "tool"

abbrev pmd_name : Text
pmd_name = codes "pmd"

abbrev tool_node : Text → SettingsNode
tool_node v = node tool (collection (cons (leaf v) nil))

abbrev pmd_settings : SettingsNode
pmd_settings = node pmd_name (collection (cons (tool_node (codes "cpd")) nil))

abbrev settings : SettingsNode
settings = node (codes "root") (collection (cons pmd_settings (cons (leaf (codes "bare")) nil)))

abbrev defaults : SettingsNode
defaults = node pmd_name (collection (cons (tool_node (codes "none")) nil))

index-override_example :
    (result : SettingsNode) × (index defaults settings (pmd_name ∷ []) ≡ some result)
    × ((j : Text) (js : List Text)
        → text_eq j pmd_name ≡ false
        → get_values (j ∷ js) result ≡ (
            if is_some (get_values (j ∷ []) pmd_settings)
            then get_values (j ∷ js) pmd_settings
            else get_values (j ∷ js) defaults))
index-override_example =
    index-override defaults settings pmd_settings (pmd_name ∷ []) (tool ∷ []) refl
      (unfold at text_eq in refl) refl

index_run :
    (index defaults settings (codes "bare" ∷ []) ≡ none) × (index defaults settings [] ≡ none)
unfolding index contains get_values at text_eq
index_run = (refl, refl)
