-- ===== src/Plugins/Internal/OptionHelpers/Stored.antt =====
-- What the helpers of src/plugins/include/plugins/verbosity.h store, they read again.
use exec_helper.Prelude.{
  Text, codes, text_eq, List, [], ◌∷◌, ◌++◌, Option, some, Bool, true, false, value_or, last, ◌||◌,
  ◌>>=◌, if◌then◌else◌, ◌≡◌, refl, sym, ◌∙◌, ap,
}
use exec_helper.Platform.{Platform}
use exec_helper.Core.Task.{Task, append}
use exec_helper.Config.SettingsNode.{SettingsNode, add, get_bool, get_values}
use exec_helper.Config.SettingsNode.Lookup.{get_values-values_at, get_last-values_at, last_value}
use exec_helper.Config.SettingsNode.Insertion.{get_values-add}
use exec_helper.Plugins.State.{Options}
use exec_helper.Plugins.Internal.Keys.{verbosity_key, yes_no}
use exec_helper.Plugins.Internal.OptionHelpers.{verbosity_variables, append_flag}

last-append : (xs : List Text) (d v : Text) → last d (xs ++ v ∷ []) ≡ v
last-append [] d v = refl
last-append (x ∷ xs) d v = last-append xs x v

last_value-append : (xs : List Text) (v : Text) → last_value (xs ++ v ∷ []) ≡ some v
last_value-append [] v = refl
last_value-append (x ∷ xs) v = ap some (last-append xs x v)

abbrev truth : Text → Option Bool
truth v = some (text_eq v (codes "yes") || text_eq v (codes "1") || text_eq v (codes "true"))

truth-yes_no : (b : Bool) → truth (yes_no b) ≡ some b
unfolding text_eq
truth-yes_no true = refl
truth-yes_no false = refl

module _ ⦃sys : Platform⦄ where
  get_bool-add :
      (ks : List Text) (b : Bool) (n : SettingsNode)
      → get_bool ks (add ks (yes_no b ∷ []) n) ≡ some b
  unfolding get_bool
  get_bool-add ks b n =
      ap (λ o. o >>= truth)
        (get_last-values_at ks (add ks (yes_no b ∷ []) n)
          ∙ ap (λ o. o >>= last_value)
              (sym (get_values-values_at ks (add ks (yes_no b ∷ []) n))
                ∙ get_values-add ks (yes_no b ∷ []) n)
          ∙ last_value-append (value_or (get_values ks n) []) (yes_no b))
      ∙ truth-yes_no b

  -- Whatever the variables have for the key before: after the verbosity of the options is stored, the
  -- flag is appended if and only if the options are verbose.
  pub append_flag-verbosity_variables :
      (flag : Text) (o : Options) (n : SettingsNode) (t : Task)
      → append_flag flag (verbosity_variables o n) t
        ≡ some (if o.verbosity then append flag t else t)
  unfolding append_flag verbosity_variables
  append_flag-verbosity_variables flag o n t = rw (get_bool-add (verbosity_key ∷ []) o.verbosity n)
