-- ===== src/Config/FleetingOptions/Later.antt =====
-- A later option of src/config/src/fleetingOptions.cpp against the options before it.
use exec_helper.Prelude.{
  Text, text_eq, List, [], ◌∷◌, ◌++◌, some, false, ◌>>=◌, value_or, last, ◌≡◌, refl, sym, ◌∙◌, ap,
}
use exec_helper.Platform.{Platform}
use exec_helper.Config.SettingsNode.{SettingsNode, add, get_values, get_string, get_bool}
use exec_helper.Platform.{Platform}
use exec_helper.Config.SettingsNode.{SettingsNode, add, get_values, get_last, get_string, get_bool}
use exec_helper.Config.SettingsNode.Lookup.{
  values_at, get_last-values_at, last_value, get_values-values_at,
}
use exec_helper.Config.SettingsNode.Insertion.{get_values-add, get_values-add_ne}
use exec_helper.Config.FleetingOptions.{
  read_jobs, new_options, jobs_key, command_key, help_key, version_key, verbose_key, dry_run_key,
  keep_going_key, list_plugins_key, append_search_path_key, log_level_key, auto_complete_key,
}

module _ ⦃sys : Platform⦄ (k j : Text) (vs : List Text) (m : SettingsNode)
    (ne : text_eq k j ≡ false) where
  values_at-add_ne : values_at (k ∷ []) (add (j ∷ []) vs m) ≡ values_at (k ∷ []) m
  values_at-add_ne =
      sym (get_values-values_at (k ∷ []) (add (j ∷ []) vs m))
      ∙ get_values-add_ne [] k j [] [] vs m ne
      ∙ get_values-values_at (k ∷ []) m

  get_last-add_ne : get_last (k ∷ []) (add (j ∷ []) vs m) ≡ get_last (k ∷ []) m
  get_last-add_ne =
      get_last-values_at (k ∷ []) (add (j ∷ []) vs m)
      ∙ ap (λ o. o >>= last_value) values_at-add_ne
      ∙ sym (get_last-values_at (k ∷ []) m)

  get_string-add_ne : get_string (k ∷ []) (add (j ∷ []) vs m) ≡ get_string (k ∷ []) m
  unfolding get_string
  get_string-add_ne = ap (λ o. o >>= λ v. some (sys.cast_string v)) get_last-add_ne

  get_bool-add_ne : get_bool (k ∷ []) (add (j ∷ []) vs m) ≡ get_bool (k ∷ []) m
  unfolding get_bool
  get_bool-add_ne = rw get_last-add_ne

last-append : (x v : Text) (xs : List Text) → last x (xs ++ v ∷ []) ≡ v
last-append x v [] = refl
last-append x v (y ∷ xs) = last-append y v xs

last_value-append : (v : Text) (xs : List Text) → last_value (xs ++ v ∷ []) ≡ some v
last_value-append v [] = refl
last_value-append v (x ∷ xs) = ap some (last-append x v xs)

module _ ⦃sys : Platform⦄ where
  get_string-add :
      (k v : Text) (m : SettingsNode) → get_string (k ∷ []) (add (k ∷ []) (v ∷ []) m) ≡ some v
  unfolding get_string
  get_string-add k v m =
      ap (λ o. o >>= λ x. some (sys.cast_string x))
        (get_last-values_at (k ∷ []) (add (k ∷ []) (v ∷ []) m)
          ∙ ap (λ o. o >>= last_value)
              (sym (get_values-values_at (k ∷ []) (add (k ∷ []) (v ∷ []) m))
                ∙ get_values-add (k ∷ []) (v ∷ []) m)
          ∙ last_value-append v (value_or (get_values (k ∷ []) m) []))
      ∙ ap some (sys.cast_string_lem v)

  -- Adding a number of jobs to any options changes that number and no other option: the last number
  -- of jobs counts.
  pub new_options-add_jobs :
      (v : Text) (m : SettingsNode)
      → new_options (add (jobs_key ∷ []) (v ∷ []) m) ≡ record (new_options m) { jobs = read_jobs v }
  unfolding new_options text_eq
  new_options-add_jobs v m = rw (
    get_bool-add_ne help_key jobs_key (v ∷ []) m refl,
    get_bool-add_ne version_key jobs_key (v ∷ []) m refl,
    get_bool-add_ne verbose_key jobs_key (v ∷ []) m refl,
    get_bool-add_ne dry_run_key jobs_key (v ∷ []) m refl,
    get_bool-add_ne keep_going_key jobs_key (v ∷ []) m refl,
    get_bool-add_ne list_plugins_key jobs_key (v ∷ []) m refl,
    get_string-add_ne log_level_key jobs_key (v ∷ []) m refl,
    get_string-add_ne auto_complete_key jobs_key (v ∷ []) m refl,
    get_values-add_ne [] append_search_path_key jobs_key [] [] (v ∷ []) m refl,
    get_values-add_ne [] command_key jobs_key [] [] (v ∷ []) m refl,
    get_string-add jobs_key v m,
  )
