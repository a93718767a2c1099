-- ===== src/Config/Patterns/Reading.antt =====
-- What the map of patterns and the reading of patterns from the settings promise.
use exec_helper.Prelude.{
  Text, text_eq, text_eq_refl, text_eq_iff, ℕ, List, [], ◌∷◌, Option, none, some, true, false,
  if◌then◌else◌, ◌>>=◌, value_or, is_some, is_empty, ◌≡◌, ◌⊎◌, refl, ◌∙◌, ap, All, arith,
  Option-cases, inl, inr,
}
use exec_helper.Platform.{Platform}
use exec_helper.Config.SettingsNode.{
  SettingsNode, node, null, collection, Nodes, nil, cons, key, leaf, has_key, find_node, keys_of,
  at_key, contains, at, values, get_values, clear, overwrite, get_string, get_char,
}
use exec_helper.Config.SettingsNode.Lookup.{
  has_key-find_node, values_at, get_last-values_at, values_at-cons, contains_single,
  get_values-values_at,
}
use exec_helper.OrderedMap
use exec_helper.OrderedMap.{Map, find, IsSorted}
use exec_helper.OrderedMap.Laws.{find-emplace, emplace-IsSorted}
use exec_helper.Config.Patterns.{
  Pattern, Patterns, PatternsHandler, build_pattern, keep_pattern, add_patterns, make_handler,
  contains_pattern, get_pattern, default_values_key, short_option_key, long_option_key,
  patterns_key, default_pattern_map, to_pattern, process_keys, process_patterns, parse_settings,
}
use exec_helper.Config.SettingsNode.Removal.{IsDistinct, clear-contains, get_values-clear_ne}
use exec_helper.Config.SettingsNode.Assignment.{overwrite-get_values}

-- The first pattern with a key.
abbrev pub first_pattern : Text → Patterns → Option Pattern
first_pattern k [] = none
first_pattern k (p ∷ ps) = if text_eq k p.key then some p else first_pattern k ps

abbrev or_pattern : Option Pattern → Option Pattern → Option Pattern
or_pattern none q = q
or_pattern (some p) q = some p

add_patterns-find :
    (k : Text) (ps : Patterns) (handler : PatternsHandler)
    → IsSorted handler
    → find k (add_patterns ps handler) ≡ or_pattern (find k handler) (first_pattern k ps)
unfolding add_patterns
add_patterns-find k [] handler s = ground arith
add_patterns-find k (p ∷ ps) handler s =
    rw
      (
        add_patterns-find k ps _ (emplace-IsSorted p.key p handler s),
        find-emplace k p.key p handler s,
      )
      (ground (arith, text_eq_iff k p.key))

-- A handler that is built from patterns contains a key exactly when one of them has it, and returns
-- the first that does: a later pattern with the same key is ignored.
pub make_handler-get_pattern :
    (k : Text) (ps : Patterns)
    → (get_pattern k (make_handler ps) ≡ first_pattern k ps)
      × (contains_pattern k (make_handler ps) ≡ is_some (first_pattern k ps))
unfolding make_handler get_pattern contains_pattern OrderedMap.contains
make_handler-get_pattern k ps =
    let e = add_patterns-find k ps [] tt in (unfold find in e, unfold find in ap is_some e)

-- A key that is listed leads to a child.
keys_of-find_node :
    (ns ms : Nodes)
    → ((k : Text) → has_key k ns ≡ true → is_some (find_node k ms) ≡ true)
    → All (λ k. is_some (find_node k ms) ≡ true) (keys_of ns)
keys_of-find_node nil ms h = tt
keys_of-find_node (cons n ns) ms h =
    (h (key n) (rw text_eq_refl), keys_of-find_node ns ms (λ k e. h k (ground arith)))

pub values-at_key :
    (n : SettingsNode) → All (λ k. is_some (at_key k n) ≡ true) (value_or (values n) [])
values-at_key (node k null) = tt
values-at_key (node k (collection ns)) =
    keys_of-find_node ns ns (λ j e. rw (← has_key-find_node j ns) e)

abbrev if_some : Option (List Text) → Option (List Text)
if_some o = if is_some o then o else none

if_some_lem : (o : Option (List Text)) → if_some o ≡ o
if_some_lem none = refl
if_some_lem (some vs) = refl

keep_pattern-build_pattern :
    (k : Text) (o : Option (List Text)) (short : Option ℕ) (long : Option Text) (ps : Patterns)
    → All (λ p. is_empty p.values ≡ false) ps
    → All (λ p. is_empty p.values ≡ false) (keep_pattern (build_pattern k o short long) ps)
keep_pattern-build_pattern k none short long ps h = h
keep_pattern-build_pattern k (some []) short long ps h = h
keep_pattern-build_pattern k (some (v ∷ vs)) short long ps h = (refl, h)

module _ ⦃sys : Platform⦄ where
  get_values-overwrite-leaf :
      (j k : Text) (source : SettingsNode)
      → values_at (j ∷ []) (overwrite source (leaf k)) ≡ values_at (j ∷ []) source
  get_values-overwrite-leaf j k source =
      rw
        (
          ← get_values-values_at (j ∷ []) (overwrite source (leaf k)),
          ← get_values-values_at (j ∷ []) source,
        )
        ((overwrite-get_values j [] source (leaf k)).1
          ∙ rw (get_values-values_at (j ∷ []) (leaf k), values_at-cons j [] (leaf k))
              (if_some_lem (get_values (j ∷ []) source)))

  -- Overwriting the empty default map of a key with the settings of a pattern loses nothing.
  to_pattern-overwrite :
      (k : Text) (source : SettingsNode)
      → to_pattern k (overwrite source (default_pattern_map k)) ≡ to_pattern k source
  unfolding to_pattern get_char get_string
  to_pattern-overwrite k source = rw (
    get_values-values_at (default_values_key ∷ []) (overwrite source (leaf k)),
    get_values-values_at (default_values_key ∷ []) source,
    get_last-values_at (short_option_key ∷ []) (overwrite source (leaf k)),
    get_last-values_at (short_option_key ∷ []) source,
    get_last-values_at (long_option_key ∷ []) (overwrite source (leaf k)),
    get_last-values_at (long_option_key ∷ []) source,
    get_values-overwrite-leaf default_values_key k source,
    get_values-overwrite-leaf short_option_key k source,
    get_values-overwrite-leaf long_option_key k source,
  )

  -- The patterns that the settings of some keys describe, one after the other; a key without default
  -- values describes none.
  abbrev pub described : SettingsNode → List Text → Patterns
  described found [] = []
  described found (k ∷ ks) =
      keep_pattern (to_pattern k (value_or (at_key k found) (leaf k))) (described found ks)

  process_keys-described :
      (found : SettingsNode) (ks : List Text)
      → All (λ k. is_some (at_key k found) ≡ true) ks
      → process_keys found ks ≡ some (described found ks)
  unfolding process_keys
  process_keys-described found [] h = refl
  process_keys-described found (k ∷ ks) (here, h) = elim (Option-cases (at_key k found)) [
    | inl e ↦ ground arith
    | inr (c, e) ↦ rw (e, ◌>>=◌, process_keys-described found ks h, to_pattern-overwrite k c)
  ]

  described-filled :
      (found : SettingsNode) (ks : List Text)
      → All (λ p. is_empty p.values ≡ false) (described found ks)
  unfolding to_pattern
  described-filled found [] = tt
  described-filled found (k ∷ ks) = keep_pattern-build_pattern k _ _ _ _ (described-filled found ks)

  -- The node of the patterns, and the keys below it.
  abbrev pub pattern_keys : SettingsNode → List Text
  pattern_keys settings = value_or (get_values (patterns_key ∷ []) settings) []

  process_patterns-described :
      (settings found : SettingsNode)
      → at_key patterns_key settings ≡ some found
      → process_patterns settings ≡ some (described found (pattern_keys settings))
  unfolding process_patterns
  process_patterns-described settings found e =
      rw (contains_single patterns_key settings, e, ◌>>=◌)
        (process_keys-described found (pattern_keys settings) (
          rw
            (
              get_values-values_at (patterns_key ∷ []) settings,
              values_at-cons patterns_key [] settings,
              e,
              ◌>>=◌,
            )
            (unfold values_at at in values-at_key found)))

  missing_keys :
      (settings : SettingsNode) → at_key patterns_key settings ≡ none → pattern_keys settings ≡ []
  missing_keys settings e = rw (
    get_values-values_at (patterns_key ∷ []) settings,
    values_at-cons patterns_key [] settings,
    e,
  )

  process_patterns_missing :
      (settings : SettingsNode)
      → at_key patterns_key settings ≡ none
      → process_patterns settings ≡ some []
  unfolding process_patterns
  process_patterns_missing settings e = rw (contains_single patterns_key settings, e)

  -- Reading a settings tree without equal keys side by side never fails. The patterns are those that
  -- the node `patterns` describes, one for each of its keys with default values and none without that
  -- node; all have at least one value. In the remaining settings that node is gone, and nothing
  -- below another key has changed.
  pub parse_settings-described :
      (configuration : SettingsNode)
      → IsDistinct configuration
      → (result : Patterns × SettingsNode) × (parse_settings (some configuration)
          ≡ some (some result))
        × (result.0
            ≡ described
                (value_or (at_key patterns_key configuration) (leaf patterns_key))
                (pattern_keys configuration))
        × All (λ p. is_empty p.values ≡ false) result.0
        × (contains (patterns_key ∷ []) result.1 ≡ false)
        × ((j : Text) (js : List Text)
            → text_eq j patterns_key ≡ false
            → get_values (j ∷ js) result.1 ≡ get_values (j ∷ js) configuration)
  unfolding parse_settings
  parse_settings-described c d =
      let found = value_or (at_key patterns_key c) (leaf patterns_key) in
      (
        (described found (pattern_keys c), (clear (patterns_key ∷ []) c).0),
        run_from (Option-cases (at_key patterns_key c)),
        refl,
        described-filled found (pattern_keys c),
        (clear-contains patterns_key [] c d).1,
        λ j js h. get_values-clear_ne [] j patterns_key js [] c h,
      )
    where
      run_from :
          (at_key patterns_key c ≡ none)
            ⊎ ((found : SettingsNode) × (at_key patterns_key c ≡ some found))
          → parse_settings (some c)
            ≡ some (
                some (
                  described (value_or (at_key patterns_key c) (leaf patterns_key)) (pattern_keys c),
                  (clear (patterns_key ∷ []) c).0,
                ))
      run_from (inl e) = rw (process_patterns_missing c e, missing_keys c e)
      run_from (inr (found, e)) = rw (process_patterns-described c found e, e)
