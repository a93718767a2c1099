-- ===== src/Application/PatternOptions.antt =====
-- The options that src/applications/exec-helper.cpp adds for the patterns of a settings file.
use exec_helper.Prelude.{Text, text_eq, ℕ, [], ◌∷◌, Option, none, some, ◌≡◌, refl}
use exec_helper.Prelude.{
  text_eq_sound, Bool-cases, inl, inr, sym, ◌∙◌, List, ◌++◌, append_assoc, append-nil, ap,
}
use exec_helper.OrderedMap.{Map, find, emplace, IsSorted}
use exec_helper.OrderedMap.Laws.{find-emplace, emplace-IsSorted}
use exec_helper.Config.Patterns.{Patterns}
use exec_helper.Config.OptionDescriptions.{OptionInterface, OptionDescriptions, add_option}
use exec_helper.Application.{pattern_option, add_pattern_options}

find-emplace_present :
    {V : Type 0} (q k : Text) (v w : V) (m : Map V)
    → IsSorted m
    → find q m ≡ some w
    → find q (emplace k v m) ≡ some w
find-emplace_present q k v w m s e = find-emplace q k v m s ∙ elim (Bool-cases (text_eq q k)) [
  | inl b ↦ rw (b, sym (text_eq_sound q k b), e) refl
  | inr b ↦ rw (b, e)
]

-- An option is kept: the options stand in key order, and its identifying name still stands for it.
abbrev Keeps : Text → OptionInterface → OptionDescriptions → Type 0
Keeps k o d = IsSorted d.options × (find k d.options ≡ some o)

add_option-Keeps :
    (k : Text) (o new : OptionInterface) (d : OptionDescriptions)
    → Keeps k o d
    → Keeps k o (add_option new d)
unfolding add_option
add_option-Keeps k o new d (s, e) = (
  emplace-IsSorted new.identifying_option new d.options s,
  find-emplace_present k new.identifying_option new o d.options s e,
)

pattern_option-Keeps :
    (k : Text) (o : OptionInterface) (short : Option ℕ) (long : Option Text)
    (d : OptionDescriptions)
    → Keeps k o d
    → Keeps k o (pattern_option short long d)
unfolding pattern_option
pattern_option-Keeps k o short none d h = h
pattern_option-Keeps k o none (some long) d h = add_option-Keeps k o _ d h
pattern_option-Keeps k o (some short) (some long) d h = add_option-Keeps k o _ d h

add_pattern_options-Keeps :
    (k : Text) (o : OptionInterface) (ps : Patterns) (d : OptionDescriptions)
    → Keeps k o d
    → Keeps k o (add_pattern_options ps d)
unfolding add_pattern_options
add_pattern_options-Keeps k o [] d h = h
add_pattern_options-Keeps k o (p ∷ ps) d h =
    add_pattern_options-Keeps k o ps (pattern_option p.short_option p.long_option d)
      (pattern_option-Keeps k o p.short_option p.long_option d h)

-- The options that the patterns of a settings file add to options in key order never change which
-- option `toMap` uses for the name of an option that is there already.
pub add_pattern_options-find :
    (k : Text) (o : OptionInterface) (ps : Patterns) (d : OptionDescriptions)
    → IsSorted d.options
    → find k d.options ≡ some o
    → find k (add_pattern_options ps d).options ≡ some o
add_pattern_options-find k o ps d s e = (add_pattern_options-Keeps k o ps d (s, e)).1

pattern_option-descriptions :
    (short : Option ℕ) (long : Option Text) (d : OptionDescriptions)
    → (added : List OptionInterface) × ((pattern_option short long d).descriptions
        ≡ d.descriptions ++ added)
unfolding pattern_option add_option
pattern_option-descriptions short none d = ([], sym (append-nil d.descriptions))
pattern_option-descriptions none (some long) d = (_ ∷ [], refl)
pattern_option-descriptions (some short) (some long) d = (_ ∷ [], refl)

-- The patterns add options behind those that are there.
pub add_pattern_options-descriptions :
    (ps : Patterns) (d : OptionDescriptions)
    → (added : List OptionInterface) × ((add_pattern_options ps d).descriptions
        ≡ d.descriptions ++ added)
unfolding add_pattern_options
add_pattern_options-descriptions [] d = ([], sym (append-nil d.descriptions))
add_pattern_options-descriptions (p ∷ ps) d =
    let first = pattern_option-descriptions p.short_option p.long_option d in
    let rest =
      add_pattern_options-descriptions ps (pattern_option p.short_option p.long_option d) in
    (
      first.0 ++ rest.0,
      rest.1 ∙ ap (λ ds. ds ++ rest.0) first.1 ∙ append_assoc d.descriptions first.0 rest.0,
    )
