-- ===== src/Log/Names.antt =====
-- The names of the log levels of src/log/src/logLevel.cpp name each level once.
use exec_helper.Prelude.{
  Text, text_eq, text_eq_sound, ℕ, zero, suc, List, [], ◌∷◌, Option, none, some, Bool, true, ◌&&◌,
  ◌==◌, ltb, ◌>>=◌, get_elem?, any, ◌≡◌, ◌≢◌, ◌↔◌, refl, sym, ap, subst, arith, Bool-cases,
  Option-cases, inl, inr,
}
use exec_helper.Log.{
  LogLevel, all_levels, test, trace, debug, info, warning, error, fatal, no_level, level_index,
  log_level_strings, index_of, level_at, constants, to_log_level, to_string, log_levels,
}

index_of_sound :
    (s : Text) (xs : List Text) (i : ℕ) → index_of s xs ≡ some i → get_elem? xs i ≡ some s
unfolding index_of
index_of_sound s [] i h = ground arith
index_of_sound s (x ∷ xs) i h = elim (Bool-cases (text_eq s x)) [
  | inl e ↦ ground (arith, text_eq_sound s x)
  | inr e ↦ elim (Option-cases (index_of s xs)) [
    | inl e' ↦ ground arith
    | inr (j, e') ↦
        subst (λ n. get_elem? (x ∷ xs) n ≡ some s) {x = suc j} (ground arith)
          (index_of_sound s xs j e')
  ]
]

same_index : (k l : LogLevel) → some k ≡ some l → level_index l ≡ level_index k
same_index k l h = ap (λ o. elim o as (λ _. ℕ) [ none ↦ 0 | some m ↦ level_index m ]) (sym h)

level_at_index : (i : ℕ) (l : LogLevel) → level_at i constants ≡ some l → level_index l ≡ i
unfolding level_at level_index
level_at_index zero l h = same_index all_levels l h
level_at_index (suc zero) l h = same_index test l h
level_at_index (suc (suc zero)) l h = same_index trace l h
level_at_index (suc (suc (suc zero))) l h = same_index debug l h
level_at_index (suc (suc (suc (suc zero)))) l h = same_index info l h
level_at_index (suc (suc (suc (suc (suc zero))))) l h = same_index warning l h
level_at_index (suc (suc (suc (suc (suc (suc zero)))))) l h = same_index error l h
level_at_index (suc (suc (suc (suc (suc (suc (suc zero))))))) l h = same_index fatal l h
level_at_index (suc (suc (suc (suc (suc (suc (suc (suc zero)))))))) l h = same_index no_level l h
level_at_index (suc (suc (suc (suc (suc (suc (suc (suc (suc i))))))))) l h = ground arith

read_name : (l : LogLevel) → (to_string l >>= to_log_level) ≡ some l
unfolding to_string to_log_level text_eq
read_name all_levels = refl
read_name test = refl
read_name trace = refl
read_name debug = refl
read_name info = refl
read_name warning = refl
read_name error = refl
read_name fatal = refl
read_name no_level = refl

read_level :
    (s : Text) (l : LogLevel) (o : Option ℕ)
    → index_of s log_level_strings ≡ o
    → (o >>= λ i. level_at i constants) ≡ some l
    → to_string l ≡ some s
unfolding to_string
read_level s l none e h = ground arith
read_level s l (some i) e h =
    subst (λ n. get_elem? log_level_strings n ≡ some s) (sym (level_at_index i l h))
      (index_of_sound s log_level_strings i e)

-- A text is read as a level exactly if it is the name of the level.
pub to_log_level_iff :
    (s : Text) (l : LogLevel) → (to_log_level s ≡ some l) ↔ (to_string l ≡ some s)
unfolding to_log_level
to_log_level_iff s l = (
  read_level s l (index_of s log_level_strings) refl,
  λ h. subst (λ o. (o >>= to_log_level) ≡ some l) h (read_name l),
)

abbrev pub IsListed : LogLevel → Type 0
IsListed l = any (λ m. level_index m == level_index l) log_levels ≡ true

abbrev restrictive : List LogLevel → Bool
restrictive [] = true
restrictive (k ∷ []) = true
restrictive (k ∷ l ∷ ls) = ltb (level_index l) (level_index k) && restrictive (l ∷ ls)

-- The list of the log levels goes from the most restrictive level to the least restrictive one. It has
-- each level but `test`.
pub log_levels_lem :
    (restrictive log_levels ≡ true) × ((l : LogLevel) → l ≢ test → IsListed l) × (¬ (IsListed test))
unfolding level_index
log_levels_lem = (
  refl,
  λ l. elim l as (λ l. l ≢ test → IsListed l) [
    | all_levels ↦ λ h. refl
    | test ↦ λ h. absurd (h refl)
    | trace ↦ λ h. refl
    | debug ↦ λ h. refl
    | info ↦ λ h. refl
    | warning ↦ λ h. refl
    | error ↦ λ h. refl
    | fatal ↦ λ h. refl
    | no_level ↦ λ h. refl
  ],
  λ h. ground arith,
)
