-- ===== src/Tests/Sample.antt =====
-- A platform that meets what is asked of one.
use exec_helper.Prelude.{
  Text, codes, ℕ, zero, suc, ◌-◌, [], ◌∷◌, ◌++◌, Option, none, some, true, false, ◌&&◌, leb,
  if◌then◌else◌, length, ◌≡◌, ◌≢◌, refl, arith,
}
use exec_helper.Platform.{Platform, starts_with}

-- The first argument counts the bytes of an occurrence that are still to be passed over.
unfoldable pub replace_from : ℕ → Text → Text → Text → Text
replace_from skip [] needle replacement = []
replace_from (suc skip) (c ∷ s) needle replacement = replace_from skip s needle replacement
replace_from zero (c ∷ s) needle replacement =
    let found = replacement ++ replace_from (length needle - 1) s needle replacement in
    let other = c ∷ replace_from zero s needle replacement in
    if starts_with needle (c ∷ s) then found else other

starts_with_self : (t rest : Text) → starts_with t (t ++ rest) ≡ true
unfolding starts_with
starts_with_self [] rest = refl
starts_with_self (c ∷ t) rest = ground (arith, starts_with_self t rest)

replace_from-length :
    (t rest needle replacement : Text)
    → replace_from (length t) (t ++ rest) needle replacement
      ≡ replace_from 0 rest needle replacement
unfolding replace_from
replace_from-length [] rest needle replacement = refl
replace_from-length (c ∷ t) rest needle replacement = replace_from-length t rest needle replacement

length_less_one : (n : ℕ) → suc n - 1 ≡ n
length_less_one n = omega arith

pub replace_hit :
    (rest needle replacement : Text)
    → needle ≢ []
    → replace_from 0 (needle ++ rest) needle replacement
      ≡ replacement ++ replace_from 0 rest needle replacement
unfolding replace_from
replace_hit rest [] replacement ne = absurd (ne refl)
replace_hit rest (c ∷ t) replacement ne = rw (
  starts_with_self (c ∷ t) rest,
  length_less_one (length t),
  replace_from-length t rest (c ∷ t) replacement,
)

pub replace_from-nil : (needle replacement : Text) → replace_from 0 [] needle replacement ≡ []
unfolding replace_from
replace_from-nil needle replacement = refl

pub replace_skip :
    (c : ℕ) (rest needle replacement : Text)
    → starts_with needle (c ∷ rest) ≡ false
    → replace_from 0 (c ∷ rest) needle replacement ≡ c ∷ replace_from 0 rest needle replacement
unfolding replace_from
replace_skip c rest needle replacement h = rw h

abbrev one_byte : Text → Option ℕ
one_byte (c ∷ []) = some c
one_byte _ = none

abbrev one_digit : Text → Option ℕ
one_digit (c ∷ []) = if leb b'0' c && leb c b'9' then some (c - b'0') else none
one_digit _ = none

instance abbrev pub sample_platform : Platform
sample_platform = record {
  current_path = codes "/work";
  absolute = λ p. if starts_with (codes "/") p then p else codes "/work/" ++ p;
  replace_all = replace_from 0;
  replace_all-nil = replace_from-nil;
  replace_all_hit = replace_hit;
  replace_all_skip = replace_skip;
  cast_string = λ s. s;
  cast_string_lem = λ s. refl;
  hardware_concurrency = 4;
  cast_char = one_byte;
  cast_uint32 = one_digit;
}
