-- ===== src/Platform.antt =====
-- What the program takes from Boost and from the operating system, as the operations that it calls
-- and the documented behaviour that the theorems use.
use exec_helper.Prelude.{Text, ℕ, [], ◌∷◌, ◌++◌, Option, Bool, true, false, ◌≡◌, ◌≢◌, ◌&&◌, ◌==◌}

-- `s` begins with `t`.
unfoldable pub starts_with : Text → Text → Bool
starts_with [] s = true
starts_with (a ∷ t) [] = false
starts_with (a ∷ t) (b ∷ s) = a == b && starts_with t s

pub record Platform : Type 0 where
  -- `std::filesystem::current_path` and `std::filesystem::absolute`.
  pub current_path : Text
  pub absolute : Text → Text
  -- `boost::algorithm::replace_all_copy(subject, needle, replacement)`: from left to right each
  -- occurrence of a needle that is not empty is replaced.
  pub replace_all : Text → Text → Text → Text
  pub replace_all-nil : (needle replacement : Text) → replace_all [] needle replacement ≡ []
  pub replace_all_hit :
      (rest needle replacement : Text)
      → needle ≢ []
      → replace_all (needle ++ rest) needle replacement
        ≡ replacement ++ replace_all rest needle replacement
  pub replace_all_skip :
      (c : ℕ) (rest needle replacement : Text)
      → starts_with needle (c ∷ rest) ≡ false
      → replace_all (c ∷ rest) needle replacement ≡ c ∷ replace_all rest needle replacement
  -- `boost::lexical_cast` from a string: to a string it copies.
  pub cast_string : Text → Text
  pub cast_string_lem : (s : Text) → cast_string s ≡ s
  -- `std::thread::hardware_concurrency`.
  pub hardware_concurrency : ℕ
  -- To a character and to a `uint32_t`; `none` where it throws `bad_lexical_cast`.
  pub cast_char : Text → Option ℕ
  pub cast_uint32 : Text → Option ℕ
