-- ===== src/Files.antt =====
-- What the program takes from `std::filesystem`.
use exec_helper.Prelude.{Text, text_eq, ◌<◌, List, Option, Bool, false, length, ◌≡◌}

-- An entry of a directory: whether it is a regular file, and the parts of its name.
pub record Entry : Type 0 where
  pub path : Text
  pub is_regular_file : Bool
  pub stem : Text
  pub extension : Text

pub record Files : Type 0 where
  pub is_relative : Text → Bool
  pub is_regular_file : Text → Bool
  pub exists : Text → Bool
  -- The operator `/` of paths.
  pub join : Text → Text → Text
  -- The parent of a path is shorter, but for a path that has none, which is its own parent.
  pub parent_path : Text → Text
  pub parent_path_shorter :
      (p : Text) → text_eq p (parent_path p) ≡ false → length (parent_path p) < length p
  -- The entries of a directory; `none` where `filesystem_error` is thrown.
  pub entries : Text → Option (List Entry)
