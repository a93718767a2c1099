-- ===== src/Config/FileSearch.antt =====
-- src/config/src/configFileSearcher.cpp and src/config/src/pathManipulation.cpp: the search for a file
-- in a list of directories, and the directories above a path.
pub mod Parents
pub mod First
use exec_helper.Prelude.{
  Text, codes, text_eq, ℕ, zero, suc, List, [], ◌∷◌, Option, none, some, if◌then◌else◌, ◌>>=◌,
  length,
}
use exec_helper.Platform.{Platform}
use exec_helper.Files.{Files}
use exec_helper.OrderedMap
use exec_helper.Core.Task.{EnvironmentCollection}

abbrev pub home_dir_key : Text
home_dir_key = codes "HOME"

-- `getHomeDirectory`.
unfoldable pub get_home_directory : EnvironmentCollection → Option Text
get_home_directory env =
    if OrderedMap.contains home_dir_key env then OrderedMap.find home_dir_key env else none

module _ ⦃files : Files⦄ where
  -- `ConfigFileSearcher::find`.
  unfoldable pub find_file : Text → List Text → Option Text
  find_file filename [] = none
  find_file filename (search_path ∷ search_paths) =
      let path_to_check = files.join search_path filename in
      let rest = find_file filename search_paths in
      if files.exists path_to_check then some path_to_check else rest

  -- The loop of `getAllParentDirectories`, on fuel.
  unfoldable pub parents_from : ℕ → Text → Option (List Text)
  parents_from zero path = none
  parents_from (suc fuel) path =
      let rest = parents_from fuel (files.parent_path path) in
      if text_eq path (files.parent_path path)
      then some (files.parent_path path ∷ [])
      else (rest >>= λ paths. some (path ∷ paths))

  module _ ⦃sys : Platform⦄ where
    -- The directory that the loop starts in.
    unfoldable pub start_directory : Text → Text
    start_directory path =
        let path' = if files.is_relative path then sys.absolute path else path in
        if files.is_regular_file path' then files.parent_path path' else path'

    -- `getAllParentDirectories`.
    unfoldable pub get_all_parent_directories : Text → Option (List Text)
    unfolding start_directory parents_from
    get_all_parent_directories path =
        let start = start_directory path in parents_from (suc (length start)) start
