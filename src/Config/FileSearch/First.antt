-- ===== src/Config/FileSearch/First.antt =====
-- Which file src/config/src/configFileSearcher.cpp finds.
use exec_helper.Prelude.{Text, List, [], ◌∷◌, ◌++◌, none, some, true, false, ◌≡◌, refl, All}
use exec_helper.Files.{Files}
use exec_helper.Config.FileSearch.{find_file}

module _ ⦃files : Files⦄ (filename : Text) where
  -- The file is in no directory of a list.
  abbrev pub IsAbsent : List Text → Type 0
  IsAbsent = All (λ d. files.exists (files.join d filename) ≡ false)

  -- The file of a name that is found is the one in the first directory that has it; it is found
  -- exactly if there is one.
  pub find_file-first :
      (before after : List Text) (d : Text)
      → IsAbsent before
      → (find_file filename before ≡ none)
        × (files.exists (files.join d filename) ≡ true
            → find_file filename (before ++ d ∷ after) ≡ some (files.join d filename))
  unfolding find_file
  find_file-first [] after d h = (refl, λ e. rw e)
  find_file-first (p ∷ before) after d (e, h) =
      let rest = find_file-first before after d h in (rw e rest.0, λ x. rw e (rest.1 x))
