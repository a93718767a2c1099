-- ===== src/Config/FileSearch/Parents.antt =====
-- The directories above a path, of src/config/src/pathManipulation.cpp.
use exec_helper.Prelude.{
  Text, text_eq, text_eq_sound, ℕ, zero, suc, ◌<◌, List, [], ◌∷◌, some, true, false, length, ◌≡◌,
  refl, sym, arith, Bool-cases, inl, inr,
}
use exec_helper.Platform.{Platform}
use exec_helper.Files.{Files}
use exec_helper.Config.FileSearch.{parents_from, start_directory, get_all_parent_directories}

module _ ⦃files : Files⦄ where
  -- A list that starts with a path and goes from each path to its parent, up to the first path that is
  -- its own parent.
  abbrev pub Climbs : Text → List Text → Type 0
  Climbs path [] = ⊥
  Climbs path (p ∷ []) = (p ≡ path) × (text_eq path (files.parent_path path) ≡ true)
  Climbs path (p ∷ q ∷ ps) =
      (p ≡ path)
      × (text_eq path (files.parent_path path) ≡ false)
      × Climbs (files.parent_path path) (q ∷ ps)

  Climbs-cons :
      (path : Text) (ps : List Text)
      → text_eq path (files.parent_path path) ≡ false
      → Climbs (files.parent_path path) ps
      → Climbs path (path ∷ ps)
  Climbs-cons path [] ne c = absurd c
  Climbs-cons path (q ∷ ps) ne c = (refl, ne, c)

  parents_from-Climbs :
      (fuel : ℕ) (path : Text)
      → length path < fuel
      → (ps : List Text) × (parents_from fuel path ≡ some ps) × Climbs path ps
  unfolding parents_from
  parents_from-Climbs zero path h = absurd (omega arith)
  parents_from-Climbs (suc fuel) path h =
      elim (Bool-cases (text_eq path (files.parent_path path))) [
        | inl e ↦ (
          files.parent_path path ∷ [],
          rw e,
          (sym (text_eq_sound path (files.parent_path path) e), e),
        )
        | inr e ↦
            let rest =
              parents_from-Climbs fuel (files.parent_path path)
                (omega (arith, files.parent_path_shorter path e)) in
            (path ∷ rest.0, rw (e, rest.1), Climbs-cons path rest.0 e rest.2)
      ]

  module _ ⦃sys : Platform⦄ where
    -- The loop over the parents of a path ends. It gives the directory that it starts in, and each
    -- directory above it up to the root, from the nearest one on.
    pub get_all_parent_directories-Climbs :
        (path : Text)
        → (ps : List Text) × (get_all_parent_directories path ≡ some ps)
          × Climbs (start_directory path) ps
    unfolding get_all_parent_directories
    get_all_parent_directories-Climbs path =
        let start = start_directory path in
        parents_from-Climbs (suc (length start)) start (omega arith)
