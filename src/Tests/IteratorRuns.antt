-- ===== src/Tests/IteratorRuns.antt =====
-- The iterators over several collections, and documents, at concrete inputs.
use exec_helper.Prelude.{Text, codes, List, [], ◌∷◌, ◌++◌, some, true, ◌≡◌, refl, arith}
use exec_helper.Core.PermutationIterator.{
  new_iterator, visit, get_element_value, increment, at_end, restart, has_empty_collection,
  iterator_eq,
}
use exec_helper.Core.PermutationIterator.Product.{product}
use exec_helper.Core.PermutationIterator.Visit.{end_iterator, visit-product}
use exec_helper.Config.SettingsNode.{leaf}
use exec_helper.Yaml.{map_of, get_tree}
use exec_helper.Yaml.Documents.{elements_of, sequences_of, stored, get_tree-stored}
use exec_helper.Tests.Sample.{sample_platform}

abbrev modes : List Text
modes = codes "debug" ∷ codes "release" ∷ []

abbrev compilers : List Text
compilers = codes "gcc" ∷ codes "clang" ∷ []

visit-product_example :
    visit 5 (new_iterator modes (compilers ∷ [])) (end_iterator (compilers ∷ []))
    ≡ some (product (modes ∷ compilers ∷ []))
visit-product_example = visit-product 5 modes (compilers ∷ []) (omega arith)

visit_run :
    (visit 5 (new_iterator modes (compilers ∷ [])) (end_iterator (compilers ∷ []))
      ≡ some (
          (codes "debug" ∷ codes "gcc" ∷ [])
          ∷ (codes "debug" ∷ codes "clang" ∷ [])
          ∷ (codes "release" ∷ codes "gcc" ∷ [])
          ∷ (codes "release" ∷ codes "clang" ∷ [])
          ∷ []))
    × (visit 1 (new_iterator modes ([] ∷ [])) (end_iterator ([] ∷ [])) ≡ some [])
unfolding visit new_iterator iterator_eq get_element_value increment at_end restart
    has_empty_collection
visit_run = (refl, refl)

abbrev commands : List (Text × List Text)
commands =
    (codes "commands", codes "build" ∷ codes "test" ∷ []) ∷ (codes "build", codes "make" ∷ []) ∷ []

get_tree-stored_example :
    ((get_tree (map_of (elements_of commands)) (leaf (codes "exec-helper"))).0 ≡ true)
    × ((j : Text)
        → stored j (get_tree (map_of (elements_of commands)) (leaf (codes "exec-helper"))).1
          ≡ stored j (leaf (codes "exec-helper")) ++ sequences_of j commands)
get_tree-stored_example =
    get_tree-stored (codes "commands", codes "build" ∷ codes "test" ∷ [])
      ((codes "build", codes "make" ∷ []) ∷ []) (leaf (codes "exec-helper"))
