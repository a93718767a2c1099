-- ===== src/Tests/SearchRuns.antt =====
-- The search for files and for scripts at concrete inputs.
use exec_helper.Prelude.{Text, codes, text_eq, List, [], ◌∷◌, some, ◌≡◌, refl}
use exec_helper.OrderedMap.{find}
use exec_helper.Platform.{starts_with}
use exec_helper.Plugins.State.{Plugin, lua, finish}
use exec_helper.Config.FileSearch.{parents_from, start_directory, get_all_parent_directories}
use exec_helper.Config.FileSearch.Parents.{Climbs, get_all_parent_directories-Climbs}
use exec_helper.Application.{add_additional_search_paths, is_script, discover_plugins}
use exec_helper.Application.Discovery.{discover_plugins-first}
use exec_helper.Tests.Sample.{sample_platform}
use exec_helper.Tests.SampleSystem.{sample_files}

get_all_parent_directories-Climbs_example :
    (ps : List Text) × (get_all_parent_directories (codes "src") ≡ some ps)
    × Climbs (start_directory (codes "src")) ps
get_all_parent_directories-Climbs_example = get_all_parent_directories-Climbs (codes "src")

get_all_parent_directories_run :
    get_all_parent_directories (codes "src") ≡ some (codes "/work/src" ∷ codes "/" ∷ [])
unfolding get_all_parent_directories start_directory parents_from starts_with text_eq
get_all_parent_directories_run = refl

abbrev load : Text → Plugin
load path = lua path (λ t variables ps. finish (record t { task = path ∷ [] } ∷ []))

discover_plugins-first_example :
    find (codes "fail") (
      discover_plugins load (
        add_additional_search_paths
          (codes "/scripts" ∷ [])
          (codes "empty" ∷ codes "/other" ∷ codes "/scripts" ∷ [])
          (codes "/base")))
    ≡ some (load (codes "/other/fail.lua"))
discover_plugins-first_example =
    discover_plugins-first load (codes "fail") (codes "/base") (codes "/scripts" ∷ [])
      (codes "empty" ∷ []) (codes "/scripts" ∷ []) (codes "/other") (codes "/other/fail.lua")
      (unfold starts_with text_eq in refl, tt) (unfold starts_with text_eq is_script in refl)
