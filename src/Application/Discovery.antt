-- ===== src/Application/Discovery.antt =====
-- Which script a plugin name stands for, in src/applications/exec-helper.cpp.
use exec_helper.Prelude.{
  Text, text_eq, List, [], ◌∷◌, ◌++◌, Option, none, some, Bool, true, false, ◌&&◌, if◌then◌else◌,
  value_or, is_some, ◌≡◌, refl, ◌∙◌, ap, All, Option-cases, inl, inr,
}
use exec_helper.Files.{Files, Entry}
use exec_helper.OrderedMap.{find, assign, emplace}
use exec_helper.OrderedMap
use exec_helper.OrderedMap.Laws.{find-assign, find-emplace_absent}
use exec_helper.Plugins.State.{Plugin, Plugins}
use exec_helper.Application.{
  built_in_plugins, is_script, add_scripts, add_additional_search_paths, discover_from,
  discover_plugins,
}

-- The script of a name among the entries of a directory; two of one name cannot stand in one.
abbrev pub script_named : Text → List Entry → Option Text
script_named name [] = none
script_named name (e ∷ es) =
    let rest = script_named name es in
    if is_some rest then rest else if is_script e && text_eq name e.stem then some e.path else none

abbrev loaded : (Text → Plugin) → Option Text → Option Plugin → Option Plugin
loaded load none old = old
loaded load (some path) old = some (load path)

find-store :
    (name k : Text) (p : Plugin) (plugins : Plugins)
    → find name (if OrderedMap.contains k plugins then assign k p plugins else emplace k p plugins)
      ≡ (if text_eq name k then some p else find name plugins)
unfolding OrderedMap.contains
find-store name k p plugins = elim (Option-cases (find k plugins)) [
  | inl e ↦ rw (e, find-emplace_absent name k p plugins e)
  | inr (q, e) ↦ rw (e, find-assign name k p plugins)
]

find-add_scripts :
    (load : Text → Plugin) (name : Text) (es : List Entry) (plugins : Plugins)
    → find name (add_scripts load es plugins)
      ≡ loaded load (script_named name es) (find name plugins)
unfolding add_scripts
find-add_scripts load name [] plugins = refl
find-add_scripts load name (e ∷ es) plugins =
    find-add_scripts load name es _
    ∙ ap (loaded load (script_named name es)) (find-step (is_script e))
    ∙ loaded_rest (script_named name es) (is_script e && text_eq name e.stem)
  where
    find-step :
        (b : Bool)
        → find name (
            if b
            then (if OrderedMap.contains e.stem plugins
                then assign e.stem (load e.path) plugins
                else emplace e.stem (load e.path) plugins)
            else plugins)
          ≡ loaded load (if b && text_eq name e.stem then some e.path else none) (find name plugins)
    find-step true = find-store name e.stem (load e.path) plugins ∙ stored (text_eq name e.stem)
      where
        stored :
            (c : Bool)
            → (if c then some (load e.path) else find name plugins)
              ≡ loaded load (if c then some e.path else none) (find name plugins)
        stored true = refl
        stored false = refl
    find-step false = refl

    loaded_rest :
        (o : Option Text) (b : Bool)
        → loaded load o (loaded load (if b then some e.path else none) (find name plugins))
          ≡ loaded load
              (if is_some o then o else if b then some e.path else none)
              (find name plugins)
    loaded_rest none b = refl
    loaded_rest (some path) b = refl

discover_from-append :
    ⦃files : Files⦄ (load : Text → Plugin) (ps qs : List Text) (plugins : Plugins)
    → discover_from load (ps ++ qs) plugins ≡ discover_from load qs (discover_from load ps plugins)
unfolding discover_from
discover_from-append load [] qs plugins = refl
discover_from-append load (p ∷ ps) qs plugins = discover_from-append load ps qs _

module _ ⦃files : Files⦄ (load : Text → Plugin) (name base_path : Text) where
  abbrev pub resolve : Text → Text
  resolve path = if files.is_relative path then files.join base_path path else path

  -- The script of the name in a directory that is given as a search path.
  abbrev pub script_in : Text → Option Text
  script_in path = script_named name (value_or (files.entries (resolve path)) [])

  add_additional_search_paths-append :
      (base xs ys : List Text)
      → add_additional_search_paths base (xs ++ ys) base_path
        ≡ add_additional_search_paths (add_additional_search_paths base ys base_path) xs base_path
  unfolding add_additional_search_paths
  add_additional_search_paths-append base [] ys = refl
  add_additional_search_paths-append base (x ∷ xs) ys =
      ap (λ ps. ps ++ resolve x ∷ []) (add_additional_search_paths-append base xs ys)

  -- What the first of some search paths gives the name.
  find-discover_cons :
      (base : List Text) (path : Text) (paths : List Text) (plugins : Plugins)
      → find name
          (discover_from load (add_additional_search_paths base (path ∷ paths) base_path) plugins)
        ≡ loaded load (script_in path) (
            find name
              (discover_from load (add_additional_search_paths base paths base_path) plugins))
  unfolding add_additional_search_paths discover_from
  find-discover_cons base path paths plugins =
      ap (find name) (
        discover_from-append load (add_additional_search_paths base paths base_path)
          (resolve path ∷ []) plugins)
      ∙ find-add_scripts load name (value_or (files.entries (resolve path)) []) _

  find-discover_absent :
      (base paths : List Text) (plugins : Plugins)
      → All (λ path. script_in path ≡ none) paths
      → find name (discover_from load (add_additional_search_paths base paths base_path) plugins)
        ≡ find name (discover_from load base plugins)
  unfolding add_additional_search_paths
  find-discover_absent base [] plugins h = refl
  find-discover_absent base (path ∷ paths) plugins (e, h) =
      find-discover_cons base path paths plugins
      ∙ ap
          (λ o. loaded load o (
            find name
              (discover_from load (add_additional_search_paths base paths base_path) plugins)))
          e
      ∙ find-discover_absent base paths plugins h

  -- Of the search paths that are added, the first one in which a script has a name decides what plugin
  -- the name stands for, whatever the later ones, the paths before them and the built-in plugins say.
  pub discover_plugins-first :
      (base before after : List Text) (path script : Text)
      → All (λ path. script_in path ≡ none) before
      → script_in path ≡ some script
      → find name (
          discover_plugins load
            (add_additional_search_paths base (before ++ path ∷ after) base_path))
        ≡ some (load script)
  unfolding discover_plugins
  discover_plugins-first base before after path script h e =
      ap (λ ps. find name (discover_from load ps built_in_plugins))
        (add_additional_search_paths-append base before (path ∷ after))
      ∙ find-discover_absent (add_additional_search_paths base (path ∷ after) base_path) before
          built_in_plugins h
      ∙ find-discover_cons base path after built_in_plugins
      ∙ ap
          (λ o. loaded load o (
            find name (
              discover_from load (add_additional_search_paths base after base_path)
                built_in_plugins)))
          e
