-- ===== src/Tests/SampleSystem.antt =====
-- A system to start processes in and to look for files in.
use exec_helper.Prelude.{
  Text, codes, text_eq, ◌<◌, List, [], ◌∷◌, ◌++◌, Option, none, some, true, false, not,
  if◌then◌else◌, length, ◌≡◌, arith, text_eq_refl,
}
use exec_helper.Platform.{starts_with}
use exec_helper.Files.{Files, Entry}
use exec_helper.Core.Shell.{Expansion, words, error, Processes, ProcessEnd, ended}

abbrev sample_expand : Text → Expansion
sample_expand t =
    if text_eq t (codes "$NOTHING")
    then words []
    else if text_eq t (codes "(")
    then error 6
    else words (t ∷ [])

abbrev sample_search : Text → List Text → Text
sample_search name paths = if text_eq name (codes "missing") then [] else codes "/bin/" ++ name

abbrev sample_start : Text → ProcessEnd
sample_start binary = if text_eq binary (codes "/bin/false") then ended 3 else ended 0

instance abbrev pub sample_processes : Processes
sample_processes = record {
  wordexp = λ s. sample_expand;
  environment = (codes "PATH", codes "/bin") ∷ [];
  path = codes "/bin" ∷ [];
  to_vector = λ t. t ∷ [];
  search_path = sample_search;
  is_relative = λ p. not (starts_with (codes "/") p);
  exists = λ s p. starts_with (codes "/bin/") p;
  start = λ s p. sample_start p.binary;
}

-- All directories stand directly below the root.
abbrev pub sample_parent : Text → Text
sample_parent [] = []
sample_parent (c ∷ p) = c ∷ []

pub sample_parent_shorter :
    (p : Text) → text_eq p (sample_parent p) ≡ false → length (sample_parent p) < length p
sample_parent_shorter [] h = absurd (ground (arith, h, text_eq_refl []))
sample_parent_shorter (c ∷ []) h = absurd (ground (arith, h, text_eq_refl (c ∷ [])))
sample_parent_shorter (c ∷ d ∷ p) h = omega arith

abbrev sample_entries : Text → Option (List Entry)
sample_entries p =
    if text_eq p (codes "/scripts")
    then some (
        record {
          path = codes "/scripts/fail.lua";
          is_regular_file = true;
          stem = codes "fail";
          extension = codes ".lua";
        }
        ∷ record {
          path = codes "/scripts/README";
          is_regular_file = true;
          stem = codes "README";
          extension = [];
        }
        ∷ [])
    else if text_eq p (codes "/other")
    then some (
        record {
          path = codes "/other/fail.lua";
          is_regular_file = true;
          stem = codes "fail";
          extension = codes ".lua";
        }
        ∷ [])
    else none

instance abbrev pub sample_files : Files
sample_files = record {
  is_relative = λ p. not (starts_with (codes "/") p);
  is_regular_file = λ p. false;
  exists = λ p. text_eq p (codes "/home/.exec-helper");
  join = λ p q. p ++ codes "/" ++ q;
  parent_path = sample_parent;
  parent_path_shorter = sample_parent_shorter;
  entries = sample_entries;
}
