-- ===== src/Core/Task/Environment.antt =====
-- The environment of a task after each operation, and that it tells the working directory.
use exec_helper.Prelude.{
  Text, text_eq, text_eq_refl, text_eq_iff, List, [], ◌∷◌, some, false, if◌then◌else◌, ◌≡◌, refl,
  ◌∙◌, arith, Bool-cases, Option-cases, inl, inr,
}
use exec_helper.Platform.{Platform}
use exec_helper.OrderedMap.{Map, find, contains, emplace, erase, IsSorted}
use exec_helper.OrderedMap.Laws.{
  find-emplace, find-erase, emplace-IsSorted, erase-IsSorted, find-Above,
}
use exec_helper.Core.Task.{
  EnvironmentCollection, Task, pwd_key, append_to_environment, append_all_to_environment, append,
  append_all, set_working_directory, set_environment, make_task,
}

-- The environment is sorted, as a `std::map` is.
abbrev pub IsOrdered : Task → Type 0
IsOrdered t = IsSorted t.env

-- The two steps of `append_to_environment` together replace the entry.
replace_entry-find :
    (q k v : Text) (m : Map Text)
    → IsSorted m
    → find q (emplace k v (if contains k m then erase k m else m))
      ≡ (if text_eq q k then some v else find q m)
unfolding contains
replace_entry-find q k v m s = elim (Option-cases (find k m)) [
  | inl e ↦ rw e (rw (find-emplace q k v m s, e))
  | inr (w, e) ↦ rw e (
      rw
        (
          find-emplace q k v (erase k m) (erase-IsSorted k m s),
          find-erase k k m s,
          find-erase q k m s,
          text_eq_refl k,
        )
        (ground arith))
]

replace_entry-IsSorted :
    (k v : Text) (m : Map Text)
    → IsSorted m
    → IsSorted (emplace k v (if contains k m then erase k m else m))
replace_entry-IsSorted k v m s = elim (Bool-cases (contains k m)) [
  | inl e ↦ rw e (emplace-IsSorted k v (erase k m) (erase-IsSorted k m s))
  | inr e ↦ rw e (emplace-IsSorted k v m s)
]

-- Adding a value to the environment of a task shows it at its key, whether or not the key was there,
-- and changes no other key, not the arguments and not the working directory.
pub append_to_environment-find :
    (k v : Text) (t : Task)
    → IsOrdered t
    → let t' = append_to_environment k v t in
      IsOrdered t'
      × ((q : Text) → find q t'.env ≡ (if text_eq q k then some v else find q t.env))
      × (t'.task ≡ t.task)
      × (t'.working_directory ≡ t.working_directory)
unfolding append_to_environment
append_to_environment-find k v t s =
    (replace_entry-IsSorted k v t.env s, λ q. replace_entry-find q k v t.env s, refl, refl)

-- Adding a collection shows each of its values, and otherwise what was there; the arguments and the
-- working directory stay.
pub append_all_to_environment-find :
    (values : EnvironmentCollection) (t : Task)
    → IsSorted values
    → IsOrdered t
    → let t' = append_all_to_environment values t in
      IsOrdered t'
      × ((q : Text) → find q t'.env ≡ (if contains q values then find q values else find q t.env))
      × (t'.task ≡ t.task)
      × (t'.working_directory ≡ t.working_directory)
unfolding append_all_to_environment find contains
append_all_to_environment-find [] t sv s = (s, λ q. refl, refl, refl)
append_all_to_environment-find ((k, v) ∷ values) t (a, sv) s =
    let one = append_to_environment-find k v t s in
    let rest = append_all_to_environment-find values (append_to_environment k v t) sv one.0 in
    (
      rest.0,
      λ q. rw (rest.1 q, one.1 q) (ground (arith, text_eq_iff q k, find-Above k values a)),
      rest.2 ∙ one.2,
      rest.3 ∙ one.3,
    )

module _ ⦃sys : Platform⦄ where
  -- `PWD` is the working directory.
  pub record IsConsistent (t : Task) : Type 0 where
    pub ordered : IsOrdered t
    pub pwd : find pwd_key t.env ≡ some (sys.absolute t.working_directory)

  -- Setting the directory makes any ordered task consistent and changes no other variable.
  pub set_working_directory-IsConsistent :
      (dir : Text) (t : Task)
      → IsOrdered t
      → let t' = set_working_directory dir t in
        IsConsistent t'
        × (t'.working_directory ≡ dir)
        × (t'.task ≡ t.task)
        × ((q : Text) → text_eq q pwd_key ≡ false → find q t'.env ≡ find q t.env)
  unfolding set_working_directory
  set_working_directory-IsConsistent dir t s =
      let e =
        append_to_environment-find pwd_key (sys.absolute dir) (record t { working_directory = dir })
          s in
      (
        record { ordered = e.0; pwd = rw (e.1 pwd_key, text_eq_refl pwd_key, e.3) },
        e.3,
        e.2,
        λ q ne. rw (e.1 q, ne),
      )

  -- A task is consistent from its construction on, whatever environment it is given; replacing the
  -- environment makes it so again; and adding arguments, or a variable other than `PWD`, keeps it.
  pub operations-IsConsistent :
      (subtasks parts : List Text) (env : EnvironmentCollection) (dir part k v : Text) (t : Task)
      → IsSorted env
      → IsConsistent t
      → text_eq pwd_key k ≡ false
      → IsConsistent (make_task subtasks env dir)
        × IsConsistent (set_environment env t)
        × IsConsistent (append part t)
        × IsConsistent (append_all parts t)
        × IsConsistent (append_to_environment k v t)
  unfolding make_task set_environment append append_all
  operations-IsConsistent subtasks parts env dir part k v t s c ne =
      let e = append_to_environment-find k v t c.ordered in
      (
        (set_working_directory-IsConsistent dir
            (record { task = subtasks; env = env; working_directory = dir }) s).0,
        (set_working_directory-IsConsistent t.working_directory (record t { env = env }) s).0,
        record { ordered = c.ordered; pwd = c.pwd },
        record { ordered = c.ordered; pwd = c.pwd },
        record { ordered = e.0; pwd = rw (e.1 pwd_key, ne, e.3) c.pwd },
      )
