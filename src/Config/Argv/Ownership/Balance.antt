-- ===== src/Config/Argv/Ownership/Balance.antt =====
-- Every buffer of the objects of src/config/src/argv.cpp is released once.
use exec_helper.Prelude.{
  Text, ℕ, ◌+◌, ◌<◌, List, [], ◌∷◌, ◌++◌, none, some, true, false, ◌==◌, if◌then◌else◌, ◌≡◌, refl,
  sym, ap, arith, Bool-cases, inl, inr, All,
}
use exec_helper.Config.Argv.{Pointers, argv_from_task, assign_argv}
use exec_helper.Config.Argv.{texts}
use exec_helper.Config.Argv.Copies.{argv_from_task-read, deep_copy-read}
use exec_helper.Config.Argv.Lengths.{IsCString}
use exec_helper.Config.Argv.Ownership.{
  Heap, addresses, release, clear_argv, Objects, Operation, build, copy_to_second, copy_to_itself,
  move_to_second, construct, assign_new, assign_copy, operate, operate_all, construct_two,
  destroy_two,
}

unfoldable pub tally : ℕ → ℕ → ℕ
tally c a = if c == a then 1 else 0

-- How often an address is in use.
abbrev pub count : ℕ → List ℕ → ℕ
count c [] = 0
count c (a ∷ as') = tally c a + count c as'

count-append : (c : ℕ) (xs ys : List ℕ) → count c (xs ++ ys) ≡ count c xs + count c ys
count-append c [] ys = omega arith
count-append c (x ∷ xs) ys = omega (arith, count-append c xs ys)

eq_sound : (a b : ℕ) → a == b ≡ true → a ≡ b
eq_sound a b e = ground arith

eq_refl : (a : ℕ) → (a == a) ≡ true
eq_refl a = ground arith

tally_refl : (a : ℕ) → tally a a ≡ 1
unfolding tally
tally_refl a = rw (eq_refl a)

tally_ne : (a b : ℕ) → a == b ≡ false → tally a b ≡ 0
unfolding tally
tally_ne a b e = rw e

release-count :
    (a : ℕ) (live : List ℕ)
    → 0 < count a live
    → (rest : List ℕ) × (release a live ≡ some rest)
      × ((c : ℕ) → count c live ≡ tally c a + count c rest)
unfolding release
release-count a [] h = absurd (omega arith)
release-count a (b ∷ live) h = elim (Bool-cases (a == b)) [
  | inl e ↦ (live, rw e, λ c. ap (λ x. tally c x + count c live) (sym (eq_sound a b e)))
  | inr e ↦
      let found = release-count a live (omega (arith, h, tally_ne a b e)) in
      (b ∷ found.0, rw (e, found.1), λ c. omega (arith, found.2 c))
]

abbrev Balanced : Pointers → (ℕ → ℕ) → List ℕ → Type 0
Balanced ps others live = (c : ℕ) → count c live ≡ count c (addresses ps) + others c

-- What is cleared leaves what belongs to others.
clear_argv-count :
    (ps : Pointers) (others : ℕ → ℕ) (live : List ℕ)
    → Balanced ps others live
    → (rest : List ℕ) × (clear_argv ps live ≡ some rest) × ((c : ℕ) → count c rest ≡ others c)
unfolding clear_argv
clear_argv-count [] others live h = (live, refl, λ c. omega (arith, h c))
clear_argv-count (none ∷ ps) others live h = clear_argv-count ps others live h
clear_argv-count (some b ∷ ps) others live h =
    let first = release-count b.address live (omega (arith, h b.address, tally_refl b.address)) in
    let rest = clear_argv-count ps others first.0 (λ c. omega (arith, h c, first.2 c)) in
    (rest.0, rw first.1 rest.1, rest.2)

-- What the operations mean for the strings that the two objects stand for.
abbrev pub operate_texts : Operation → List Text × List Text → List Text × List Text
operate_texts (build ts) (first, second) = (ts, second)
operate_texts copy_to_second (first, second) = (first, first)
operate_texts copy_to_itself (first, second) = (first, second)
operate_texts move_to_second (first, second) = (second, first)

abbrev pub operate_all_texts : List Operation → List Text × List Text → List Text × List Text
operate_all_texts [] x = x
operate_all_texts (o ∷ os) x = operate_all_texts os (operate_texts o x)

abbrev pub IsValid : Operation → Type 0
IsValid (build ts) = All IsCString ts
IsValid o = Unit

-- The objects hold the strings, and what is in use are their buffers and what others have.
record Holds (others : ℕ → ℕ) (x : List Text × List Text) (o : Objects) : Type 0 where
  first : texts o.first ≡ some x.0
  second : texts o.second ≡ some x.1
  live :
      (c : ℕ)
      → count c o.heap.live
        ≡ count c (addresses o.first) + (count c (addresses o.second) + others c)

module _ (others : ℕ → ℕ) where
  build-Holds :
      (ts : List Text) (x : List Text × List Text) (o : Objects)
      → All IsCString ts
      → Holds others x o
      → (o' : Objects) × (operate (build ts) o ≡ some o') × Holds others (ts, x.1) o'
  unfolding operate assign_new construct
  build-Holds ts x o v h =
      let new = argv_from_task ts o.heap.next in
      let cleared =
        clear_argv-count o.first
          (λ c. count c (addresses new.0) + (count c (addresses o.second) + others c))
          (addresses new.0 ++ o.heap.live)
          (λ c. omega (arith, count-append c (addresses new.0) o.heap.live, h.live c)) in
      (
        record o { first = new.0; heap = record { next = new.1; live = cleared.0 } },
        rw cleared.1,
        record {
          first = argv_from_task-read ts o.heap.next v;
          second = h.second;
          live = cleared.2;
        },
      )

  copy-Holds :
      (x : List Text × List Text) (o : Objects)
      → Holds others x o
      → (o' : Objects) × (operate copy_to_second o ≡ some o') × Holds others (x.0, x.0) o'
  unfolding operate assign_copy assign_argv
  copy-Holds x o h =
      let cleared =
        clear_argv-count o.second (λ c. count c (addresses o.first) + others c) o.heap.live
          (λ c. omega (arith, h.live c)) in
      let copied = deep_copy-read o.first o.heap.next x.0 h.first in
      (
        record o {
          second = copied.0.0;
          heap = record { next = copied.0.1; live = addresses copied.0.0 ++ cleared.0 };
        },
        rw (cleared.1, copied.1),
        record {
          first = h.first;
          second = copied.2;
          live = λ c. omega (arith, count-append c (addresses copied.0.0) cleared.0, cleared.2 c);
        },
      )

  operate-Holds :
      (op : Operation) (x : List Text × List Text) (o : Objects)
      → IsValid op
      → Holds others x o
      → (o' : Objects) × (operate op o ≡ some o') × Holds others (operate_texts op x) o'
  unfolding operate assign_copy
  operate-Holds (build ts) x o v h = build-Holds ts x o v h
  operate-Holds copy_to_second x o v h = copy-Holds x o h
  operate-Holds copy_to_itself x o v h = (o, refl, h)
  operate-Holds move_to_second x o v h = (
    record o { first = o.second; second = o.first },
    refl,
    record { first = h.second; second = h.first; live = λ c. omega (arith, h.live c) },
  )

  operate_all-Holds :
      (ops : List Operation) (x : List Text × List Text) (o : Objects)
      → All IsValid ops
      → Holds others x o
      → (o' : Objects) × (operate_all ops o ≡ some o') × Holds others (operate_all_texts ops x) o'
  unfolding operate_all
  operate_all-Holds [] x o v h = (o, refl, h)
  operate_all-Holds (op ∷ ops) x o v h =
      let first = operate-Holds op x o v.0 h in
      let rest = operate_all-Holds ops (operate_texts op x) first.0 v.1 first.2 in
      (rest.0, rw first.1 rest.1, rest.2)

construct-Holds :
    (ts us : List Text) (heap : Heap)
    → All IsCString ts
    → All IsCString us
    → Holds (λ c. count c heap.live) (ts, us) (construct_two ts us heap)
unfolding construct construct_two
construct-Holds ts us heap v w =
    let one = argv_from_task ts heap.next in
    let two = argv_from_task us one.1 in
    record {
      first = argv_from_task-read ts heap.next v;
      second = argv_from_task-read us one.1 w;
      live = λ c. omega (
        arith,
        count-append c (addresses two.0) (addresses one.0 ++ heap.live),
        count-append c (addresses one.0) heap.live,
      );
    }

destroy-Holds :
    (others : ℕ → ℕ) (x : List Text × List Text) (o : Objects)
    → Holds others x o
    → (rest : List ℕ) × (destroy_two o ≡ some rest) × ((c : ℕ) → count c rest ≡ others c)
unfolding destroy_two
destroy-Holds others x o h =
    let second =
      clear_argv-count o.second (λ c. count c (addresses o.first) + others c) o.heap.live
        (λ c. omega (arith, h.live c)) in
    let first = clear_argv-count o.first others second.0 second.2 in
    (first.0, rw second.1 first.1, first.2)

-- Two objects are built from strings without null bytes and then assigned in any order: from new
-- such strings, from each other, to themselves, or by a move. No buffer is released twice, and each
-- object stands for the strings that were assigned to it. When both are destroyed, what is in use is
-- what was in use before.
pub operate_all-released :
    (ts us : List Text) (operations : List Operation) (heap : Heap)
    → All IsCString ts
    → All IsCString us
    → All IsValid operations
    → (o : Objects) × (operate_all operations (construct_two ts us heap) ≡ some o)
      × (texts o.first ≡ some (operate_all_texts operations (ts, us)).0)
      × (texts o.second ≡ some (operate_all_texts operations (ts, us)).1)
      × (rest : List ℕ) × (destroy_two o ≡ some rest)
      × ((c : ℕ) → count c rest ≡ count c heap.live)
operate_all-released ts us operations heap v w valid =
    let others = λ (c : ℕ). count c heap.live in
    let ran =
      operate_all-Holds others operations (ts, us) (construct_two ts us heap) valid
        (construct-Holds ts us heap v w) in
    let left = destroy-Holds others (operate_all_texts operations (ts, us)) ran.0 ran.2 in
    (ran.0, ran.1, ran.2.first, ran.2.second, left.0, left.1, left.2)
