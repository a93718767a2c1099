-- ===== src/Config/Argv/Ownership.antt =====
-- Who releases the buffers of src/config/src/argv.cpp: `clear`, the assignments and the destructor, with
-- the addresses that are allocated and not released. A second release of an address is `none`.
pub mod Balance
use exec_helper.Prelude.{
  Text, ℕ, suc, List, [], ◌∷◌, ◌++◌, Option, none, some, Bool, true, false, ◌==◌, if◌then◌else◌,
  ◌>>=◌,
}
use exec_helper.Config.Argv.{Pointers, Buffer, argv_from_task, assign_argv, swap}

-- The next address, and the addresses that are in use.
pub record Heap : Type 0 where
  pub next : ℕ
  pub live : List ℕ

abbrev pub addresses : Pointers → List ℕ
addresses [] = []
addresses (none ∷ ps) = addresses ps
addresses (some b ∷ ps) = b.address ∷ addresses ps

-- `delete[]`.
unfoldable pub release : ℕ → List ℕ → Option (List ℕ)
release a [] = none
release a (b ∷ live) =
    let rest = release a live in if a == b then some live else (rest >>= λ r. some (b ∷ r))

-- The loop of `clear`, which is the destructor, too.
unfoldable pub clear_argv : Pointers → List ℕ → Option (List ℕ)
unfolding release
clear_argv [] live = some live
clear_argv (none ∷ ps) live = clear_argv ps live
clear_argv (some b ∷ ps) live = release b.address live >>= clear_argv ps

-- Two objects, and what is allocated.
pub record Objects : Type 0 where
  pub first : Pointers
  pub second : Pointers
  pub heap : Heap

-- The assignments: of a new object that is built from strings, of the first object to the second or
-- to itself, and of one that may be moved from.
pub data Operation : Type 0 where
  build : List Text → Operation
  copy_to_second : Operation
  copy_to_itself : Operation
  move_to_second : Operation

-- What was allocated is in use.
abbrev pub allocated : Pointers × ℕ → List ℕ → Pointers × Heap
allocated (ps, next) live = (ps, record { next = next; live = addresses ps ++ live })

unfoldable pub construct : List Text → Heap → Pointers × Heap
unfolding argv_from_task
construct ts heap = allocated (argv_from_task ts heap.next) heap.live

-- The object that is moved from gets the pointers of the other one, and releases them at its end if
-- it is a temporary.
unfoldable pub assign_new : List Text → Pointers → Heap → Option (Pointers × Heap)
unfolding construct clear_argv
assign_new ts first heap = do
  live ← clear_argv (swap (first, (construct ts heap).0)).1 (construct ts heap).1.live
  some (
    (swap (first, (construct ts heap).0)).0,
    record { next = (construct ts heap).1.next; live = live },
  )

-- The copy assignment: `deepCopy` clears first, unless an object is assigned to itself.
unfoldable pub assign_copy : Bool → Pointers → Pointers → Heap → Option (Pointers × Heap)
unfolding clear_argv assign_argv
assign_copy same argv other heap = if same then some (argv, heap) else (do
  live ← clear_argv argv heap.live
  copied ← assign_argv false argv other heap.next
  some (allocated copied live))

unfoldable pub operate : Operation → Objects → Option Objects
unfolding assign_new assign_copy
operate (build ts) o = do
  r ← assign_new ts o.first o.heap
  some (record o { first = r.0; heap = r.1 })
operate copy_to_second o = do
  r ← assign_copy false o.second o.first o.heap
  some (record o { second = r.0; heap = r.1 })
operate copy_to_itself o = do
  r ← assign_copy true o.first o.first o.heap
  some (record o { first = r.0; heap = r.1 })
operate move_to_second o =
    some (record o { first = (swap (o.second, o.first)).1; second = (swap (o.second, o.first)).0 })

unfoldable pub operate_all : List Operation → Objects → Option Objects
unfolding operate
operate_all [] o = some o
operate_all (x ∷ xs) o = operate x o >>= operate_all xs

unfoldable pub construct_two : List Text → List Text → Heap → Objects
unfolding construct
construct_two ts us heap =
    let one = construct ts heap in
    let two = construct us one.1 in record { first = one.0; second = two.0; heap = two.1 }

-- The destructors, of the second object first.
unfoldable pub destroy_two : Objects → Option (List ℕ)
unfolding clear_argv
destroy_two o = clear_argv o.second o.heap.live >>= clear_argv o.first
