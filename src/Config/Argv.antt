-- ===== src/Config/Argv.antt =====
-- src/config/src/argv.cpp: the arguments of a program as C strings that an object owns. A pointer is the
-- address of a buffer, with the bytes that it holds; an address is new if it is the next one. Which
-- buffers are released is in Ownership. `none` is a read outside a buffer or a vector.
pub mod Copies
pub mod Lengths
pub mod Ownership
use exec_helper.Prelude.{
  Text, ℕ, zero, suc, ◌+◌, ◌-◌, List, [], ◌∷◌, Option, none, some, Bool, true, false, ◌&&◌, ◌==◌,
  if◌then◌else◌, length,
}
use exec_helper.Prelude.{◌>>=◌, ◌%◌, ◌^◌, get_elem?, leb}

pub record Buffer : Type 0 where
  pub address : ℕ
  pub bytes : List ℕ

abbrev pub Pointers : Type 0
Pointers = List (Option Buffer)

-- `strlen`, `strnlen` and `strncpy` of the C library; a source is given by the bytes before its end.
unfoldable pub strlen : List ℕ → Option ℕ
strlen [] = none
strlen (c ∷ bytes) = if c == 0 then some 0 else (strlen bytes >>= λ n. some (suc n))

unfoldable pub strnlen : Text → ℕ → ℕ
strnlen [] most = 0
strnlen (c ∷ s) zero = 0
strnlen (c ∷ s) (suc most) = let rest = strnlen s most in if c == 0 then 0 else suc rest

unfoldable pub strncpy : ℕ → Text → List ℕ
strncpy zero s = []
strncpy (suc n) [] = 0 ∷ strncpy n []
strncpy (suc n) (c ∷ s) =
    let copied = strncpy n s in if c == 0 then 0 ∷ strncpy n [] else c ∷ copied

-- The loop of the first two constructors, with what fills a buffer.
unfoldable pub new_buffers : (Text → List ℕ) → List Text → ℕ → Pointers × ℕ
new_buffers fill [] next = (none ∷ [], next)
new_buffers fill (arg ∷ args) next =
    let rest = new_buffers fill args (suc next) in
    (some (record { address = next; bytes = fill arg }) ∷ rest.0, rest.1)

-- The constructor from the arguments of the main function.
abbrev pub maximal_length : ℕ
maximal_length = 256

unfoldable pub copy_argument : Text → List ℕ
unfolding strncpy strnlen
copy_argument arg = strncpy (suc (strnlen arg maximal_length)) arg

unfoldable pub argv_from_main : List Text → ℕ → Pointers × ℕ
unfolding new_buffers copy_argument
argv_from_main argv next = new_buffers copy_argument argv next

-- The constructor from a collection of strings.
unfoldable pub argv_from_task : List Text → ℕ → Pointers × ℕ
unfolding new_buffers strncpy
argv_from_task task next = new_buffers (λ arg. strncpy (suc (length arg)) arg) task next

-- The loop of `deepCopy`, which ends at the first null pointer.
unfoldable pub deep_copy : Pointers → ℕ → Option (Pointers × ℕ)
unfolding strlen strncpy
deep_copy [] next = some (none ∷ [], next)
deep_copy (none ∷ others) next = some (none ∷ [], next)
deep_copy (some other ∷ others) next = do
  n ← strlen other.bytes
  rest ← deep_copy others (suc next)
  some (some (record { address = next; bytes = strncpy (suc n) other.bytes }) ∷ rest.0, rest.1)

-- The copy assignment, told whether the two objects are the same one.
unfoldable pub assign_argv : Bool → Pointers → Pointers → ℕ → Option (Pointers × ℕ)
unfolding deep_copy
assign_argv same argv other next = if same then some (argv, next) else deep_copy other next

-- `swap`, with which an object is moved: a new object has no pointers before.
abbrev pub swap : Pointers × Pointers → Pointers × Pointers
swap (a, b) = (b, a)

abbrev pub move : Pointers → Pointers × Pointers
move other = swap ([], other)

-- `getArgc`: a `size_t` has 64 bits.
unfoldable pub get_argc : Pointers → ℕ
get_argc argv = (length argv + (2 ^ 64 - 1)) % 2 ^ 64

unfoldable pub at_index : ℕ → Pointers → Option (Option Buffer)
unfolding get_argc
at_index index argv = if leb (get_argc argv) index then some none else get_elem? argv index

-- `operator==` compares the pointers.
unfoldable pub pointer_eq : Option Buffer → Option Buffer → Bool
pointer_eq none none = true
pointer_eq (some a) (some b) = a.address == b.address
pointer_eq _ _ = false

unfoldable pub argv_eq : Pointers → Pointers → Bool
unfolding pointer_eq
argv_eq [] [] = true
argv_eq (p ∷ ps) (q ∷ qs) = pointer_eq p q && argv_eq ps qs
argv_eq _ _ = false

-- What a reader of a C string sees, and the arguments up to the first null pointer.
unfoldable pub read : List ℕ → Option Text
read [] = none
read (c ∷ bytes) = if c == 0 then some [] else (read bytes >>= λ t. some (c ∷ t))

unfoldable pub texts : Pointers → Option (List Text)
unfolding read
texts [] = some []
texts (none ∷ ps) = some []
texts (some b ∷ ps) = read b.bytes >>= λ t. texts ps >>= λ ts. some (t ∷ ts)
