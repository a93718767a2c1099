-- ===== src/Config/Argv/Lengths.antt =====
-- How long an argument src/config/src/argv.cpp takes over from the main function.
use exec_helper.Prelude.{
  Text, ℕ, zero, suc, [], ◌∷◌, none, some, false, ◌==◌, if◌then◌else◌, length, ◌≡◌, All, arith,
}
use exec_helper.Prelude.{leb}
use exec_helper.Config.Argv.{strnlen, strncpy, read, copy_argument, maximal_length}

-- A text without a null byte.
abbrev pub IsCString : Text → Type 0
IsCString = All (λ c. c == 0 ≡ false)

read-strncpy-strnlen :
    (t : Text) (most : ℕ)
    → IsCString t
    → read (strncpy (suc (strnlen t most)) t) ≡ (if leb (length t) most then some t else none)
unfolding read strncpy strnlen
read-strncpy-strnlen [] most h = ground arith
read-strncpy-strnlen (c ∷ t) zero (e, h) = rw e (ground arith)
read-strncpy-strnlen (c ∷ t) (suc most) (e, h) =
    rw (e, read-strncpy-strnlen t most h) (ground arith)

-- An argument of the main function without a null byte is copied whole if it has at most 256 bytes; the
-- copy of a longer one has no end: reading it leaves the buffer.
pub read-copy_argument :
    (t : Text)
    → IsCString t
    → read (copy_argument t) ≡ (if leb (length t) 256 then some t else none)
unfolding copy_argument
read-copy_argument t h = read-strncpy-strnlen t maximal_length h
