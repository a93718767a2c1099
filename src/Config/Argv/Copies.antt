-- ===== src/Config/Argv/Copies.antt =====
-- What an object of src/config/src/argv.cpp that is built from strings, or copied, holds.
use exec_helper.Prelude.{
  Text, ℕ, suc, ◌<◌, List, [], ◌∷◌, Option, none, some, Bool, false, ◌==◌, if◌then◌else◌, length,
  is_empty, ◌≡◌, refl, All, arith,
}
use exec_helper.Prelude.{subst, value_or, ◌>>=◌, ◌^◌, Bool-cases, inl, inr, ap, ◌∙◌, sym}
use exec_helper.Config.Argv.{
  Pointers, strlen, strncpy, new_buffers, argv_from_task, deep_copy, get_argc, pointer_eq, argv_eq,
  read, texts,
}
use exec_helper.Config.Argv.Lengths.{IsCString}

read-strncpy : (t : Text) → IsCString t → read (strncpy (suc (length t)) t) ≡ some t
unfolding read strncpy
read-strncpy [] h = ground arith
read-strncpy (c ∷ t) (e, h) = rw (e, read-strncpy t h, e)

new_buffers-length :
    (fill : Text → List ℕ) (ts : List Text) (next : ℕ)
    → length (new_buffers fill ts next).0 ≡ suc (length ts)
unfolding new_buffers
new_buffers-length fill [] next = refl
new_buffers-length fill (t ∷ ts) next = ap suc (new_buffers-length fill ts (suc next))

pub argv_from_task-read :
    (ts : List Text) (next : ℕ) → All IsCString ts → texts (argv_from_task ts next).0 ≡ some ts
unfolding argv_from_task texts
argv_from_task-read [] next h = refl
argv_from_task-read (t ∷ ts) next (h, hs) =
    rw (read-strncpy t h, argv_from_task-read ts (suc next) hs)

-- The arguments that are given as strings without null bytes are read back from the object that is
-- built from them, and their number is what it says, if it is less than 2^64.
pub argv_from_task-texts :
    (ts : List Text) (next : ℕ)
    → All IsCString ts
    → length ts < 2 ^ 64
    → (texts (argv_from_task ts next).0 ≡ some ts)
      × (get_argc (argv_from_task ts next).0 ≡ length ts)
unfolding argv_from_task get_argc
argv_from_task-texts ts next h l =
    (argv_from_task-read ts next h, rw (new_buffers-length _ ts next) (omega (arith, l)))

pub bind_some :
    {A B : Type 0} (o : Option A) (f : A → Option B) (b : B)
    → (o >>= f) ≡ some b
    → (a : A) × (o ≡ some a) × (f a ≡ some b)
bind_some none f b e = absurd (ground arith)
bind_some (some a) f b e = (a, refl, e)

copy_more :
    (c : ℕ) (bytes : List ℕ) (o : Option ℕ)
    → c == 0 ≡ false
    → (o >>= λ n. read (strncpy (suc n) bytes)) ≡ read bytes
    → ((o >>= λ n. some (suc n)) >>= λ n. read (strncpy (suc n) (c ∷ bytes)))
      ≡ (read bytes >>= λ t. some (c ∷ t))
unfolding read strncpy
copy_more c bytes none z h = rw (sym h) refl
copy_more c bytes (some n) z h = rw (z, z, h)

-- Copying a C string with its end into a new buffer.
copy_string : (bytes : List ℕ) → (strlen bytes >>= λ n. read (strncpy (suc n) bytes)) ≡ read bytes
unfolding strlen strncpy read
copy_string [] = refl
copy_string (c ∷ bytes) = elim (Bool-cases (c == 0)) [
  | inl z ↦ rw z
  | inr z ↦
      ap
        (λ (b : Bool). (if b then some 0 else (strlen bytes >>= λ n. some (suc n))) >>= λ n.
          read (strncpy (suc n) (c ∷ bytes)))
        z
      ∙ copy_more c bytes (strlen bytes) z (copy_string bytes)
      ∙ ap (λ (b : Bool). if b then some [] else (read bytes >>= λ t. some (c ∷ t))) (sym z)
]

-- A new buffer has an address that no buffer has had.
abbrev pub IsBelow : ℕ → Pointers → Type 0
IsBelow next [] = Unit
IsBelow next (none ∷ argv) = IsBelow next argv
IsBelow next (some b ∷ argv) = (b.address < next) × IsBelow next argv

address_ne : (next address : ℕ) → address < next → (next == address) ≡ false
address_ne next address l = ground arith

no_texts : (ts : List Text) → some [] ≡ some ts → is_empty ts ≡ false → ⊥
no_texts [] e n = ground arith
no_texts (t ∷ ts) e n = ground arith

pub deep_copy-read :
    (argv : Pointers) (next : ℕ) (ts : List Text)
    → texts argv ≡ some ts
    → (r : Pointers × ℕ) × (deep_copy argv next ≡ some r) × (texts r.0 ≡ some ts)
unfolding deep_copy texts
deep_copy-read [] next ts e = ((none ∷ [], next), refl, e)
deep_copy-read (none ∷ others) next ts e = ((none ∷ [], next), refl, e)
deep_copy-read (some b ∷ others) next ts e =
    let t = bind_some (read b.bytes) _ ts e in
    let o = bind_some (texts others) _ ts t.2 in
    let n =
      bind_some (strlen b.bytes) (λ n. read (strncpy (suc n) b.bytes)) t.0
        (copy_string b.bytes ∙ t.1) in
    let rest = deep_copy-read others (suc next) o.0 o.1 in
    (
      (some (record { address = next; bytes = strncpy (suc n.0) b.bytes }) ∷ rest.0.0, rest.0.1),
      rw (n.1, rest.1),
      rw (n.2, rest.2) o.2,
    )

pub pair_of : {r r' : Pointers × ℕ} → some r ≡ some r' → r ≡ r'
pair_of {r} e = ap (λ o. value_or o r) e

pub deep_copy-length :
    (argv : Pointers) (next : ℕ) (ts : List Text) (r : Pointers × ℕ)
    → texts argv ≡ some ts
    → deep_copy argv next ≡ some r
    → length r.0 ≡ suc (length ts)
unfolding deep_copy texts
deep_copy-length [] next ts r e d =
    ap (λ r. length r.0) (sym (pair_of d)) ∙ ap (λ o. suc (length (value_or o []))) e
deep_copy-length (none ∷ others) next ts r e d =
    ap (λ r. length r.0) (sym (pair_of d)) ∙ ap (λ o. suc (length (value_or o []))) e
deep_copy-length (some b ∷ others) next ts r e d =
    let t = bind_some (read b.bytes) _ ts e in
    let o = bind_some (texts others) _ ts t.2 in
    let n = bind_some (strlen b.bytes) _ r d in
    let rest = bind_some (deep_copy others (suc next)) _ r n.2 in
    ap (λ r. length r.0) (sym (pair_of rest.2))
    ∙ ap suc (deep_copy-length others (suc next) o.0 rest.0 o.1 rest.1)
    ∙ ap (λ o. suc (length (value_or o []))) o.2

deep_copy_ne :
    (argv : Pointers) (next : ℕ) (ts : List Text) (r : Pointers × ℕ)
    → texts argv ≡ some ts
    → IsBelow next argv
    → deep_copy argv next ≡ some r
    → is_empty ts ≡ false
    → argv_eq r.0 argv ≡ false
unfolding deep_copy texts argv_eq pointer_eq
deep_copy_ne [] next ts r e l d n = absurd (no_texts ts e n)
deep_copy_ne (none ∷ others) next ts r e l d n = absurd (no_texts ts e n)
deep_copy_ne (some b ∷ others) next ts r e (l, ls) d n =
    let length = bind_some (strlen b.bytes) _ r d in
    let rest = bind_some (deep_copy others (suc next)) _ r length.2 in
    subst (λ r. argv_eq r.0 (some b ∷ others) ≡ false) (pair_of rest.2)
      (rw (address_ne next b.address l))

-- A copy of an object whose buffers have been made before, and hold C strings, has the same arguments;
-- if there is an argument, the two compare unequal.
pub deep_copy-texts :
    (argv : Pointers) (next : ℕ) (ts : List Text)
    → texts argv ≡ some ts
    → IsBelow next argv
    → (r : Pointers × ℕ) × (deep_copy argv next ≡ some r)
      × (texts r.0 ≡ some ts)
      × (is_empty ts ≡ false → argv_eq r.0 argv ≡ false)
deep_copy-texts argv next ts e l =
    let copied = deep_copy-read argv next ts e in
    (copied.0, copied.1, copied.2, deep_copy_ne argv next ts copied.0 e l copied.1)
