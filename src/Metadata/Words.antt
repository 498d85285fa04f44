-- ===== src/Metadata/Words.antt =====
-- Big-endian words and length-prefixed strings are read back as they were written.
use pkcs11hsmsim.Base.{
  ℕ, ◌^◌, ◌≤◌, ◌<◌, ◌≡◌, refl, some, [], ◌∷◌, ◌++◌, Bytes, arith, length, take, drop, length-append,
}
use mathlib.Core.List.{append_assoc}
use pkcs11hsmsim.Metadata.{write_uint32, read_uint32, write_string, read_string, maximum_field}

pub read_uint32-write_uint32 :
    (n : ℕ) (rest : Bytes) → n < 2 ^ 32 → read_uint32 (write_uint32 n ++ rest) ≡ some (n, rest)
unfolding read_uint32 write_uint32
read_uint32-write_uint32 n rest h = ground arith

take-append : (xs ys : Bytes) → take (length xs) (xs ++ ys) ≡ xs
take-append [] ys = refl
take-append (x ∷ xs) ys = rw (take-append xs ys)

drop-append : (xs ys : Bytes) → drop (length xs) (xs ++ ys) ≡ ys
drop-append [] ys = refl
drop-append (x ∷ xs) ys = drop-append xs ys

pub write_string-some :
    (s : Bytes) {written : Bytes}
    → write_string s ≡ some written
    → (length s ≤ maximum_field) × (written ≡ write_uint32 (length s) ++ s)
unfolding write_string
write_string-some s h = ground arith

read_string-fits :
    (s rest : Bytes)
    → length s ≤ maximum_field
    → read_string (write_uint32 (length s) ++ (s ++ rest)) ≡ some (s, rest)
unfolding read_string
read_string-fits s rest h =
    rw (read_uint32-write_uint32 (length s) (s ++ rest) (omega arith))
      (ground (arith, length-append s rest, take-append s rest, drop-append s rest))

pub read_string-write_string :
    (s rest : Bytes) {written : Bytes}
    → write_string s ≡ some written
    → read_string (written ++ rest) ≡ some (s, rest)
read_string-write_string s rest h =
    let (fits, e) = write_string-some s h in
    rw (e, append_assoc (write_uint32 (length s)) s rest) (read_string-fits s rest fits)
