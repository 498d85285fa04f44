-- ===== src/Utilities/Names.antt =====
-- File names for keys, and padded strings.
use pkcs11hsmsim.Base.{
  ℕ, ◌-◌, ◌≤◌, ◌≡◌, refl, true, [], ◌∷◌, Bytes, ltb, length, take, replicate, all_of, if◌then◌else◌,
  arith, zero, suc, length-append,
}
use pkcs11hsmsim.Utilities.{is_safe, replace_unsafe, safe_filename, write_padded_string}

replace_unsafe-safe : (cs : Bytes) → all_of is_safe (replace_unsafe cs) ≡ true
unfolding all_of replace_unsafe is_safe
replace_unsafe-safe [] = refl
replace_unsafe-safe (c ∷ cs) = ground (arith, replace_unsafe-safe cs)

replace_unsafe-fixed : (cs : Bytes) → all_of is_safe cs ≡ true → replace_unsafe cs ≡ cs
unfolding all_of replace_unsafe
replace_unsafe-fixed [] h = refl
replace_unsafe-fixed (c ∷ cs) h = ground (arith, replace_unsafe-fixed cs)

-- A file name that is made of a label is not empty and has nothing but ASCII letters, digits, `-` and
-- `_`, so that it stays in its directory; a label that is such a name already is kept.
pub safe_filename-safe :
    (label : Bytes)
    → (all_of is_safe (safe_filename label) ≡ true)
      × (1 ≤ length (safe_filename label))
      × (all_of is_safe label ≡ true → 1 ≤ length label → safe_filename label ≡ label)
unfolding safe_filename all_of is_safe
safe_filename-safe label = (
  ground (arith, replace_unsafe-safe label),
  ground arith,
  λ safe some_char. ground (arith, replace_unsafe-fixed label safe),
)

length-replicate : (n c : ℕ) → length (replicate n c) ≡ n
length-replicate zero c = refl
length-replicate (suc n) c = omega (arith, length-replicate n c)

length-take :
    (n : ℕ) (xs : Bytes) → length (take n xs) ≡ (if ltb n (length xs) then n else length xs)
length-take zero [] = ground arith
length-take zero (x ∷ xs) = ground arith
length-take (suc n) [] = ground arith
length-take (suc n) (x ∷ xs) = ground (arith, length-take n xs)

-- A padded string fills its field exactly, whether the string is shorter or longer.
pub length-write_padded_string :
    (capacity : ℕ) (value : Bytes) → length (write_padded_string capacity value) ≡ capacity
unfolding write_padded_string
length-write_padded_string capacity value = ground (
  arith,
  length-append (take capacity value) (replicate (capacity - length value) 32),
  length-take capacity value,
  length-replicate (capacity - length value) 32,
)
