-- ===== src/Metadata.antt =====
-- src/storage/metadata.cpp: the file beside a key that keeps the labels, ids and policies of its
-- objects. A parser takes the bytes that are left and returns them with its value; `none` is a throw.
pub mod Words
pub mod RoundTrip
pub mod Publication
pub mod Others
mod Tests
use pkcs11hsmsim.Base.{
  ℕ, ◌+◌, ◌*◌, ◌/◌, ◌%◌, Bool, true, false, not, ◌&&◌, ◌||◌, Option, none, some, List, [], ◌∷◌,
  ◌++◌, Bytes, ◌==◌, ltb, length, take, drop, if◌then◌else◌, is_some, zero, suc,
}
use pkcs11hsmsim.Base.Dict.{Dict, contains, assign}
use pkcs11hsmsim.Base.Text.{codes}
use pkcs11hsmsim.Result.{Result, ok, err, general_error}
use pkcs11hsmsim.Disk.{Disk, file, exists, write_file, rename, remove}

infixl 5 ◌>>=◌
abbrev pub ◌>>=◌ {ℓ κ} : {A : Type ℓ} {B : Type κ} → Option A → (A → Option B) → Option B
none >>= f = none
some a >>= f = f a

-- `if (test) throw`.
abbrev pub throw_if {ℓ} : {A : Type ℓ} → Bool → Option A → Option A
throw_if true rest = none
throw_if false rest = rest

pub record Attributes : Type 0 where
  pub label : Bytes
  pub id : Bytes
  pub policy : Dict Bool

abbrev pub Records : Type 0
Records = Dict Attributes

abbrev pub legacy_format : ℕ
legacy_format = 0x48534D31

abbrev pub policy_format : ℕ
policy_format = 0x48534D32

abbrev pub maximum_field : ℕ
maximum_field = 65536

unfoldable pub write_uint32 : ℕ → Bytes
write_uint32 n = n / 0x1000000 % 256 ∷ n / 0x10000 % 256 ∷ n / 0x100 % 256 ∷ n % 256 ∷ []

unfoldable pub read_uint32 : Bytes → Option (ℕ × Bytes)
read_uint32 (a ∷ b ∷ c ∷ d ∷ rest) = some (((a * 256 + b) * 256 + c) * 256 + d, rest)
read_uint32 _ = none

unfoldable pub write_string : Bytes → Option Bytes
write_string s = if ltb maximum_field (length s) then none else some (write_uint32 (length s) ++ s)

unfoldable pub read_string : Bytes → Option (Bytes × Bytes)
read_string input = do
  (n, rest) ← read_uint32 input
  throw_if (ltb maximum_field n || ltb (length rest) n) (some (take n rest, drop n rest))

-- The loop over the policy of a record; a type that comes twice is refused.
unfoldable pub read_policy : ℕ → Dict Bool → Bytes → Option (Dict Bool × Bytes)
read_policy zero policy input = some (policy, input)
read_policy (suc n) policy input = do
  (type, rest) ← read_uint32 input
  (value, rest') ← read_uint32 rest
  throw_if (ltb 1 value || contains type policy)
      (read_policy n (assign type (not (value == 0)) policy) rest')

-- Only the second format holds policies.
unfoldable pub read_policy_of : ℕ → Bytes → Option (Dict Bool × Bytes)
read_policy_of version input =
    if version == policy_format
    then (do (n, rest) ← read_uint32 input; throw_if (ltb 32 n) (read_policy n [] rest))
    else some ([], input)

unfoldable pub read_attributes : ℕ → Bytes → Option (Attributes × Bytes)
read_attributes version input = do
  (label, rest) ← read_string input
  (id, rest') ← read_string rest
  (policy, left) ← read_policy_of version rest'
  some (record { label = label; id = id; policy = policy }, left)

unfoldable pub read_records : ℕ → ℕ → Records → Bytes → Option (Records × Bytes)
read_records version zero records input = some (records, input)
read_records version (suc n) records input = do
  (cls, rest) ← read_uint32 input
  (a, rest') ← throw_if (ltb cls 1 || ltb 4 cls) (read_attributes version rest)
  throw_if (contains cls records) (read_records version n (assign cls a records) rest')

-- The contents of a metadata file.
unfoldable pub decode : Bytes → Option Records
decode input = do
  (version, rest) ← read_uint32 input
  (n, rest') ←
      throw_if (not (version == legacy_format) && not (version == policy_format)) (read_uint32 rest)
  (records, left) ← throw_if (ltb 4 n) (read_records version n [] rest')
  throw_if (not (length left == 0)) (some records)

unfoldable pub write_policy : Dict Bool → Bytes
write_policy [] = []
write_policy ((type, value) ∷ policy) =
    write_uint32 type ++ (write_uint32 (if value then 1 else 0) ++ write_policy policy)

unfoldable pub write_attributes : Attributes → Option Bytes
write_attributes a = do
  label ← write_string a.label
  id ← write_string a.id
  some (label ++ (id ++ (write_uint32 (length a.policy) ++ write_policy a.policy)))

unfoldable pub write_records : Records → Option Bytes
write_records [] = some []
write_records ((cls, a) ∷ records) = do
  attributes ← write_attributes a
  rest ← write_records records
  some (write_uint32 cls ++ (attributes ++ rest))

unfoldable pub encode : Records → Option Bytes
encode records = do
  body ← write_records records
  some (write_uint32 policy_format ++ (write_uint32 (length records) ++ body))

unfoldable pub path : Bytes → Bytes
path key = key ++ codes ".meta"

-- `read`; a runtime_error becomes CKR_GENERAL_ERROR at the boundary.
unfoldable pub read : Bytes → Disk → Result Records
read key d = elim (exists (path key) d) [
  | err e ↦ err e
  | ok false ↦ ok []
  | ok true ↦ elim (file (path key) d) [
    | none ↦ ok []
    | some input ↦
        if d.faults.opening (path key) || ltb (1024 * 1024) (length input)
        then err general_error
        else elim (decode input) [ none ↦ err general_error | some records ↦ ok records ]
  ]
]

-- The `catch` block of `create`.
abbrev abandon : Bytes → Disk → Result (Unit {0}) × Disk
abandon temporary d = (err general_error, (remove temporary d).1)

-- The `try` block of `create`: the temporary file is removed when anything in it throws. A field that
-- is too large throws while the file is open.
unfoldable pub publish : Bytes → Records → Disk → Result (Unit {0}) × Disk
publish key records d =
    let temporary = path key ++ codes ".tmp" in
    elim (encode records) [
      | none ↦ abandon temporary (write_file temporary [] d).1
      | some bytes ↦
          let (torn, written) = write_file temporary bytes d in
          if torn
          then abandon temporary written
          else let (failed, renamed) = rename temporary (path key) written in
            if failed then abandon temporary renamed else (ok tt, renamed)
    ]

-- Create-only publication, or replacement; only the former looks for the file.
unfoldable pub create : Bytes → Records → Bool → Disk → Result (Unit {0}) × Disk
create key records replace d = elim (if replace then ok false else exists (path key) d) [
  | err e ↦ (err e, d)
  | ok true ↦ (err general_error, d)
  | ok false ↦ elim (exists (path key ++ codes ".tmp") d) [
    | err e ↦ (err e, d)
    | ok true ↦ (err general_error, d)
    | ok false ↦ publish key records d
  ]
]
