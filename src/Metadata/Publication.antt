-- ===== src/Metadata/Publication.antt =====
-- The metadata file is published whole or not at all, and `read` gives back what was published.
use pkcs11hsmsim.Base.{
  ◌*◌, ◌≤◌, ◌≡◌, ◌≢◌, ap, Bool, false, none, some, [], ◌∷◌, ◌++◌, Bytes, arith, length,
  length-append, if◌then◌else◌, Each, inl, inr, Option-cases,
}
use pkcs11hsmsim.Base.Dict.{Dict}
use pkcs11hsmsim.Base.Text.{codes}
use pkcs11hsmsim.Result.{ok, is_ok}
use pkcs11hsmsim.Disk.{Disk, file, write_file, rename, exists}
use pkcs11hsmsim.Disk.Laws.{
  bytes_eq_refl, bytes_eq-append, file-write_file, file-write_file_ne, file-remove_ne,
  file-rename_failed, file-rename,
}
use pkcs11hsmsim.Metadata.{
  Records, Attributes, path, publish, create, encode, read, write_policy, write_uint32,
  write_attributes, write_records, write_string,
}
use pkcs11hsmsim.Metadata.Words.{write_string-some}
use pkcs11hsmsim.Metadata.RoundTrip.{
  Storable, StorablePolicy, decode-encode, write_attributes-some, write_records-some,
}

tmp-not-nil : codes ".tmp" ≢ []
tmp-not-nil e = cc

publish-file :
    (key : Bytes) (records : Records) (d : Disk)
    → file (path key) (publish key records d).1
      ≡ (if is_ok (publish key records d).0 then encode records else file (path key) d)
unfolding publish
publish-file key records d =
    let p = path key in
    let tmp = p ++ codes ".tmp" in
    let apart = bytes_eq-append p (codes ".tmp") tmp-not-nil in
    let empty = (write_file tmp [] d).1 in
    elim (Option-cases (encode records)) [
      | inl long ↦
          ground (arith, file-write_file_ne tmp p [] d apart, file-remove_ne tmp p empty apart)
      | inr (bytes, e) ↦
          let w = (write_file tmp bytes d).1 in
          ground (
            arith,
            apart,
            file-write_file_ne tmp p bytes d apart,
            file-write_file tmp bytes d,
            file-remove_ne tmp p w apart,
            file-remove_ne tmp p (rename tmp p w).1 apart,
            file-rename_failed tmp p w,
            file-rename tmp p p w,
            bytes_eq_refl p,
          )
    ]

-- After `create` the metadata file holds the encoded records if the call succeeded, and what it held
-- before otherwise.
pub create-file :
    (key : Bytes) (records : Records) (replace : Bool) (d : Disk)
    → file (path key) (create key records replace d).1
      ≡ (if is_ok (create key records replace d).0 then encode records else file (path key) d)
unfolding create
create-file key records replace d = ground (arith, publish-file key records d)

length-write_policy : (policy : Dict Bool) → length (write_policy policy) ≡ 8 * length policy
unfolding write_policy write_uint32
length-write_policy [] = omega arith
length-write_policy ((k, v) ∷ policy) = omega (arith, length-write_policy policy)

length-write_string :
    (s : Bytes) {written : Bytes} → write_string s ≡ some written → length written ≤ 65540
unfolding write_uint32
length-write_string s {written} h =
    let (fits, e) = write_string-some s h in omega (arith, ap length e)

length-write_attributes :
    (a : Attributes) {written : Bytes}
    → StorablePolicy a.policy
    → write_attributes a ≡ some written
    → length written ≤ 131340
unfolding write_uint32
length-write_attributes a {written} good h =
    let (label, id, e, e', shape) = write_attributes-some a h in
    let n = write_uint32 (length a.policy) in
    omega (
      arith,
      ap length shape,
      length-append label (id ++ (n ++ write_policy a.policy)),
      length-append id (n ++ write_policy a.policy),
      length-append n (write_policy a.policy),
      length-write_policy a.policy,
      length-write_string a.label e,
      length-write_string a.id e',
      good.few,
    )

length-write_records :
    (records : Records) {written : Bytes}
    → Each (λ e. StorablePolicy e.1.policy) records
    → write_records records ≡ some written
    → length written ≤ 131344 * length records
unfolding write_records write_uint32
length-write_records [] {written} good h = ground arith
length-write_records ((cls, a) ∷ records) {written} good h =
    let (attributes, body, e, e', shape) = write_records-some cls a records h in
    omega (
      arith,
      ap length shape,
      length-append attributes body,
      length-write_attributes a good.0 e,
      length-write_records records good.1 e',
    )

-- A metadata file stays below the megabyte that `read` accepts.
length-encode :
    (records : Records) {written : Bytes}
    → Storable records
    → encode records ≡ some written
    → length written ≤ 1024 * 1024
unfolding encode write_uint32
length-encode records {written} good h = elim (Option-cases (write_records records)) [
  | inl long ↦ absurd (ground arith)
  | inr (body, e) ↦
      let bound = length-write_records records good.policies e in ground (arith, bound, good.few, h)
]

create-encodes :
    (key : Bytes) (records : Records) (replace : Bool) (d : Disk)
    → encode records ≡ none
    → is_ok (create key records replace d).0 ≡ false
unfolding create publish
create-encodes key records replace d long = ground (arith, long)

-- What `create` has published under a key is what `read` returns, while the file can be found and
-- opened: every record of it, with label, id and policies.
pub read-create :
    (key : Bytes) (records : Records) (replace : Bool) (d d' : Disk)
    → Storable records
    → create key records replace d ≡ (ok tt, d')
    → d'.faults.probing (path key) ≡ false
    → d'.faults.opening (path key) ≡ false
    → read key d' ≡ ok records
unfolding read exists
read-create key records replace d d' good done found opened =
    let stored : file (path key) d' ≡ encode records =
      ground (arith, done, create-file key records replace d) in
    elim (Option-cases (encode records)) [
      | inl long ↦ absurd (ground (arith, create-encodes key records replace d long, done))
      | inr (written, e) ↦
          ground (arith, stored, e, decode-encode records good e, length-encode records good e)
    ]
