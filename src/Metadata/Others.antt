-- ===== src/Metadata/Others.antt =====
-- Publishing metadata touches no other file, the key file itself among them.
use pkcs11hsmsim.Base.{
  ◌≡◌, Bool, false, [], ◌++◌, Bytes, arith, bytes_eq, inl, inr, Option-cases, Bool-cases, ap,
  length, length-append, bytes_eq_iff,
}
use pkcs11hsmsim.Base.Text.{codes}
use pkcs11hsmsim.Disk.{Disk, file, write_file, rename}
use pkcs11hsmsim.Disk.Laws.{
  file-write_file_ne, file-remove_ne, file-rename, file-rename_failed, bytes_eq-append,
}
use pkcs11hsmsim.Metadata.{Records, path, publish, create, encode}

module _ (key q : Bytes) (apart : bytes_eq (path key) q ≡ false)
    (apart_tmp : bytes_eq (path key ++ codes ".tmp") q ≡ false) where
  publish-other : (records : Records) (d : Disk) → file q (publish key records d).1 ≡ file q d
  unfolding publish
  publish-other records d =
      let p = path key in
      let tmp = p ++ codes ".tmp" in
      let between = bytes_eq-append p (codes ".tmp") (λ e. cc) in
      let empty = (write_file tmp [] d).1 in
      elim (Option-cases (encode records)) [
        | inl long ↦
            ground
              (arith, file-write_file_ne tmp q [] d apart_tmp, file-remove_ne tmp q empty apart_tmp)
        | inr (bytes, e) ↦
            let w = (write_file tmp bytes d).1 in
            ground (
              arith,
              between,
              apart,
              apart_tmp,
              file-write_file_ne tmp q bytes d apart_tmp,
              file-remove_ne tmp q w apart_tmp,
              file-remove_ne tmp q (rename tmp p w).1 apart_tmp,
              file-rename_failed tmp p w,
              file-rename tmp p q w,
            )
      ]

  pub create-other :
      (records : Records) (replace : Bool) (d : Disk)
      → file q (create key records replace d).1 ≡ file q d
  unfolding create
  create-other records replace d = ground (arith, publish-other records d)

path-not_key : (key : Bytes) → bytes_eq (path key) key ≡ false
unfolding path
path-not_key key = bytes_eq-append key (codes ".meta") (λ e. cc)

temporary-not_key : (key : Bytes) → bytes_eq (path key ++ codes ".tmp") key ≡ false
unfolding path
temporary-not_key key = elim (Bool-cases (bytes_eq (path key ++ codes ".tmp") key)) [
  | inl same ↦ absurd (
      omega (
        arith,
        ap length ((bytes_eq_iff (path key ++ codes ".tmp") key).0 same),
        length-append (path key) (codes ".tmp"),
        length-append key (codes ".meta"),
      ))
  | inr other ↦ other
]

pub create-key_file :
    (key : Bytes) (records : Records) (replace : Bool) (d : Disk)
    → file key (create key records replace d).1 ≡ file key d
create-key_file key = create-other key key (path-not_key key) (temporary-not_key key)
