-- ===== src/Disk/Laws.antt =====
-- What the calls on files do to each file.
use pkcs11hsmsim.Base.{
  ◌≡◌, ◌≢◌, refl, ap, true, false, none, some, List, [], ◌∷◌, ◌++◌, Bytes, arith, bytes_eq,
  bytes_eq_iff, erase_if, take, if◌then◌else◌, length, length-append, inl, inr, Bool-cases,
  Option-cases,
}
use pkcs11hsmsim.Disk.{
  Disk, file, file_in, drop_file, put, write_file, write_unflushed, rename, remove,
}

file-drop_file :
    (p q : Bytes) (fs : List (Bytes × Bytes))
    → file_in q (drop_file p fs) ≡ (if bytes_eq p q then none else file_in q fs)
unfolding file_in drop_file erase_if
file-drop_file p q [] = ground arith
file-drop_file p q ((r, c) ∷ fs) =
    ground (arith, file-drop_file p q fs, bytes_eq_iff r p, bytes_eq_iff r q, bytes_eq_iff p q)

pub bytes_eq_refl : (p : Bytes) → bytes_eq p p ≡ true
bytes_eq_refl p = (bytes_eq_iff p p).1 refl

-- A longer name is another file.
pub bytes_eq-append : (p s : Bytes) → s ≢ [] → bytes_eq (p ++ s) p ≡ false
bytes_eq-append p [] h = absurd (h refl)
bytes_eq-append p (c ∷ s) h = elim (Bool-cases (bytes_eq (p ++ (c ∷ s)) p)) [
  | inl same ↦
      absurd
        (omega (arith, ap length ((bytes_eq_iff (p ++ (c ∷ s)) p).0 same), length-append p (c ∷ s)))
  | inr other ↦ other
]

file-put :
    (p q c : Bytes) (d : Disk) → file q (put p c d) ≡ (if bytes_eq p q then some c else file q d)
unfolding put file_in
file-put p q c d = ground (arith, file-drop_file p q d.files)

-- A write touches no other file.
pub file-write_file_ne :
    (p q c : Bytes) (d : Disk) → bytes_eq p q ≡ false → file q (write_file p c d).1 ≡ file q d
unfolding write_file
file-write_file_ne p q c d ne =
    ground (arith, file-put p q c d, file-put p q (take (d.faults.torn p) c) d)

-- A write that reports no failure has stored the contents.
pub file-write_file :
    (p c : Bytes) (d : Disk) → (write_file p c d).0 ≡ false → file p (write_file p c d).1 ≡ some c
unfolding write_file
file-write_file p c d done = ground (arith, file-put p p c d, bytes_eq_refl p)

pub file-write_unflushed :
    (p c : Bytes) (d : Disk)
    → d.faults.writing p ≡ false
    → (write_unflushed p c d).0 ≡ false
    → file p (write_unflushed p c d).1 ≡ some c
unfolding write_unflushed
file-write_unflushed p c d sound done = ground (arith, file-put p p c d, bytes_eq_refl p)

pub file-write_unflushed_ne :
    (p q c : Bytes) (d : Disk) → bytes_eq p q ≡ false → file q (write_unflushed p c d).1 ≡ file q d
unfolding write_unflushed
file-write_unflushed_ne p q c d ne =
    ground (arith, file-put p q c d, file-put p q (take (d.faults.torn p) c) d)

pub faults-write_unflushed : (p c : Bytes) (d : Disk) → (write_unflushed p c d).1.faults ≡ d.faults
unfolding write_unflushed put
faults-write_unflushed p c d = ground arith

pub file-remove_ne :
    (p q : Bytes) (d : Disk) → bytes_eq p q ≡ false → file q (remove p d).1 ≡ file q d
unfolding remove
file-remove_ne p q d ne = ground (arith, file-drop_file p q d.files)

pub file-remove : (p : Bytes) (d : Disk) → (remove p d).0 ≡ false → file p (remove p d).1 ≡ none
unfolding remove
file-remove p d done = ground (arith, file-drop_file p p d.files, bytes_eq_refl p)

-- A rename that throws changes no file.
pub file-rename_failed : (p q : Bytes) (d : Disk) → (rename p q d).0 ≡ true → (rename p q d).1 ≡ d
unfolding rename
file-rename_failed p q d failed = ground arith

-- A rename that succeeds moves the contents and touches no third file.
pub file-rename :
    (p q t : Bytes) (d : Disk)
    → (rename p q d).0 ≡ false
    → bytes_eq p q ≡ false
    → file t (rename p q d).1
      ≡ (if bytes_eq p t then none else if bytes_eq q t then file p d else file t d)
unfolding rename
file-rename p q t d done ne = elim (Option-cases (file p d)) [
  | inl missing ↦ ground arith
  | inr (c, there) ↦ ground (arith, file-drop_file p t (put q c d).files, file-put q t c d)
]
