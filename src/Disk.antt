-- ===== src/Disk.antt =====
-- The files that the simulator keeps, with the std::filesystem and stream calls that it makes on
-- them. Which calls fail is chosen by the environment, for each path.
pub mod Laws
use pkcs11hsmsim.Base.{
  ℕ, ◌≡◌, Bool, true, false, Option, none, some, List, [], ◌∷◌, Bytes, arith, bytes_eq,
  bytes_eq_iff, erase_if, take, if◌then◌else◌, is_some, length, ltb,
}
use pkcs11hsmsim.Result.{Result, ok, err, device_error}

-- A path that cannot be probed throws; one that cannot be opened is left as it is; a write that
-- fails leaves the first `torn` bytes. A stream keeps `buffer` bytes back until it is closed.
pub record Faults : Type 0 where
  pub probing : Bytes → Bool
  pub opening : Bytes → Bool
  pub writing : Bytes → Bool
  pub torn : Bytes → ℕ
  pub buffer : ℕ
  pub renaming : Bytes → Bool
  pub removing : Bytes → Bool

pub record Disk : Type 0 where
  pub files : List (Bytes × Bytes)
  pub faults : Faults

unfoldable pub file_in : Bytes → List (Bytes × Bytes) → Option Bytes
file_in p [] = none
file_in p ((q, c) ∷ fs) = if bytes_eq q p then some c else file_in p fs

abbrev pub file : Bytes → Disk → Option Bytes
file p d = file_in p d.files

unfoldable pub drop_file : Bytes → List (Bytes × Bytes) → List (Bytes × Bytes)
unfolding erase_if
drop_file p fs = erase_if (λ e. bytes_eq e.0 p) fs

-- `fs::exists`; a filesystem_error becomes CKR_DEVICE_ERROR at the boundary.
unfoldable pub exists : Bytes → Disk → Result Bool
exists p d = if d.faults.probing p then err device_error else ok (is_some (file p d))

-- `fs::remove(path, ec)`; the flag says whether `ec` is set.
unfoldable pub remove : Bytes → Disk → Bool × Disk
remove p d =
    if d.faults.removing p then (true, d) else (false, record d { files = drop_file p d.files })

put : Bytes → Bytes → Disk → Disk
put p c d = record d { files = (p, c) ∷ drop_file p d.files }

-- An ofstream that truncates, a write, and the check of the stream; the flag says whether it failed.
unfoldable pub write_file : Bytes → Bytes → Disk → Bool × Disk
unfolding put
write_file p c d =
    if d.faults.opening p
    then (true, d)
    else if d.faults.writing p
    then (true, put p (take (d.faults.torn p) c) d)
    else (false, put p c d)

-- The same, but the stream is checked before it is closed: a write that fails shows only where the
-- content does not fit in the buffer.
unfoldable pub write_unflushed : Bytes → Bytes → Disk → Bool × Disk
unfolding put
write_unflushed p c d =
    if d.faults.opening p
    then (true, d)
    else if d.faults.writing p
    then (ltb d.faults.buffer (length c), put p (take (d.faults.torn p) c) d)
    else (false, put p c d)

-- `fs::rename`, which replaces its target; the flag says whether it threw.
unfoldable pub rename : Bytes → Bytes → Disk → Bool × Disk
unfolding put
rename p q d = if d.faults.renaming p then (true, d) else elim (file p d) [
  | none ↦ (true, d)
  | some c ↦ (false, record (put q c d) { files = drop_file p (put q c d).files })
]
