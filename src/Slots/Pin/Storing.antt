-- ===== src/Slots/Pin/Storing.antt =====
-- storePin: the PIN file and the PIN in memory change together or not at all.
use pkcs11hsmsim.Base.{ℕ, ◌≡◌, ◌≢◌, some, [], ◌++◌, Bytes, arith, Array, contents, if◌then◌else◌}
use pkcs11hsmsim.Base.Text.{codes}
use pkcs11hsmsim.Base.Dict.{adjust}
use pkcs11hsmsim.Result.{ok, is_ok}
use pkcs11hsmsim.Disk.{Disk, file, write_file, rename}
use pkcs11hsmsim.Disk.Laws.{
  bytes_eq_refl, bytes_eq-append, file-write_file, file-write_file_ne, file-remove_ne,
  file-rename_failed, file-rename,
}
use pkcs11hsmsim.Core.State.{Slot, Runtime}
use pkcs11hsmsim.Slots.Pin.{publish_pin, store_pin, validate_pin, pin_path, set_pin_of}

tmp-not-nil : codes ".tmp" ≢ []
tmp-not-nil e = cc

-- Publication is atomic for the PIN file: it holds the new value on success, and what it held before
-- on failure.
publish_pin-file :
    (path value : Bytes) (d : Disk)
    → file path (publish_pin path value d).1
      ≡ (if is_ok (publish_pin path value d).0 then some value else file path d)
unfolding publish_pin
publish_pin-file path value d =
    let tmp = path ++ codes ".tmp" in
    let w = (write_file tmp value d).1 in
    let apart = bytes_eq-append path (codes ".tmp") tmp-not-nil in
    ground (
      arith,
      apart,
      file-write_file_ne tmp path value d apart,
      file-write_file tmp value d,
      file-remove_ne tmp path w apart,
      file-remove_ne tmp path (rename tmp path w).1 apart,
      file-rename_failed tmp path w,
      file-rename tmp path path w,
      bytes_eq_refl path,
    )

-- All that `storePin` may change: the slots and the files.
pub record Rest (r r' : Runtime) : Type 0 where
  pub initialized : r'.initialized ≡ r.initialized
  pub storage_root : r'.storage_root ≡ r.storage_root
  pub next_object_handle : r'.next_object_handle ≡ r.next_object_handle
  pub next_session_handle : r'.next_session_handle ≡ r.next_session_handle
  pub objects : r'.objects ≡ r.objects
  pub sessions : r'.sessions ≡ r.sessions

pub store_pin-Rest :
    (slot : Slot) (user : ℕ) (pin : Array ℕ) (r : Runtime) → Rest r (store_pin slot user pin r).1
unfolding store_pin
store_pin-Rest slot user pin r = ground arith

pub store_pin-slots :
    (slot : Slot) (user : ℕ) (pin : Array ℕ) (r : Runtime)
    → (store_pin slot user pin r).1.slots ≡ (
        if is_ok (store_pin slot user pin r).0
        then adjust slot.id (set_pin_of user (contents pin)) r.slots
        else r.slots)
unfolding store_pin
store_pin-slots slot user pin r = ground arith

pub store_pin-file :
    (slot : Slot) (user : ℕ) (pin : Array ℕ) (r : Runtime)
    → file (pin_path slot user) (store_pin slot user pin r).1.disk ≡ (
        if is_ok (store_pin slot user pin r).0
        then some (contents pin)
        else file (pin_path slot user) r.disk)
unfolding store_pin
store_pin-file slot user pin r =
    ground (arith, publish_pin-file (pin_path slot user) (contents pin) r.disk)

pub store_pin-validate :
    (slot : Slot) (user : ℕ) (pin : Array ℕ) (r : Runtime)
    → (store_pin slot user pin r).0 ≡ ok tt
    → validate_pin pin ≡ ok tt
unfolding store_pin
store_pin-validate slot user pin r done = ground arith
