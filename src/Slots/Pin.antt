-- ===== src/Slots/Pin.antt =====
-- validatePin, checkPin and storePin.
pub mod Storing
use pkcs11hsmsim.Base.{
  ℕ, Bool, not, ◌||◌, Option, none, some, ◌++◌, Bytes, ltb, ◌==◌, any_of, bytes_eq, Array, count,
  contents, is_bad, length, if◌then◌else◌,
}
use pkcs11hsmsim.Base.Dict.{adjust}
use pkcs11hsmsim.Base.Text.{codes, join}
use pkcs11hsmsim.Ck.{cku_so}
use pkcs11hsmsim.Result.{
  Result, ok, err, arguments_bad, pin_len_range, pin_invalid, pin_incorrect,
  user_pin_not_initialized, device_error, Exec, lift, refuse_if, modify, gets, ◌>>=◌, ◌>>◌,
}
use pkcs11hsmsim.Disk.{Disk, exists, write_file, rename, remove}
use pkcs11hsmsim.Core.State.{Slot, Runtime}

abbrev pub maximum_pin_length : ℕ
maximum_pin_length = 256

-- NUL, CR and LF.
abbrev pub is_forbidden : ℕ → Bool
is_forbidden c = c == 0 || c == 13 || c == 10

unfoldable pub validate_pin : Array ℕ → Result (Unit {0})
validate_pin pin =
    if is_bad pin
    then err arguments_bad
    else if ltb maximum_pin_length (count pin)
    then err pin_len_range
    else if any_of is_forbidden (contents pin)
    then err pin_invalid
    else ok tt

unfoldable pub check_pin : Option Bytes → Array ℕ → Result (Unit {0})
check_pin expected pin = if is_bad pin then err arguments_bad else elim expected [
  | none ↦ err user_pin_not_initialized
  | some value ↦
      if not (count pin == length value) || not (bytes_eq (contents pin) value)
      then err pin_incorrect
      else ok tt
]

abbrev pub pin_path : Slot → ℕ → Bytes
pin_path slot user =
    join slot.directory (if user == cku_so then codes "so-pin.txt" else codes "pin.txt")

-- The `try` block: the temporary file is removed when the write or the rename fails.
unfoldable pub publish_pin : Bytes → Bytes → Disk → Result (Unit {0}) × Disk
publish_pin path value d =
    let temporary = path ++ codes ".tmp" in
    let (torn, written) = write_file temporary value d in
    if torn
    then (err device_error, (remove temporary written).1)
    else let (failed, renamed) = rename temporary path written in
      if failed then (err device_error, (remove temporary renamed).1) else (ok tt, renamed)

abbrev pub set_pin_of : ℕ → Bytes → Slot → Slot
set_pin_of user value slot =
    if user == cku_so
    then record slot { so_pin = some value }
    else record slot { user_pin = some value }

unfoldable pub store_pin : Slot → ℕ → Array ℕ → Exec Runtime (Unit {0})
unfolding validate_pin publish_pin
store_pin slot user pin = do
  lift (validate_pin pin)
  let path = pin_path slot user
  r ← gets (λ r. r)
  stale ← lift (exists (path ++ codes ".tmp") r.disk)
  refuse_if stale device_error
  let (result, d) = publish_pin path (contents pin) r.disk
  modify (λ r. record r { disk = d })
  lift result
  modify (λ r. record r { slots = adjust slot.id (set_pin_of user (contents pin)) r.slots })
