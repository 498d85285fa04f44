-- ===== src/Slots/Discovery/Tests.antt =====
-- A discovery of concrete directories.
use pkcs11hsmsim.Base.{
  ℕ, ◌≤◌, ◌≡◌, refl, false, List, [], ◌∷◌, Bytes, Array, items, ltb, if◌then◌else◌, some, any_of,
  contents, length, bytes_eq, all_of,
}
use pkcs11hsmsim.Base.Text.{codes}
use pkcs11hsmsim.Base.Dict.{Dict, lookup, assign}
use pkcs11hsmsim.Ck.{cku_user, ulong_mod}
use pkcs11hsmsim.Result.{ok, err, general_error}
use pkcs11hsmsim.Disk.{Disk, exists, file_in, write_file, rename}
use pkcs11hsmsim.Core.State.{Slot}
use pkcs11hsmsim.Core.Examples.{office, front_slot, no_faults}
use pkcs11hsmsim.Slots.Pin.{store_pin, pin_path}
use pkcs11hsmsim.Slots.Discovery.{
  Environment, parse_slot_id, read_password, without_mark, discover_slots, collect_slots,
  split_name, parse_digits, load_passwords, user_pin_of,
}
use pkcs11hsmsim.Slots.Discovery.Numbers.{numeral, parse_slot_id-numeral}
use pkcs11hsmsim.Slots.Discovery.Reading.{read_password-store_pin}
use pkcs11hsmsim.Slots.Discovery.Registry.{discover_slots-FreshSlot}

-- A PIN with a byte order mark.
abbrev marked : Array ℕ
marked = items (0xEF ∷ 0xBB ∷ 0xBF ∷ 49 ∷ 50 ∷ [])

read_password-store_pin_example :
    read_password
      (pin_path front_slot cku_user)
      (store_pin front_slot cku_user marked office).1.disk
    ≡ ok (some (without_mark (contents marked)))
unfolding store_pin any_of exists file_in bytes_eq write_file rename
read_password-store_pin_example =
    read_password-store_pin front_slot cku_user marked office refl refl refl

parse_slot_id-numeral_example : parse_slot_id (codes "12_a") ≡ (
    if ltb (numeral 0 (codes "12")) ulong_mod
    then ok (some (numeral 0 (codes "12")))
    else err general_error)
unfolding all_of
parse_slot_id-numeral_example = parse_slot_id-numeral 49 (codes "2") [] 97 refl

abbrev nothing_set : Environment
nothing_set = record { pin = []; p12_password = [] }

abbrev blank : Disk
blank = record { files = []; faults = no_faults }

abbrev directories : List Bytes
directories = codes "7_lab" ∷ codes "other" ∷ []

abbrev found : Dict Slot
found = elim (discover_slots nothing_set blank (codes "data") directories false) [
  | ok slots ↦ slots
  | err e ↦ []
]

discover_slots-FreshSlot_example : 1 ≤ length found
unfolding discover_slots collect_slots parse_slot_id split_name all_of parse_digits load_passwords
    read_password exists file_in user_pin_of lookup assign
discover_slots-FreshSlot_example =
    (discover_slots-FreshSlot nothing_set blank (codes "data") directories false {slots = found}
      refl).2
