-- ===== src/Slots/Discovery.antt =====
-- readPassword, loadPasswords, parseSlotId and discoverSlots. A throw is an error, whatever its type:
-- `Initialize` reports all of them as CKR_DEVICE_ERROR.
pub mod Reading
pub mod Numbers
pub mod Registry
pub mod Collecting
mod Tests
use pkcs11hsmsim.Base.{
  ℕ, ◌+◌, ◌-◌, ◌*◌, ◌/◌, ◌%◌, Bool, true, false, not, ◌&&◌, ◌||◌, Option, none, some, List, [], ◌∷◌,
  Bytes, ◌==◌, ltb, leb, length, drop, all_of, items, if◌then◌else◌, value_or, is_some,
}
use pkcs11hsmsim.Base.Text.{codes, join}
use pkcs11hsmsim.Base.Dict.{Dict, contains, assign}
use pkcs11hsmsim.Ck.{ulong_mod}
use pkcs11hsmsim.Result.{Result, ok, err, is_ok, general_error}
use pkcs11hsmsim.Disk.{Disk, exists, file}
use pkcs11hsmsim.Core.State.{Slot}
use pkcs11hsmsim.Mechanisms.Names.{starts_with}
use pkcs11hsmsim.Slots.Pin.{maximum_pin_length, validate_pin}

abbrev pub byte_order_mark : Bytes
byte_order_mark = 0xEF ∷ 0xBB ∷ 0xBF ∷ []

unfoldable pub without_mark : Bytes → Bytes
without_mark value = if starts_with byte_order_mark value then drop 3 value else value

-- One LF at the end goes, and then a CR before it.
unfoldable pub without_line_end : Bytes → Bytes
without_line_end [] = []
without_line_end (c ∷ []) = if c == 10 then [] else c ∷ []
without_line_end (c ∷ d ∷ []) = if d == 10 then (if c == 13 then [] else c ∷ []) else c ∷ d ∷ []
without_line_end (c ∷ d ∷ e ∷ rest) = c ∷ without_line_end (d ∷ e ∷ rest)

unfoldable pub read_password : Bytes → Disk → Result (Option Bytes)
read_password path d = elim (exists path d) [
  | err e ↦ err e
  | ok false ↦ ok none
  | ok true ↦ elim (file path d) [
    | none ↦ ok none
    | some input ↦
        if d.faults.opening path || leb (maximum_pin_length + 6) (length input)
        then err general_error
        else (let value = without_line_end (without_mark input) in
            if is_ok (validate_pin (items value)) then ok (some value) else err general_error)
  ]
]

-- What `getenv` gives for HSM_SIM_PIN and HSM_SIM_P12_PASSWORD; an unset variable is empty.
pub record Environment : Type 0 where
  pub pin : Bytes
  pub p12_password : Bytes

abbrev is_line_end : ℕ → Bool
is_line_end c = c == 13 || c == 10

unfoldable pub user_pin_of : Option Bytes → Environment → Result (Option Bytes)
user_pin_of (some pin) env = ok (some pin)
user_pin_of none env =
    if length env.pin == 0
    then ok none
    else if ltb maximum_pin_length (length env.pin)
        || not (all_of (λ c. not (is_line_end c)) env.pin)
    then err general_error
    else ok (some env.pin)

unfoldable pub load_passwords : Environment → Disk → Slot → Result Slot
load_passwords env d slot = elim (read_password (join slot.directory (codes "pin.txt")) d) [
  | err e ↦ err e
  | ok stored ↦ elim (user_pin_of stored env) [
    | err e ↦ err e
    | ok user_pin ↦ elim (read_password (join slot.directory (codes "so-pin.txt")) d) [
      | err e ↦ err e
      | ok so_pin ↦ elim (read_password (join slot.directory (codes "p12-password.txt")) d) [
        | err e ↦ err e
        | ok p12 ↦ ok (record slot {
          user_pin = user_pin;
          so_pin = so_pin;
          p12_password = value_or p12 env.p12_password;
        })
      ]
    ]
  ]
]

-- The parts before and after the first underscore.
unfoldable pub split_name : Bytes → Option (Bytes × Bytes)
split_name [] = none
split_name (c ∷ cs) =
    let rest = split_name cs in
    if c == 95
    then some ([], cs)
    else elim rest [ none ↦ none | some parts ↦ some (c ∷ parts.0, parts.1) ]

abbrev pub is_digit : ℕ → Bool
is_digit c = leb 48 c && leb c 57

-- The loop over the digits.
unfoldable pub parse_digits : ℕ → Bytes → Result (Option ℕ)
parse_digits id [] = ok (some id)
parse_digits id (c ∷ cs) =
    let digit = c - 48 in
    let rest = parse_digits ((id * 10 + digit) % ulong_mod) cs in
    if ltb ((ulong_mod - 1 - digit) / 10) id then err general_error else rest

unfoldable pub parse_slot_id : Bytes → Result (Option ℕ)
parse_slot_id name = elim (split_name name) [
  | none ↦ ok none
  | some parts ↦
      if length parts.0 == 0 || not (all_of is_digit parts.0)
      then ok none
      else if length parts.1 == 0
      then err general_error
      else parse_digits 0 parts.0
]

-- `name.substr(name.find('_') + 1)`
abbrev pub label_of : Bytes → Bytes
label_of name = elim (split_name name) [ none ↦ name | some parts ↦ parts.1 ]

abbrev pub new_slot : ℕ → Bytes → Bytes → Bool → Slot
new_slot id label directory legacy = record {
  id = id;
  label = label;
  directory = directory;
  user_pin = none;
  so_pin = none;
  p12_password = [];
  legacy_layout = legacy;
  logged_in_user = none;
}

-- The loop over the subdirectories of the storage root, by their names.
unfoldable pub collect_slots :
    Environment → Disk → Bytes → List Bytes → Dict Slot → Result (Dict Slot)
collect_slots env d root [] slots = ok slots
collect_slots env d root (name ∷ names) slots = elim (parse_slot_id name) [
  | err e ↦ err e
  | ok none ↦ collect_slots env d root names slots
  | ok (some id) ↦
      elim (load_passwords env d (new_slot id (label_of name) (join root name) false)) [
        | err e ↦ err e
        | ok slot ↦
            if contains id slots
            then err general_error
            else collect_slots env d root names (assign id slot slots)
      ]
]

-- `has_flat` says whether the storage root has the directories of the legacy layout.
unfoldable pub discover_slots : Environment → Disk → Bytes → List Bytes → Bool → Result (Dict Slot)
discover_slots env d root names has_flat = elim (collect_slots env d root names []) [
  | err e ↦ err e
  | ok [] ↦ elim (load_passwords env d (new_slot 1 (codes "HSM Simulator") root true)) [
    | err e ↦ err e
    | ok slot ↦ ok ((1, slot) ∷ [])
  ]
  | ok (entry ∷ slots) ↦ if has_flat then err general_error else ok (entry ∷ slots)
]
