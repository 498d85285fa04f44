-- ===== src/Token.antt =====
-- src/pkcs11/token.cpp: finalization, and what the library tells of its slots, tokens and mechanisms.
pub mod Lists
pub mod Mechanisms
mod Tests
use pkcs11hsmsim.Base.{
  ℕ, ◌+◌, ◌/◌, ◌%◌, ◌++◌, zero, suc, Bool, true, false, not, ◌&&◌, ◌||◌, Option, none, some, List,
  [], ◌∷◌, Bytes, ◌==◌, ltb, length, if◌then◌else◌, is_some,
}
use pkcs11hsmsim.Base.Text.{codes}
use pkcs11hsmsim.Base.Dict.{Dict}
use pkcs11hsmsim.Ck.{
  is_rw, unavailable_information, ckm_aes_ecb_encrypt_data, ckm_aes_key_gen,
  ckm_rsa_pkcs_key_pair_gen, ckm_ec_key_pair_gen, ckm_ml_dsa_key_pair_gen, ckm_slh_dsa_key_pair_gen,
  ckm_aes_key_wrap, ckm_aes_key_wrap_pad,
}
use pkcs11hsmsim.Result.{
  Rv, Result, ok, err, cryptoki_not_initialized, arguments_bad, slot_id_invalid, buffer_too_small,
  mechanism_invalid, Exec, gets, refuse_if, modify, and_then, ◌>>=◌, ◌>>◌,
}
use pkcs11hsmsim.Core.State.{Slot, Session, Runtime}
use pkcs11hsmsim.Core.{find_slot, initialization_status, requires_login}
use pkcs11hsmsim.Policy.Values.{one_of}
use pkcs11hsmsim.Mechanisms.{supported_mechanisms}
use pkcs11hsmsim.Slots.Pin.{maximum_pin_length}
use pkcs11hsmsim.Utilities.{write_padded_string}

-- The registry is emptied; the handles go on.
unfoldable pub finalize : Bool → Exec Runtime (Unit {0})
finalize has_reserved = do
  r ← gets (λ r. r)
  refuse_if (not r.initialized) cryptoki_not_initialized
  refuse_if has_reserved arguments_bad
  modify (λ r. record r { slots = []; sessions = []; objects = []; initialized = false })

-- A list with its count after the call: *count, the items written, the return code.
pub record Listing : Type 0 where
  pub count : ℕ
  pub written : List ℕ
  pub status : Result (Unit {0})

unfoldable pub keys : Dict Slot → List ℕ
keys [] = []
keys ((id, slot) ∷ slots) = id ∷ keys slots

unfoldable pub get_slot_list : Bool → Bool → ℕ → Runtime → Listing
get_slot_list has_slots has_count capacity r =
    if not has_count
    then record { count = capacity; written = []; status = err arguments_bad }
    else if not has_slots
    then record { count = length r.slots; written = []; status = ok tt }
    else if ltb capacity (length r.slots)
    then record { count = length r.slots; written = []; status = err buffer_too_small }
    else record { count = length r.slots; written = keys r.slots; status = initialization_status r }

unfoldable pub get_mechanism_list : ℕ → Bool → Bool → ℕ → Runtime → Listing
get_mechanism_list slot_id has_mechanisms has_count capacity r =
    if not (is_some (find_slot slot_id r))
    then record { count = capacity; written = []; status = err slot_id_invalid }
    else if not has_count
    then record { count = capacity; written = []; status = err arguments_bad }
    else if not has_mechanisms
    then record { count = length supported_mechanisms; written = []; status = ok tt }
    else if ltb capacity (length supported_mechanisms)
    then record { count = length supported_mechanisms; written = []; status = err buffer_too_small }
    else record {
      count = length supported_mechanisms;
      written = supported_mechanisms;
      status = ok tt;
    }

pub record MechanismInfo : Type 0 where
  pub min_key_size : ℕ
  pub max_key_size : ℕ
  pub flags : ℕ

abbrev pub flag_wrap_unwrap : ℕ
flag_wrap_unwrap = 0x60000

abbrev pub flag_sign_verify : ℕ
flag_sign_verify = 0x2800

abbrev pub flag_derive : ℕ
flag_derive = 0x80000

abbrev pub flag_generate : ℕ
flag_generate = 0x8000

abbrev pub flag_generate_key_pair : ℕ
flag_generate_key_pair = 0x10000

unfoldable pub mechanism_info : ℕ → MechanismInfo
mechanism_info m =
    if m == ckm_aes_ecb_encrypt_data
    then record { min_key_size = 16; max_key_size = 32; flags = flag_derive }
    else if m == ckm_aes_key_gen
    then record { min_key_size = 0; max_key_size = 0; flags = flag_generate }
    else if one_of
        (ckm_rsa_pkcs_key_pair_gen ∷ ckm_ec_key_pair_gen ∷ ckm_ml_dsa_key_pair_gen
          ∷ ckm_slh_dsa_key_pair_gen ∷ [])
        m
    then record { min_key_size = 0; max_key_size = 0; flags = flag_generate_key_pair }
    else if m == ckm_aes_key_wrap || m == ckm_aes_key_wrap_pad
    then record { min_key_size = 0; max_key_size = 0; flags = flag_wrap_unwrap }
    else record { min_key_size = 0; max_key_size = 0; flags = flag_sign_verify }

unfoldable pub get_mechanism_info : ℕ → ℕ → Bool → Runtime → Result MechanismInfo
get_mechanism_info slot_id m has_info r =
    if not (is_some (find_slot slot_id r))
    then err slot_id_invalid
    else if not has_info
    then err arguments_bad
    else if one_of supported_mechanisms m
    then ok (mechanism_info m)
    else err mechanism_invalid

pub record TokenInfo : Type 0 where
  pub label : Bytes
  pub manufacturer_id : Bytes
  pub model : Bytes
  pub serial_number : Bytes
  pub flags : ℕ
  pub max_session_count : ℕ
  pub session_count : ℕ
  pub max_rw_session_count : ℕ
  pub rw_session_count : ℕ
  pub max_pin_len : ℕ
  pub min_pin_len : ℕ

-- `std::hex` with `setw(width)` and `setfill('0')`, for a number that fits.
unfoldable pub hex_padded : ℕ → ℕ → Bytes
hex_padded zero n = []
hex_padded (suc width) n =
    hex_padded width (n / 16) ++ ((if ltb (n % 16) 10 then 48 + n % 16 else 87 + n % 16) ∷ [])

unfoldable pub count_sessions : ℕ → Dict Session → ℕ
count_sessions slot_id [] = 0
count_sessions slot_id ((h, s) ∷ sessions) =
    (if s.slot_id == slot_id then 1 else 0) + count_sessions slot_id sessions

unfoldable pub count_rw_sessions : ℕ → Dict Session → ℕ
count_rw_sessions slot_id [] = 0
count_rw_sessions slot_id ((h, s) ∷ sessions) =
    (if s.slot_id == slot_id && is_rw s.flags then 1 else 0) + count_rw_sessions slot_id sessions

-- CKF_RNG | CKF_TOKEN_INITIALIZED, CKF_LOGIN_REQUIRED and CKF_USER_PIN_INITIALIZED.
unfoldable pub token_flags : Slot → ℕ
token_flags slot =
    0x401
    + (if requires_login slot then 4 else 0)
    + (if is_some slot.user_pin || not (requires_login slot) then 8 else 0)

unfoldable pub get_token_info : ℕ → Bool → Runtime → Result TokenInfo
get_token_info slot_id has_info r = elim (find_slot slot_id r) [
  | none ↦ err slot_id_invalid
  | some slot ↦
      if not has_info
      then err arguments_bad
      else and_then (initialization_status r) (
          ok (record {
            label = write_padded_string 32 slot.label;
            manufacturer_id = write_padded_string 32 (codes "OpenAI");
            model = write_padded_string 16 (codes "FILE-HSM");
            serial_number = write_padded_string 16 (hex_padded 16 slot_id);
            flags = token_flags slot;
            max_session_count = unavailable_information;
            session_count = count_sessions slot_id r.sessions;
            max_rw_session_count = unavailable_information;
            rw_session_count = count_rw_sessions slot_id r.sessions;
            max_pin_len = maximum_pin_length;
            min_pin_len = 0;
          }))
]

pub record SlotInfo : Type 0 where
  pub slot_description : Bytes
  pub manufacturer_id : Bytes
  pub flags : ℕ

-- The flag is CKF_TOKEN_PRESENT.
unfoldable pub get_slot_info : ℕ → Bool → Runtime → Result SlotInfo
get_slot_info slot_id has_info r = elim (find_slot slot_id r) [
  | none ↦ err slot_id_invalid
  | some slot ↦
      if not has_info
      then err arguments_bad
      else and_then (initialization_status r) (
          ok (record {
            slot_description = write_padded_string 64 slot.label;
            manufacturer_id = write_padded_string 32 (codes "OpenAI");
            flags = 1;
          }))
]

pub record LibraryInfo : Type 0 where
  pub cryptoki_version : ℕ × ℕ
  pub manufacturer_id : Bytes
  pub flags : ℕ
  pub library_description : Bytes
  pub library_version : ℕ × ℕ

-- The structure is filled before the library is found not to be initialized.
unfoldable pub get_info : Bool → Runtime → Result (Unit {0}) × Option LibraryInfo
get_info has_info r = if not has_info then (err arguments_bad, none) else (
  initialization_status r,
  some (record {
    cryptoki_version = (3, 2);
    manufacturer_id = write_padded_string 32 (codes "OpenAI");
    flags = 0;
    library_description = write_padded_string 32 (codes "HSM Simulator");
    library_version = (0, 7);
  }),
)
