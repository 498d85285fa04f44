-- ===== src/Loading.antt =====
-- src/storage/key_store.cpp: loading the token objects; src/pkcs11/token.cpp: Initialize. A throw is an
-- error, whatever its type.
pub mod Restoring
pub mod Symmetric
pub mod Starting
pub mod Slots
pub mod Initializing
mod Tests
use pkcs11hsmsim.Base.{
  ℕ, ◌+◌, Bool, true, false, not, ◌&&◌, ◌||◌, Option, none, some, List, [], ◌∷◌, ◌++◌, Bytes, ◌==◌,
  ltb, length, bytes_eq, value_or, if◌then◌else◌,
}
use pkcs11hsmsim.Base.Text.{codes, join}
use pkcs11hsmsim.Base.Dict.{Dict, lookup}
use pkcs11hsmsim.Ck.{cko_secret_key, ckk_aes}
use pkcs11hsmsim.Result.{
  Result, ok, err, general_error, device_error, cryptoki_already_initialized, arguments_bad, Exec,
  pure, gets, lift, need, refuse_if, modify, ◌>>=◌, ◌>>◌,
}
use pkcs11hsmsim.Openssl.{KeyReader, KeyWriter}
use pkcs11hsmsim.Disk.{Disk, file}
use pkcs11hsmsim.Utilities.{decode_hex}
use pkcs11hsmsim.Metadata.{Attributes, read}
use pkcs11hsmsim.Core.State.{Slot, Object, Runtime, no_object}
use pkcs11hsmsim.KeyStore.Saving.{next_handle, add_object}
use pkcs11hsmsim.KeyStore.KeyPairs.{register_key_pair}
use pkcs11hsmsim.Slots.Discovery.{Environment, discover_slots}

-- What the file system tells of directories: the names in one, in the order of the iteration, and whether
-- one can be created and read; and what OpenSSL finds in a PKCS#12 container under a password: the key and
-- the certificate.
pub record Storage : Type 0 where
  pub names : Bytes → List Bytes
  pub refuses : Bytes → Bool
  pub parse_p12 : Bytes → Bytes → Option (ℕ × Option ℕ)

-- The name up to its last dot, and from it on.
unfoldable pub last_dot : Bytes → Option (Bytes × Bytes)
last_dot [] = none
last_dot (c ∷ cs) = elim (last_dot cs) [
  | some parts ↦ some (c ∷ parts.0, parts.1)
  | none ↦ if c == 46 then some ([], c ∷ cs) else none
]

-- `path::extension` and `path::stem`; a dot at the front does not count.
unfoldable pub extension : Bytes → Bytes
extension name = elim (last_dot name) [
  | none ↦ []
  | some parts ↦ if length parts.0 == 0 then [] else parts.1
]

unfoldable pub stem : Bytes → Bytes
stem name = elim (last_dot name) [
  | none ↦ name
  | some parts ↦ if length parts.0 == 0 then name else parts.0
]

-- What an input stream gives: nothing where the file cannot be opened.
abbrev pub input : Bytes → Disk → Bytes
input path d = if d.faults.opening path then [] else value_or (file path d) []

-- The id comes last, and its digest may throw.
abbrev pub loaded_key : ℕ → ℕ → Bytes → Bytes → Bytes → Bytes → Object
loaded_key k slot_id folder name value id = record no_object {
  handle = k;
  slot_id = slot_id;
  object_class = cko_secret_key;
  key_type = ckk_aes;
  label = stem name;
  id = id;
  path = join folder name;
  secret_value = value;
}

module _ (reader : KeyReader) (writer : KeyWriter) (storage : Storage) where
  unfoldable pub add_loaded : ℕ → Bytes → Bytes → Bytes → Exec Runtime (Unit {0})
  add_loaded slot_id folder name value = do
    k ← next_handle
    id ← need (writer.digest name) general_error
    add_object (loaded_key k slot_id folder name value id)

  unfoldable pub load_symmetric_file : ℕ → Bytes → Bytes → Exec Runtime (Unit {0})
  load_symmetric_file slot_id folder name r =
      let value = decode_hex (input (join folder name) r.disk) in
      if not (bytes_eq (extension name) (codes ".key")) || length value == 0
      then (ok tt, r)
      else add_loaded slot_id folder name value r

  unfoldable pub load_symmetric_files : ℕ → Bytes → List Bytes → Exec Runtime (Unit {0})
  load_symmetric_files slot_id folder [] = pure tt
  load_symmetric_files slot_id folder (name ∷ names) =
      load_symmetric_file slot_id folder name >> load_symmetric_files slot_id folder names

  unfoldable pub load_asymmetric_file : Slot → Bytes → Bytes → Exec Runtime (Unit {0})
  load_asymmetric_file slot folder name r =
      let der = input (join folder name) r.disk in
      if (not (bytes_eq (extension name) (codes ".p12"))
          && not (bytes_eq (extension name) (codes ".pfx")))
        || length der == 0
        || ltb 2147483647 (length der)
      then (ok tt, r)
      else elim (storage.parse_p12 der slot.p12_password) [
        | none ↦ (ok tt, r)
        | some found ↦
            register_key_pair reader writer slot.id (stem name) folder name found.0 found.1 r
      ]

  unfoldable pub load_asymmetric_files : Slot → Bytes → List Bytes → Exec Runtime (Unit {0})
  load_asymmetric_files slot folder [] = pure tt
  load_asymmetric_files slot folder (name ∷ names) =
      load_asymmetric_file slot folder name >> load_asymmetric_files slot folder names

  abbrev pub asymmetric_folder : Slot → Bytes
  asymmetric_folder slot = join slot.directory (codes "asymmetric")

  abbrev pub symmetric_folder : Slot → Bytes
  symmetric_folder slot = join slot.directory (codes "symmetric")

  unfoldable pub load_slot : ℕ → Slot → Exec Runtime (Unit {0})
  load_slot id slot = do
    refuse_if (storage.refuses (asymmetric_folder slot)) general_error
    refuse_if (storage.refuses (symmetric_folder slot)) general_error
    load_asymmetric_files slot (asymmetric_folder slot) (storage.names (asymmetric_folder slot))
    load_symmetric_files id (symmetric_folder slot) (storage.names (symmetric_folder slot))

  unfoldable pub load_slots : Dict Slot → Exec Runtime (Unit {0})
  load_slots [] = pure tt
  load_slots ((id, slot) ∷ slots) = load_slot id slot >> load_slots slots

  abbrev pub with_attributes : Attributes → Object → Object
  with_attributes a o = record o { label = a.label; id = a.id; policy = a.policy }

  unfoldable pub restored : Disk → Object → Result Object
  restored d o = elim (read o.path d) [
    | err e ↦ err e
    | ok records ↦ elim (lookup o.object_class records) [
      | none ↦ ok o
      | some a ↦ ok (with_attributes a o)
    ]
  ]

  unfoldable pub restore_all : Disk → Dict Object → Result (Dict Object)
  restore_all d [] = ok []
  restore_all d ((k, o) ∷ objects) = elim (restored d o) [
    | err e ↦ err e
    | ok o' ↦ elim (restore_all d objects) [ err e ↦ err e | ok objects' ↦ ok ((k, o') ∷ objects') ]
  ]

  unfoldable pub load_object_metadata : Exec Runtime (Unit {0})
  load_object_metadata = do
    r ← gets (λ r. r)
    objects ← lift (restore_all r.disk r.objects)
    modify (λ r. record r { objects = objects })

  unfoldable pub load_token_objects : Exec Runtime (Unit {0})
  load_token_objects = do
    modify (λ r. record r { objects = []; next_object_handle = 1 })
    r ← gets (λ r. r)
    load_slots r.slots
    load_object_metadata

  -- The `try` block: the slots of the storage root, and then their objects.
  unfoldable pub load_all : Environment → Bool → Exec Runtime (Unit {0})
  load_all env has_flat = do
    r ← gets (λ r. r)
    slots ← lift (discover_slots env r.disk r.storage_root (storage.names r.storage_root) has_flat)
    modify (λ r. record r { slots = slots })
    load_token_objects

  abbrev pub cleared : Runtime → Runtime
  cleared r = record r { objects = []; slots = [] }

  -- After the `try` block, and in the `catch` block.
  unfoldable pub concluded : Result (Unit {0}) × Runtime → Result (Unit {0}) × Runtime
  concluded (ok u, r) = (ok tt, record r { initialized = true })
  concluded (err e, r) = (err device_error, cleared r)

  unfoldable pub start : Environment → Bool → Exec Runtime (Unit {0})
  start env has_flat r = concluded (load_all env has_flat r)

  -- `root` is HSM_SIM_DATA_DIR.
  unfoldable pub initialize : Environment → Bytes → Bool → Bool → Exec Runtime (Unit {0})
  initialize env root has_flat has_reserved = do
    r ← gets (λ r. r)
    refuse_if r.initialized cryptoki_already_initialized
    refuse_if has_reserved arguments_bad
    modify (λ r. record r { storage_root = root })
    start env has_flat
