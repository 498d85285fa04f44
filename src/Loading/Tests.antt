-- ===== src/Loading/Tests.antt =====
-- Examples: a key that is saved and loaded again, and a library that starts with one slot.
use pkcs11hsmsim.Base.{
  ◌≡◌, refl, ap, true, false, none, [], ◌∷◌, ◌++◌, arith, any_of, bytes_eq, erase_if,
}
use pkcs11hsmsim.Base.Text.{codes, join}
use pkcs11hsmsim.Base.Dict.{Dict, lookup, assign, emplace}
use pkcs11hsmsim.Ck.{cko_secret_key, ckk_aes}
use pkcs11hsmsim.Result.{ok}
use pkcs11hsmsim.Core.State.{Slot, Object, Runtime, no_object}
use pkcs11hsmsim.Core.Invariant.{IsValid}
use pkcs11hsmsim.Core.Examples.{office, office-IsValid, mute, no_faults, scribe}
use pkcs11hsmsim.Disk.{exists, file_in, write_unflushed, drop_file, remove, rename, write_file}
use pkcs11hsmsim.Utilities.{encode_hex, hex_digit}
use pkcs11hsmsim.Metadata.{
  create, path, publish, encode, write_records, write_attributes, write_policy, write_string,
  write_uint32,
}
use pkcs11hsmsim.Metadata.RoundTrip.{Storable}
use pkcs11hsmsim.KeyStore.{persist_metadata, collect_metadata, collect_from}
use pkcs11hsmsim.KeyStore.Saving.{publish_secret, save_secret_key, add_object}
use pkcs11hsmsim.KeyStore.KeyPairs.Registering.{joined}
use pkcs11hsmsim.Slots.Discovery.{Environment}
use pkcs11hsmsim.Loading.{Storage, load_symmetric_file, loaded_key, restored, initialize}
use pkcs11hsmsim.Loading.Slots.{room_of}
use pkcs11hsmsim.Loading.Restoring.{recorded, load_symmetric_file-saved}
use pkcs11hsmsim.Loading.Initializing.{Initialized, initialize-Initialized}

abbrev empty_storage : Storage
empty_storage = record {
  names = λ folder. [];
  refuses = λ folder. false;
  parse_p12 = λ der password. none;
}

abbrev nothing_set : Environment
nothing_set = record { pin = []; p12_password = [] }

abbrev idle : Runtime
idle = record {
  initialized = false;
  storage_root = [];
  next_object_handle = 1;
  next_session_handle = 1;
  slots = [];
  objects = [];
  sessions = [];
  disk = record { files = []; faults = no_faults };
}

idle-IsValid : IsValid idle
unfolding lookup any_of
idle-IsValid = record {
  first_handles = ground arith;
  unique_slots = ground arith;
  unique_objects = ground arith;
  unique_sessions = ground arith;
  sessions_ok = ground arith;
  objects_ok = ground arith;
  slots_ok = ground arith;
}

room_of-empty : (slots : Dict Slot) → room_of mute scribe empty_storage slots ≡ 0
unfolding room_of
room_of-empty [] = refl
room_of-empty ((id, slot) ∷ slots) = omega (arith, room_of-empty slots)

initialize-Initialized_example :
    Initialized mute scribe empty_storage nothing_set
      (codes "data")
      false
      idle
      (initialize mute scribe empty_storage nothing_set (codes "data") false false idle)
initialize-Initialized_example =
    initialize-Initialized mute scribe empty_storage nothing_set (codes "data") false idle
      idle-IsValid (λ slots found. ground (arith, room_of-empty slots)) false (λ off. refl)

abbrev token_key : Object
token_key = record no_object {
  handle = 3;
  slot_id = 1;
  object_class = cko_secret_key;
  key_type = ckk_aes;
  label = codes "a";
  secret_value = 7 ∷ 9 ∷ [];
  id = 1 ∷ [];
  path = join (codes "s") (codes "a" ++ codes ".key");
}

abbrev later : Runtime
later = (publish_secret true token_key office).1

token_key-fresh : lookup 3 office.objects ≡ none
unfolding lookup
token_key-fresh = refl

token_key-saved : publish_secret true token_key office ≡ (ok 3, later)
unfolding publish_secret save_secret_key exists file_in bytes_eq write_unflushed add_object
    persist_metadata create path drop_file publish encode write_records collect_metadata
    collect_from emplace assign erase_if remove rename write_file write_attributes write_policy
    write_string write_uint32 encode_hex hex_digit lookup
token_key-saved = refl

later-faults : later.disk.faults ≡ no_faults
unfolding publish_secret save_secret_key exists file_in bytes_eq write_unflushed add_object
    persist_metadata create path drop_file publish encode write_records collect_metadata
    collect_from emplace assign erase_if remove rename write_file write_attributes write_policy
    write_string write_uint32 encode_hex hex_digit lookup
later-faults = refl

token_key-Storable : Storable (
    recorded token_key office later 3 office-IsValid.unique_objects token_key-fresh refl
      token_key-saved)
unfolding collect_metadata collect_from emplace assign lookup bytes_eq
token_key-Storable = record {
  rising = ground arith;
  classes = ground arith;
  few = ground arith;
  policies = (record { rising = tt; words = tt; few = ground arith }, tt);
}

-- The key as it comes back.
abbrev back : Object
back =
    loaded_key later.next_object_handle 1 (codes "s") (codes "a" ++ codes ".key") (7 ∷ 9 ∷ [])
      (codes "a" ++ codes ".key")

load_symmetric_file-saved_example :
    (load_symmetric_file mute scribe empty_storage 1 (codes "s") (codes "a" ++ codes ".key") later
      ≡ (ok tt, joined back later))
    × (restored mute scribe empty_storage later.disk back
        ≡ ok (record back { label = codes "a"; id = 1 ∷ []; policy = [] }))
    × (back.secret_value ≡ 7 ∷ 9 ∷ [])
    × (back.label ≡ codes "a")
    × (back.path ≡ token_key.path)
load_symmetric_file-saved_example =
    load_symmetric_file-saved token_key office later 3 office-IsValid.unique_objects token_key-fresh
      refl token_key-saved mute scribe empty_storage (codes "s") (codes "a") (codes "a.key") 1 refl
      (ground arith) refl (ground arith) (ground arith) refl
      (ap (λ f. f.opening token_key.path) later-faults) token_key-Storable
      (ap (λ f. f.probing (path token_key.path)) later-faults)
      (ap (λ f. f.opening (path token_key.path)) later-faults) refl later refl
