-- ===== src/KeyStore/KeyPairs.antt =====
-- src/storage/key_store.cpp: key pairs in the registry and in PKCS#12 files.
pub mod Registering
pub mod Settling
pub mod Publishing
pub mod Outcome
pub mod Atomic
pub mod Saved
use pkcs11hsmsim.Base.{
  ℕ, ◌+◌, ◌%◌, Bool, true, false, Option, none, some, [], Bytes, if◌then◌else◌, value_or,
}
use pkcs11hsmsim.Base.Text.{join}
use pkcs11hsmsim.Ck.{cko_private_key, cko_public_key, cko_certificate, ulong_mod}
use pkcs11hsmsim.Result.{
  Result, ok, err, general_error, device_error, template_inconsistent, Exec, pure, gets, need,
  ◌>>=◌, ◌>>◌,
}
use pkcs11hsmsim.Openssl.{KeyReader, KeyWriter}
use pkcs11hsmsim.Disk.{exists, write_file}
use pkcs11hsmsim.Mechanisms.{key_type}
use pkcs11hsmsim.Core.State.{Slot, Object, Runtime, no_object}
use pkcs11hsmsim.KeyStore.Saving.{next_handle, add_object}

module _ (reader : KeyReader) (writer : KeyWriter) where
  -- The object of a key, and of a certificate; a certificate without a DER form is empty.
  abbrev pub pair_object : ℕ → ℕ → ℕ → Bytes → Bytes → Bytes → ℕ → ℕ → Object
  pair_object k slot_id cls label id path named key = record no_object {
    handle = k;
    slot_id = slot_id;
    object_class = cls;
    key_type = key_type reader named;
    label = label;
    id = id;
    path = path;
    algorithm_name = reader.type_name named;
    asymmetric_key = some key;
  }

  abbrev pub certificate_object : ℕ → ℕ → Bytes → Bytes → Bytes → ℕ → Object
  certificate_object k slot_id label id path certificate = record no_object {
    handle = k;
    slot_id = slot_id;
    object_class = cko_certificate;
    label = label;
    id = id;
    path = path;
    certificate_der = value_or (writer.certificate_der certificate) [];
  }

  -- The public part of the key, where it can be made.
  unfoldable pub register_public : ℕ → Bytes → Bytes → Bytes → ℕ → Exec Runtime (Unit {0})
  register_public slot_id label id path key r = elim (writer.public_part key) [
    | none ↦ (ok tt, r)
    | some part ↦
        let handler : Exec Runtime (Unit {0}) = next_handle >>= λ k.
        add_object (pair_object k slot_id cko_public_key label id path key part) in
        handler r
  ]

  unfoldable pub register_certificate :
      ℕ → Bytes → Bytes → Bytes → Option ℕ → Exec Runtime (Unit {0})
  register_certificate slot_id label id path none = pure tt
  register_certificate slot_id label id path (some certificate) = do
    k ← next_handle
    add_object (certificate_object k slot_id label id path certificate)

  -- The path is given as its directory and its file name, of which the id is the digest.
  unfoldable pub register_key_pair :
      ℕ → Bytes → Bytes → Bytes → ℕ → Option ℕ → Exec Runtime (Unit {0})
  register_key_pair slot_id label folder name key certificate = do
    id ← need (writer.digest name) general_error
    k ← next_handle
    add_object (pair_object k slot_id cko_private_key label id (join folder name) key key)
    register_public slot_id label id (join folder name) key
    register_certificate slot_id label id (join folder name) certificate

  unfoldable pub save_key_pair : Slot → Bytes → ℕ → Bytes → Exec Runtime (Unit {0})
  save_key_pair slot path key label r = elim (exists path r.disk) [
    | err e ↦ (err e, r)
    | ok true ↦ (err template_inconsistent, r)
    | ok false ↦ elim (writer.encode_p12 slot.p12_password label key) [
      | none ↦ (err device_error, r)
      | some der ↦
          let (failed, d) = write_file path der r.disk in
          (if failed then err device_error else ok tt, record r { disk = d })
    ]
  ]
