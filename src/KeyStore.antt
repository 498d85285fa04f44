-- ===== src/KeyStore.antt =====
-- src/storage/key_store.cpp: persistence of key files and their metadata.
pub mod Saving
pub mod Kept
pub mod Published
pub mod Created
pub mod KeyPairs
use pkcs11hsmsim.Base.{
  ℕ, Bool, false, ◌&&◌, Option, none, some, [], ◌∷◌, Bytes, ◌==◌, bytes_eq, erase_if, if◌then◌else◌,
}
use pkcs11hsmsim.Base.Dict.{Dict, contains, assign}
use pkcs11hsmsim.Result.{ok, err, device_error, Exec}
use pkcs11hsmsim.Disk.{remove}
use pkcs11hsmsim.Core.State.{Object, Runtime}
use pkcs11hsmsim.Metadata.{Attributes, Records, create}

abbrev pub attributes_of : Object → Attributes
attributes_of o = record { label = o.label; id = o.id; policy = o.policy }

-- A token object of the key file.
abbrev pub is_stored_at : Bytes → Object → Bool
is_stored_at path o = o.owner_session == 0 && bytes_eq o.path path

-- `emplace`: the first object of a class decides.
abbrev pub emplace_record : ℕ → Attributes → Records → Records
emplace_record cls a records = if contains cls records then records else assign cls a records

-- The object that stands for the entry `k`: the replacement has its handle.
abbrev pub replaced : Option Object → ℕ → Object → Object
replaced none k o = o
replaced (some new) k o = if new.handle == k then new else o

unfoldable pub collect_from : Bytes → Option Object → Dict Object → Records → Records
collect_from path replacement [] records = records
collect_from path replacement ((k, stored) ∷ objects) records =
    let o = replaced replacement k stored in
    collect_from path replacement objects (
      if is_stored_at path stored
      then emplace_record o.object_class (attributes_of o) records
      else records)

unfoldable pub collect_metadata : Bytes → Option Object → Runtime → Records
collect_metadata path replacement r = collect_from path replacement r.objects []

abbrev pub has_path : Bytes → ℕ × Object → Bool
has_path path e = bytes_eq e.1.path path

-- When the metadata cannot be created, the objects of the key file and the file itself go.
unfoldable pub persist_metadata : Bytes → Exec Runtime (Unit {0})
persist_metadata path r =
    let (result, d) = create path (collect_metadata path none r) false r.disk in
    elim result [
      | ok _ ↦ (ok tt, record r { disk = d })
      | err e ↦ (
        err device_error,
        record r { objects = erase_if (has_path path) r.objects; disk = (remove path d).1 },
      )
    ]
