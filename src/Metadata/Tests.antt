-- ===== src/Metadata/Tests.antt =====
-- Metadata of a concrete key file.
use pkcs11hsmsim.Base.{◌≡◌, refl, true, false, [], ◌∷◌, arith, if◌then◌else◌, bytes_eq}
use pkcs11hsmsim.Base.Text.{codes}
use pkcs11hsmsim.Ck.{cko_private_key}
use pkcs11hsmsim.Result.{ok, is_ok}
use pkcs11hsmsim.Disk.{Disk, file, exists, file_in, write_file, rename}
use pkcs11hsmsim.Core.Examples.{no_faults}
use pkcs11hsmsim.Metadata.{
  Records, encode, create, read, path, write_records, write_attributes, write_string, publish,
}
use pkcs11hsmsim.Metadata.RoundTrip.{Storable}
use pkcs11hsmsim.Metadata.Publication.{create-file, read-create}

-- A private key with a label and two policies.
abbrev records : Records
records =
    (
      cko_private_key,
      record { label = codes "sign"; id = 7 ∷ []; policy = (259, true) ∷ (354, false) ∷ [] },
    )
    ∷ []

records-Storable : Storable records
records-Storable = record {
  rising = ground arith;
  classes = ground arith;
  few = omega arith;
  policies = (record { rising = ground arith; words = ground arith; few = omega arith }, tt);
}

abbrev empty_disk : Disk
empty_disk = record { files = []; faults = no_faults }

create-file_example : file (path (codes "k")) (create (codes "k") records false empty_disk).1 ≡ (
    if is_ok (create (codes "k") records false empty_disk).0
    then encode records
    else file (path (codes "k")) empty_disk)
create-file_example = create-file (codes "k") records false empty_disk

read-create_example : read (codes "k") (create (codes "k") records false empty_disk).1 ≡ ok records
unfolding create exists file_in publish encode write_records write_attributes write_string
    write_file rename bytes_eq path
read-create_example =
    read-create (codes "k") records false empty_disk (create (codes "k") records false empty_disk).1
      records-Storable refl refl refl
