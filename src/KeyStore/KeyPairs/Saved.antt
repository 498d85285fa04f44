-- ===== src/KeyStore/KeyPairs/Saved.antt =====
-- saveKeyPair: the PKCS#12 file.
use pkcs11hsmsim.Base.{ℕ, ◌≡◌, none, some, Bytes, arith, inl, inr, Option-cases}
use pkcs11hsmsim.Result.{ok}
use pkcs11hsmsim.Openssl.{KeyReader, KeyWriter}
use pkcs11hsmsim.Disk.{file, exists}
use pkcs11hsmsim.Disk.Laws.{file-write_file}
use pkcs11hsmsim.Core.State.{Slot, Runtime}
use pkcs11hsmsim.KeyStore.KeyPairs.{save_key_pair}

module _ (reader : KeyReader) (writer : KeyWriter) (slot : Slot) (path : Bytes) (key : ℕ)
    (label : Bytes) (r : Runtime) where
  pub save_key_pair-disk :
      (save_key_pair reader writer slot path key label r).1
      ≡ record r { disk = (save_key_pair reader writer slot path key label r).1.disk }
  unfolding save_key_pair
  save_key_pair-disk = ground arith

  -- A container that was saved is in a file that was not there.
  pub save_key_pair-done :
      (save_key_pair reader writer slot path key label r).0 ≡ ok tt
      → (der : Bytes) × (writer.encode_p12 slot.p12_password label key ≡ some der)
        × (file path r.disk ≡ none)
        × (file path (save_key_pair reader writer slot path key label r).1.disk ≡ some der)
  unfolding save_key_pair exists
  save_key_pair-done done = elim (Option-cases (writer.encode_p12 slot.p12_password label key)) [
    | inl failed ↦ absurd (ground (arith, failed, done))
    | inr (der, e) ↦ ground (arith, e, done, file-write_file path der r.disk)
  ]
