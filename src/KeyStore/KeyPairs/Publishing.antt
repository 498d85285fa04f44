-- ===== src/KeyStore/KeyPairs/Publishing.antt =====
-- src/crypto/key_generation.cpp and src/crypto/wrapping.cpp: the steps that GenerateKeyPair and UnwrapKey
-- share, from registerKeyPair on.
use pkcs11hsmsim.Base.{ℕ, ◌+◌, ◌%◌, Bool, none, ◌++◌, Bytes, if◌then◌else◌}
use pkcs11hsmsim.Base.Text.{codes, join}
use pkcs11hsmsim.Ck.{ulong_mod}
use pkcs11hsmsim.Result.{Exec, pure, gets, ◌>>=◌, ◌>>◌}
use pkcs11hsmsim.Openssl.{KeyReader, KeyWriter}
use pkcs11hsmsim.Utilities.{safe_filename}
use pkcs11hsmsim.Core.State.{Slot, Object, Runtime}
use pkcs11hsmsim.KeyStore.{persist_metadata}
use pkcs11hsmsim.KeyStore.KeyPairs.{register_key_pair}
use pkcs11hsmsim.KeyStore.KeyPairs.Settling.{settle}

abbrev pub pair_name : Bytes → Bytes
pair_name label = safe_filename label ++ codes ".p12"

abbrev pub pair_folder : Slot → Bytes
pair_folder slot = join slot.directory (codes "asymmetric")

abbrev pub pair_path : Slot → Bytes → Bytes
pair_path slot label = join (pair_folder slot) (pair_name label)

-- `stored` says whether the pair goes into the token; the result is the handle of the private key.
unfoldable pub publish_pair :
    KeyReader
    → KeyWriter
    → Slot
    → Bytes
    → ℕ
    → Bool
    → (Bytes → Bytes)
    → (Object → Object)
    → (Bytes → Object → Object)
    → Exec Runtime ℕ
publish_pair reader writer slot label key stored id_of settle_private settle_public = do
  k ← gets (λ r. r.next_object_handle)
  register_key_pair reader writer slot.id label (pair_folder slot) (pair_name label) key none
  settle k ((k + 1) % ulong_mod) id_of settle_private settle_public
  if stored then persist_metadata (pair_path slot label) else pure tt
  pure k
