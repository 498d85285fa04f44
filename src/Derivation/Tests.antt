-- ===== src/Derivation/Tests.antt =====
-- Examples: a session key that is derived under a cipher that copies, from a master key of 16 bytes.
use pkcs11hsmsim.Base.{
  ◌≡◌, refl, true, Option, some, [], ◌∷◌, Bytes, items, arith, replicate, take, any_of,
}
use pkcs11hsmsim.Base.Dict.{lookup}
use pkcs11hsmsim.Ck.{
  ckm_aes_ecb_encrypt_data, cko_secret_key, ckk_aes, cka_key_type, cka_value_len, cka_token,
}
use pkcs11hsmsim.Result.{ok}
use pkcs11hsmsim.Core.State.{Object, Runtime, no_object}
use pkcs11hsmsim.Core.Invariant.{IsValid}
use pkcs11hsmsim.Core.Examples.{office, office-IsValid}
use pkcs11hsmsim.Template.{Template}
use pkcs11hsmsim.KeyStore.Created.{Creation}
use pkcs11hsmsim.Derivation.{DeriveMechanism, derive_key, derived_value}
use pkcs11hsmsim.Derivation.Making.{DerivedKey, derive_key-Creation}
use pkcs11hsmsim.Derivation.Blocks.{derived_value-all}

abbrev copies : Bytes → Bytes → Option Bytes
copies key text = some text

abbrev wanted : Template
wanted = items (
    record { type = cka_key_type; value = items (0x1f ∷ 0 ∷ 0 ∷ 0 ∷ []) }
    ∷ record { type = cka_value_len; value = items (16 ∷ 0 ∷ 0 ∷ 0 ∷ []) }
    ∷ record { type = cka_token; value = items (0 ∷ []) }
    ∷ [])

abbrev by_data : DeriveMechanism
by_data = record { mechanism = ckm_aes_ecb_encrypt_data; parameter = some (items (replicate 16 5)) }

abbrev master : Object
master = record no_object {
  handle = 2;
  slot_id = 1;
  object_class = cko_secret_key;
  key_type = ckk_aes;
  secret_value = replicate 16 3;
  owner_session = 1;
}

abbrev study : Runtime
study = record office { objects = (2, master) ∷ [] }

study-IsValid : IsValid study
unfolding lookup any_of
study-IsValid = record {
  first_handles = office-IsValid.first_handles;
  unique_slots = office-IsValid.unique_slots;
  unique_objects = ground arith;
  unique_sessions = office-IsValid.unique_sessions;
  sessions_ok = office-IsValid.sessions_ok;
  objects_ok = ground arith;
  slots_ok = office-IsValid.slots_ok;
}

derive_key-Creation_example :
    Creation
      (DerivedKey copies 1 2 by_data wanted study)
      study
      (derive_key copies 1 (some by_data) 2 wanted true study)
derive_key-Creation_example =
    derive_key-Creation copies 1 2 by_data wanted study (ground arith) study-IsValid true

derived_value-all_example :
    derived_value copies [] (replicate 32 5) 24 ≡ ok (take 24 (replicate 32 5))
derived_value-all_example =
    derived_value-all copies [] (replicate 32 5) (replicate 32 5) 24 (λ blocks within. refl) refl
      refl (ground arith)
