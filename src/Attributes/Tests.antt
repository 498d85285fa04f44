-- ===== src/Attributes/Tests.antt =====
-- Attributes of concrete objects.
use pkcs11hsmsim.Policy.Creation.{
  validate_creation_template, validate_from, validate_attribute, is_boolean_attribute,
}
use pkcs11hsmsim.Core.{find_object, require_user_login}
use pkcs11hsmsim.Base.{
  ◌≡◌, refl, true, false, none, some, [], ◌∷◌, Array, items, bytes_eq, erase_if, arith,
}
use pkcs11hsmsim.Base.Text.{codes}
use pkcs11hsmsim.Base.Dict.{lookup, assign, emplace, adjust}
use pkcs11hsmsim.Ck.{cka_value, cka_label, cka_modulus, cko_private_key}
use pkcs11hsmsim.Result.{ok}
use pkcs11hsmsim.Openssl.{KeyReader}
use pkcs11hsmsim.Core.State.{Object}
use pkcs11hsmsim.Core.Examples.{office, office-IsValid, wrapping_key, signing_key}
use pkcs11hsmsim.Policy.Values.{policy_value, default_policy, is_policy_attribute}
use pkcs11hsmsim.Template.{Attribute, template_string}
use pkcs11hsmsim.Attributes.{Query, read_attribute, read_attributes}
use pkcs11hsmsim.Attributes.Secrecy.{
  read_attributes-secret, Foretells, read_attribute-Foretells, probe, with_buffer,
}
use pkcs11hsmsim.Attributes.Setting.{set_attribute_value, save_changed, change, change_all}
use pkcs11hsmsim.Attributes.Changing.{StillLocked, SameBut, set_attribute_value-StillLocked}
use pkcs11hsmsim.Attributes.Saving.{set_attribute_value-persists}
use pkcs11hsmsim.Disk.{exists, file_in, remove, rename, write_file}
use pkcs11hsmsim.Metadata.{
  Records, create, read, path, publish, encode, write_records, write_attributes, write_policy,
  write_string, write_uint32,
}
use pkcs11hsmsim.Metadata.RoundTrip.{Storable}
use pkcs11hsmsim.KeyStore.{collect_metadata, collect_from}

-- Keys of which OpenSSL tells a modulus.
abbrev pub reader : KeyReader
reader = record {
  is_rsa = λ key. true;
  is_ec = λ key. false;
  type_name = λ key. codes "RSA";
  bits = λ key. 2048;
  modulus = λ key. some (key ∷ []);
  public_exponent = λ key. some (1 ∷ 0 ∷ 1 ∷ []);
  ec_params = λ key. none;
  ec_point = λ key. none;
}

-- The value and the label of the sensitive key.
abbrev queries : Array Query
queries = items (
    record { type = cka_value; has_buffer = true; capacity = 16 }
    ∷ record { type = cka_label; has_buffer = true; capacity = 16 }
    ∷ [])

read_attributes-secret_example :
    read_attributes reader (record wrapping_key { secret_value = 4 ∷ 3 ∷ 2 ∷ 1 ∷ [] }) queries
    ≡ read_attributes reader wrapping_key queries
unfolding policy_value lookup
read_attributes-secret_example =
    read_attributes-secret reader wrapping_key (4 ∷ 3 ∷ 2 ∷ 1 ∷ []) refl refl queries

read_attribute-Foretells_example :
    Foretells
      (read_attribute reader signing_key (probe cka_modulus))
      8
      (read_attribute reader signing_key (with_buffer cka_modulus 8))
read_attribute-Foretells_example = read_attribute-Foretells reader signing_key cka_modulus 8

-- A new label for the sensitive key.
abbrev relabelling : Array Attribute
relabelling = items (record { type = cka_label; value = items (codes "new") } ∷ [])

relabelled : (set_attribute_value 1 2 relabelling office).0 ≡ ok tt
unfolding lookup set_attribute_value find_object require_user_login policy_value default_policy
    validate_creation_template validate_from validate_attribute is_boolean_attribute
    is_policy_attribute change_all change save_changed
relabelled = refl

set_attribute_value-StillLocked_example :
    (o' : Object) × (lookup 2 (set_attribute_value 1 2 relabelling office).1.objects ≡ some o')
    × StillLocked wrapping_key o'
    × SameBut wrapping_key o'
unfolding lookup
set_attribute_value-StillLocked_example =
    set_attribute_value-StillLocked 1 2 relabelling office {o = wrapping_key} refl relabelled

-- A new label for the token's signing key.
abbrev renamed_key : Object
renamed_key = record signing_key { label = codes "new" }

renamed : (set_attribute_value 1 1 relabelling office).0 ≡ ok tt
unfolding lookup set_attribute_value find_object require_user_login policy_value default_policy
    validate_creation_template validate_from validate_attribute is_boolean_attribute
    is_policy_attribute change_all change save_changed create path publish encode write_records
    collect_metadata collect_from emplace assign erase_if remove rename write_file write_attributes
    write_policy write_string write_uint32 bytes_eq exists file_in template_string
renamed = refl

renamed-Storable : Storable (collect_metadata (codes "k") (some renamed_key) office)
unfolding collect_metadata collect_from emplace assign lookup bytes_eq
renamed-Storable = record {
  rising = ground arith;
  classes = ground arith;
  few = ground arith;
  policies = (record { rising = tt; words = tt; few = ground arith }, tt);
}

set_attribute_value-persists_example :
    (records : Records) × (read (codes "k") (set_attribute_value 1 1 relabelling office).1.disk
      ≡ ok records)
    × (lookup cko_private_key records ≡ some (record { label = codes "new"; id = []; policy = [] }))
unfolding lookup set_attribute_value find_object require_user_login policy_value default_policy
    validate_creation_template validate_from validate_attribute is_boolean_attribute
    is_policy_attribute change_all change save_changed create path publish encode write_records
    collect_metadata collect_from emplace assign erase_if remove rename write_file write_attributes
    write_policy write_string write_uint32 bytes_eq exists file_in template_string adjust
set_attribute_value-persists_example =
    set_attribute_value-persists 1 1 relabelling office {o = signing_key} {o' = renamed_key}
      office-IsValid refl refl (ground arith) renamed refl renamed-Storable refl refl
