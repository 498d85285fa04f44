-- ===== src/Derivation.antt =====
-- src/crypto/derivation.cpp: DeriveKey.
pub mod Templates
pub mod Making
pub mod Blocks
mod Tests
use pkcs11hsmsim.Base.{
  ℕ, ◌+◌, ◌*◌, ◌/◌, ◌-◌, ◌%◌, Bool, true, false, not, ◌&&◌, ◌||◌, Option, none, some, List, [], ◌∷◌,
  ◌++◌, Bytes, ◌==◌, ltb, Array, null, items, is_null, count, contents, is_bad, length, take,
  value_or, if◌then◌else◌,
}
use pkcs11hsmsim.Base.Text.{codes, decimal}
use pkcs11hsmsim.Ck.{
  sizeof_ulong, sizeof_bbool, cko_secret_key, ckk_aes, ckm_aes_ecb_encrypt_data, cka_value_len,
  cka_label, cka_id, cka_class, cka_key_type, cka_value, cka_token, cka_modifiable, cka_destroyable,
  cka_private, cka_derive, cka_wrap, cka_unwrap, cka_encrypt, cka_decrypt, cka_sign, cka_verify,
  cka_sensitive, cka_extractable, is_rw,
}
use pkcs11hsmsim.Result.{
  Result, ok, err, and_then, session_handle_invalid, arguments_bad, mechanism_invalid,
  mechanism_param_invalid, data_len_range, key_handle_invalid, key_function_not_permitted,
  key_type_inconsistent, key_size_range, template_inconsistent, template_incomplete,
  attribute_value_invalid, attribute_type_invalid, session_read_only, device_error, Exec, pure,
  gets, lift, need, refuse_if, ◌>>=◌, ◌>>◌,
}
use pkcs11hsmsim.Core.State.{Object, Session, Runtime, no_object}
use pkcs11hsmsim.Core.{find_session, find_object, session_slot, require_user_login}
use pkcs11hsmsim.Template.{Attribute, Template, template_unsigned, template_string}
use pkcs11hsmsim.Policy.Values.{one_of, policy_value}
use pkcs11hsmsim.Policy.Creation.{first_byte, is_missized, apply_policy_template}
use pkcs11hsmsim.KeyStore.Saving.{next_handle, secret_path, publish_secret}
use pkcs11hsmsim.Generation.{is_aes_size}

-- CK_MECHANISM with its CK_KEY_DERIVATION_STRING_DATA: none where the parameter is missing or has
-- another size.
pub record DeriveMechanism : Type 0 where
  pub mechanism : ℕ
  pub parameter : Option (Array ℕ)

abbrev pub number_attributes : List ℕ
number_attributes = cka_class ∷ cka_key_type ∷ cka_value_len ∷ []

abbrev pub boolean_attributes : List ℕ
boolean_attributes =
    cka_modifiable ∷ cka_destroyable ∷ cka_token ∷ cka_private ∷ cka_derive ∷ cka_wrap ∷ cka_unwrap
    ∷ cka_encrypt ∷ cka_decrypt ∷ cka_sign ∷ cka_verify ∷ cka_sensitive ∷ cka_extractable ∷ []

-- The body of the loop, after the comparison with the earlier attributes.
unfoldable pub check_attribute : Attribute → Result (Unit {0})
check_attribute a =
    if is_bad a.value
    then err attribute_value_invalid
    else if one_of number_attributes a.type
    then (if is_missized a.value sizeof_ulong then err attribute_value_invalid else ok tt)
    else if one_of boolean_attributes a.type
    then (if is_missized a.value sizeof_bbool
        then err attribute_value_invalid
        else if not (first_byte (contents a.value) == 1) && not (first_byte (contents a.value) == 0)
        then err attribute_value_invalid
        else ok tt)
    else if a.type == cka_label || a.type == cka_id
    then ok tt
    else if a.type == cka_value
    then err template_inconsistent
    else err attribute_type_invalid

-- The loop, with the types of the earlier attributes and the value of `token`.
unfoldable pub check_attributes : List ℕ → Bool → List Attribute → Result Bool
check_attributes seen token [] = ok token
check_attributes seen token (a ∷ rest) =
    let value = if a.type == cka_token then not (first_byte (contents a.value) == 0) else token in
    let later = check_attributes (a.type ∷ seen) value rest in
    if one_of seen a.type then err template_inconsistent else and_then (check_attribute a) later

-- The object before its policies.
unfoldable pub derived_key : ℕ → ℕ → ℕ → Bool → Bytes → Template → Object
derived_key k h slot_id token value attributes = record no_object {
  handle = k;
  slot_id = slot_id;
  object_class = cko_secret_key;
  key_type = ckk_aes;
  label = template_string attributes cka_label (codes "derived-" ++ decimal k);
  id = template_string attributes cka_id (decimal k);
  secret_value = value;
  owner_session = if token then 0 else h;
}

-- Only a token key gets a path.
unfoldable pub derived_path : ℕ → Bool → Object → Runtime → Result Bytes
derived_path h token o r =
    if token
    then elim (session_slot h r) [
      | err e ↦ err e
      | ok slot ↦ ok (secret_path slot.directory o.label)
    ]
    else ok o.path

unfoldable pub make_derived : ℕ → ℕ → Bool → Bytes → Template → Exec Runtime ℕ
make_derived h slot_id token value attributes = do
  k ← next_handle
  r ← gets (λ r. r)
  let o = apply_policy_template (derived_key k h slot_id token value attributes) attributes
  path ← lift (derived_path h token o r)
  publish_secret token (record o { path = path })

-- The blocks that contribute to a key of so many bytes.
abbrev pub used_length : ℕ → ℕ
used_length requested = (requested + 15) / 16 * 16

-- What the template must say; the length of the key is the result.
unfoldable pub requested_length : Template → ℕ → Result ℕ
requested_length attributes available =
    if not (value_or (template_unsigned attributes cka_class) cko_secret_key == cko_secret_key)
    then err template_inconsistent
    else elim (template_unsigned attributes cka_key_type) [
      | none ↦ err template_incomplete
      | some type ↦ elim (template_unsigned attributes cka_value_len) [
        | none ↦ err template_incomplete
        | some requested ↦
            if not (type == ckk_aes)
            then err template_inconsistent
            else if not (is_aes_size requested)
            then err key_size_range
            else if ltb available requested
            then err data_len_range
            else ok requested
      ]
    ]

-- What the call tells of the mechanism.
unfoldable pub derivation_data : DeriveMechanism → Result Bytes
derivation_data m =
    if not (m.mechanism == ckm_aes_ecb_encrypt_data)
    then err mechanism_invalid
    else elim m.parameter [
      | none ↦ err mechanism_param_invalid
      | some (null n) ↦ err mechanism_param_invalid
      | some (items text) ↦
          if length text == 0 || not (length text % 16 == 0) || ltb (2147483647 - 16) (length text)
          then err data_len_range
          else ok text
    ]

unfoldable pub master_status : Object → Result (Unit {0})
master_status master =
    if not (policy_value master cka_derive)
    then err key_function_not_permitted
    else if not (master.object_class == cko_secret_key) || not (master.key_type == ckk_aes)
    then err key_type_inconsistent
    else if not (is_aes_size (length master.secret_value))
    then err key_size_range
    else ok tt

-- AES-ECB without padding, under a key: the bytes that it writes, unless a call fails.
module _ (encrypt : Bytes → Bytes → Option Bytes) where
  unfoldable pub derived_value : Bytes → Bytes → ℕ → Result Bytes
  derived_value key text requested = elim (encrypt key (take (used_length requested) text)) [
    | none ↦ err device_error
    | some written ↦
        if not (length written == used_length requested)
        then err device_error
        else ok (take requested written)
  ]

  unfoldable pub derive_key : ℕ → Option DeriveMechanism → ℕ → Template → Bool → Exec Runtime ℕ
  derive_key h mechanism base attributes has_handle = do
    r ← gets (λ r. r)
    session ← need (find_session h r) session_handle_invalid
    m ← need mechanism arguments_bad
    refuse_if (not has_handle || is_bad attributes) arguments_bad
    text ← lift (derivation_data m)
    master ← need (find_object h base r) key_handle_invalid
    lift (require_user_login h r)
    lift (master_status master)
    token ← lift (check_attributes [] false (contents attributes))
    requested ← lift (requested_length attributes (length text))
    refuse_if (token && not (is_rw session.flags)) session_read_only
    value ← lift (derived_value master.secret_value text requested)
    make_derived h session.slot_id token value attributes
