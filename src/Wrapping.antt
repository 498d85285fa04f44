-- ===== src/Wrapping.antt =====
-- src/crypto/wrapping.cpp: WrapKey and UnwrapKey.
pub mod Unwrapping
pub mod Protocol
mod Tests
use pkcs11hsmsim.Base.{
  ℕ, ◌+◌, ◌-◌, ◌*◌, ◌/◌, ◌%◌, Bool, true, false, not, ◌&&◌, ◌||◌, Option, none, some, List, [],
  Bytes, ◌==◌, ltb, Array, null, items, is_bad, contents, length, value_or, if◌then◌else◌,
}
use pkcs11hsmsim.Base.Text.{codes, decimal}
use pkcs11hsmsim.Ck.{
  ulong_mod, cko_secret_key, cko_private_key, ckk_aes, ckm_aes_key_wrap, ckm_aes_key_wrap_pad,
  cka_wrap, cka_unwrap, cka_extractable, cka_class, cka_label, cka_id, cka_value_len,
}
use pkcs11hsmsim.Result.{
  Result, ok, err, session_handle_invalid, arguments_bad, key_handle_invalid,
  key_function_not_permitted, key_unextractable, key_type_inconsistent, mechanism_invalid,
  mechanism_param_invalid, data_len_range, key_size_range, device_error, buffer_too_small,
  encrypted_data_invalid, template_inconsistent, data_invalid, Exec, pure, gets, lift, need,
  refuse_if, ◌>>=◌, ◌>>◌,
}
use pkcs11hsmsim.Openssl.{KeyReader, KeyWriter, KeyCarrier}
use pkcs11hsmsim.Mechanisms.{key_type}
use pkcs11hsmsim.Signatures.{Mechanism}
use pkcs11hsmsim.Core.State.{Object, Runtime, no_object}
use pkcs11hsmsim.Core.{find_session, find_object, session_slot, require_user_login}
use pkcs11hsmsim.Template.{Template, template_unsigned, template_string}
use pkcs11hsmsim.Policy.Values.{policy_value}
use pkcs11hsmsim.Policy.Creation.{validate_creation_template, apply_creation_template}
use pkcs11hsmsim.KeyStore.Saving.{next_handle, secret_path, publish_secret}
use pkcs11hsmsim.KeyStore.KeyPairs.{save_key_pair}
use pkcs11hsmsim.KeyStore.KeyPairs.Publishing.{publish_pair, pair_path}
use pkcs11hsmsim.Generation.{is_aes_size}
use pkcs11hsmsim.Generation.Pairs.{policy_object}

-- What a call leaves in the caller's buffer and in its length.
pub record Output : Type 0 where
  pub status : Result (Unit {0})
  pub length : ℕ
  pub written : Bytes

abbrev pub is_padded : Mechanism → Bool
is_padded m = m.mechanism == ckm_aes_key_wrap_pad

abbrev is_null_parameter : Array ℕ → Bool
is_null_parameter (null n) = n == 0
is_null_parameter (items xs) = false

abbrev pub is_input_size : Bool → Bool → ℕ → Bool
is_input_size unwrapping padded n =
    if padded
    then not (n == 0) && not (unwrapping && (ltb n 16 || not (n % 8 == 0)))
    else n % 8 == 0 && not (ltb n (if unwrapping then 24 else 16))

-- The checks of `aesKeyWrap` before the cipher.
unfoldable pub wrap_status : Bool → Option Mechanism → Object → ℕ → Result Mechanism
wrap_status unwrapping none key n = err key_type_inconsistent
wrap_status unwrapping (some m) key n =
    if not (key.key_type == ckk_aes)
    then err key_type_inconsistent
    else if not (m.mechanism == ckm_aes_key_wrap) && not (m.mechanism == ckm_aes_key_wrap_pad)
    then err mechanism_invalid
    else if not (is_null_parameter m.parameter)
    then err mechanism_param_invalid
    else if ltb (2147483647 - 16) n
    then err data_len_range
    else if not (is_aes_size (length key.secret_value))
    then err key_size_range
    else if not (is_input_size unwrapping (is_padded m) n)
    then err data_len_range
    else ok m

abbrev pub required_length : Bool → Bool → ℕ → ℕ
required_length unwrapping padded n =
    if unwrapping then n else if padded then (n + 7) / 8 * 8 + 8 else n + 8

module _ (carrier : KeyCarrier) where
  -- A buffer that the caller passes without a pointer asks for the length.
  unfoldable pub run_wrap : Bool → Bool → Bytes → Bytes → Bool → ℕ → Output
  run_wrap unwrapping padded key input has_output capacity =
      let required = required_length unwrapping padded (length input) in
      let refused : Result (Unit {0}) → ℕ → Output =
        λ status n. record { status = status; length = n; written = [] } in
      if not (carrier.has_cipher padded key)
      then refused (err device_error) capacity
      else if not has_output
      then refused (ok tt) required
      else if ltb capacity required
      then refused (err buffer_too_small) required
      else elim (if unwrapping
          then carrier.unwrap padded key input
          else carrier.wrap padded key input) [
            | none ↦
                refused (err (if unwrapping then encrypted_data_invalid else device_error)) capacity
            | some bytes ↦ record { status = ok tt; length = length bytes; written = bytes }
          ]

  unfoldable pub aes_key_wrap : Bool → Option Mechanism → Object → Bytes → Bool → ℕ → Output
  aes_key_wrap unwrapping mechanism key input has_output capacity =
      elim (wrap_status unwrapping mechanism key (length input)) [
        | err e ↦ record { status = err e; length = capacity; written = [] }
        | ok m ↦ run_wrap unwrapping (is_padded m) key.secret_value input has_output capacity
      ]

  -- Empty where the object cannot be wrapped.
  unfoldable pub serialize_key : Object → Bytes
  serialize_key o =
      if o.object_class == cko_secret_key
      then o.secret_value
      else if not (o.object_class == cko_private_key)
      then []
      else elim o.asymmetric_key [ none ↦ [] | some key ↦ value_or (carrier.pkcs8 key) [] ]

  -- The key, after all checks but those of the cipher.
  unfoldable pub wrappable : ℕ → ℕ → ℕ → Runtime → Result (Object × Bytes)
  wrappable h wrapping k r = elim (find_object h wrapping r) [
    | none ↦ err key_handle_invalid
    | some wrapping_key ↦ elim (find_object h k r) [
      | none ↦ err key_handle_invalid
      | some key ↦ elim (require_user_login h r) [
        | err e ↦ err e
        | ok _ ↦
            if not (policy_value wrapping_key cka_wrap)
            then err key_function_not_permitted
            else if not (policy_value key cka_extractable)
            then err key_unextractable
            else if length (serialize_key key) == 0
            then err key_type_inconsistent
            else ok (wrapping_key, serialize_key key)
      ]
    ]
  ]

  -- The capacity is `*outputLength`, where there is a pointer to it.
  unfoldable pub wrap_key :
      ℕ → Option Mechanism → ℕ → ℕ → Bool → Option ℕ → Runtime → Result (Unit {0}) × Option Output
  wrap_key h mechanism wrapping k has_output capacity r = elim (find_session h r) [
    | none ↦ (err session_handle_invalid, none)
    | some session ↦ elim capacity [
      | none ↦ (err arguments_bad, none)
      | some available ↦ elim (wrappable h wrapping k r) [
        | err e ↦ (err e, none)
        | ok (wrapping_key, raw) ↦
            let out = aes_key_wrap false mechanism wrapping_key raw has_output available in
            (out.status, some out)
      ]
    ]
  ]
