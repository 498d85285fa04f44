-- ===== src/Wrapping/Unwrapping.antt =====
-- src/crypto/wrapping.cpp: UnwrapKey.
pub mod Making
pub mod Calling
use pkcs11hsmsim.Base.{
  ℕ, ◌+◌, ◌%◌, Bool, true, false, not, ◌||◌, Option, none, some, [], Bytes, ◌==◌, Array, null,
  items, is_bad, length, value_or, if◌then◌else◌,
}
use pkcs11hsmsim.Base.Text.{codes, decimal}
use pkcs11hsmsim.Ck.{
  ulong_mod, cko_secret_key, cko_private_key, ckk_aes, cka_unwrap, cka_class, cka_label, cka_id,
  cka_value_len,
}
use pkcs11hsmsim.Result.{
  Result, ok, err, session_handle_invalid, arguments_bad, key_handle_invalid,
  key_function_not_permitted, key_size_range, template_inconsistent, data_invalid, Exec, pure, gets,
  lift, need, refuse_if, ◌>>=◌, ◌>>◌,
}
use pkcs11hsmsim.Openssl.{KeyReader, KeyWriter, KeyCarrier}
use pkcs11hsmsim.Mechanisms.{key_type}
use pkcs11hsmsim.Signatures.{Mechanism}
use pkcs11hsmsim.Core.State.{Slot, Object, Runtime, no_object}
use pkcs11hsmsim.Core.{find_session, find_object, session_slot, require_user_login}
use pkcs11hsmsim.Template.{Template, template_unsigned, template_string}
use pkcs11hsmsim.Policy.Values.{policy_value}
use pkcs11hsmsim.Policy.Creation.{validate_creation_template, apply_creation_template}
use pkcs11hsmsim.KeyStore.Saving.{next_handle, secret_path, publish_secret}
use pkcs11hsmsim.KeyStore.KeyPairs.{save_key_pair}
use pkcs11hsmsim.KeyStore.KeyPairs.Publishing.{publish_pair, pair_path}
use pkcs11hsmsim.Generation.{is_aes_size}
use pkcs11hsmsim.Generation.Pairs.{policy_object, settle_private}
use pkcs11hsmsim.Wrapping.{Output, aes_key_wrap}

abbrev pub unwrapped_label : Template → Bytes
unwrapped_label attributes = template_string attributes cka_label (codes "unwrapped-key")

-- The object before the template is applied: where the template has no id, it is the numeral of the
-- counter, which is one past the handle.
unfoldable pub unwrapped_key : ℕ → Bytes → Template → Bytes → Object
unwrapped_key k directory attributes raw =
    let label = unwrapped_label attributes in
    record no_object {
      handle = k;
      object_class = cko_secret_key;
      key_type = ckk_aes;
      label = label;
      id = template_string attributes cka_id (decimal ((k + 1) % ulong_mod));
      path = secret_path directory label;
      secret_value = raw;
    }

unfoldable pub unwrap_secret : ℕ → Template → Bytes → Exec Runtime ℕ
unwrap_secret h attributes raw = do
  refuse_if (not (is_aes_size (length raw))) key_size_range
  k ← next_handle
  r ← gets (λ r. r)
  slot ← lift (session_slot h r)
  o ←
      lift (
        apply_creation_template (unwrapped_key k slot.directory attributes raw) h attributes true r)
  refuse_if (not (value_or (template_unsigned attributes cka_value_len) (length raw) == length raw))
      template_inconsistent
  publish_secret (o.owner_session == 0) o

-- The public object gets the id and the owner of the private one.
abbrev pub settle_unwrapped : Object → Bytes → Object → Object
settle_unwrapped policy id o = record o {
  id = id;
  owner_session = policy.owner_session;
  path = if policy.owner_session == 0 then o.path else [];
}

module _ (reader : KeyReader) (writer : KeyWriter) (carrier : KeyCarrier) where
  -- Once the template is applied to the policies of the private key.
  unfoldable pub keep_unwrapped : ℕ → Template → ℕ → Object → Exec Runtime ℕ
  keep_unwrapped h attributes key policy = do
    let label = unwrapped_label attributes
    let stored = policy.owner_session == 0
    r ← gets (λ r. r)
    slot ← lift (session_slot h r)
    if stored then save_key_pair reader writer slot (pair_path slot label) key label else pure tt
    publish_pair reader writer slot label key stored (λ own. template_string attributes cka_id own)
        (settle_private policy) (settle_unwrapped policy)

  unfoldable pub unwrap_private : ℕ → Template → Bytes → Exec Runtime ℕ
  unwrap_private h attributes raw = do
    r ← gets (λ r. r)
    key ← need (carrier.parse_pkcs8 raw) data_invalid
    policy ← lift (
        apply_creation_template (policy_object cko_private_key (key_type reader key)) h attributes
          true r)
    keep_unwrapped h attributes key policy

  -- By the class of the template.
  unfoldable pub unwrap_raw : ℕ → Template → Bytes → Exec Runtime ℕ
  unwrap_raw h attributes raw =
      let cls = value_or (template_unsigned attributes cka_class) cko_secret_key in
      if cls == cko_secret_key
      then unwrap_secret h attributes raw
      else (refuse_if (not (cls == cko_private_key)) template_inconsistent
          >> unwrap_private h attributes raw)

  -- The bytes that the wrapped input holds.
  unfoldable pub unwrapped_bytes : Option Mechanism → Object → Bytes → Result Bytes
  unwrapped_bytes mechanism key bytes =
      let out = aes_key_wrap carrier true mechanism key bytes true (length bytes) in
      elim out.status [ err e ↦ err e | ok _ ↦ ok out.written ]

  unfoldable pub unwrap_key : ℕ → Option Mechanism → ℕ → Array ℕ → Template → Bool → Exec Runtime ℕ
  unwrap_key h mechanism wrapping (null n) attributes has_handle = do
    r ← gets (λ r. r)
    session ← need (find_session h r) session_handle_invalid
    lift (err arguments_bad)
  unwrap_key h mechanism wrapping (items bytes) attributes has_handle = do
    r ← gets (λ r. r)
    session ← need (find_session h r) session_handle_invalid
    refuse_if (not has_handle || is_bad attributes) arguments_bad
    key ← need (find_object h wrapping r) key_handle_invalid
    lift (require_user_login h r)
    refuse_if (not (policy_value key cka_unwrap)) key_function_not_permitted
    lift (validate_creation_template attributes)
    raw ← lift (unwrapped_bytes mechanism key bytes)
    unwrap_raw h attributes raw
