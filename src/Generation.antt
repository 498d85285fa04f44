-- ===== src/Generation.antt =====
-- src/crypto/key_generation.cpp: GenerateKey and GenerateRandom.
pub mod Making
pub mod Pairs
mod Tests
use pkcs11hsmsim.Base.{
  ℕ, Bool, true, false, not, ◌&&◌, ◌||◌, Option, none, some, [], ◌∷◌, Bytes, ◌==◌, value_or,
  if◌then◌else◌,
}
use pkcs11hsmsim.Base.Text.{codes, decimal}
use pkcs11hsmsim.Ck.{cko_secret_key, ckk_aes, ckm_aes_key_gen, cka_value_len, cka_label, cka_id}
use pkcs11hsmsim.Result.{
  Result, ok, err, session_handle_invalid, arguments_bad, mechanism_invalid, key_size_range,
  device_error, Exec, pure, gets, lift, need, refuse_if, ◌>>=◌, ◌>>◌,
}
use pkcs11hsmsim.Core.State.{Object, Runtime, no_object}
use pkcs11hsmsim.Core.{find_session, session_slot}
use pkcs11hsmsim.Template.{Template, template_unsigned, template_string}
use pkcs11hsmsim.Policy.Creation.{validate_creation_template, apply_creation_template}
use pkcs11hsmsim.KeyStore.Saving.{next_handle, secret_path, publish_secret}

abbrev pub is_aes_size : ℕ → Bool
is_aes_size n = n == 16 || n == 24 || n == 32

-- The number of bytes of the key, 32 where the template does not say.
abbrev pub key_length : Template → ℕ
key_length attributes = value_or (template_unsigned attributes cka_value_len) 32

-- The object before the template is applied and its value is drawn.
unfoldable pub described_key : ℕ → Bytes → Template → Object
described_key k directory attributes =
    let label = template_string attributes cka_label (codes "aes-key") in
    record no_object {
      handle = k;
      object_class = cko_secret_key;
      key_type = ckk_aes;
      label = label;
      id = template_string attributes cka_id (decimal k);
      path = secret_path directory label;
    }

-- `RAND_bytes` of a number of bytes: the bytes, unless it fails.
module _ (random : ℕ → Option Bytes) where
  -- From the handle on: a handle is used up even where the template is refused.
  unfoldable pub make_key : ℕ → Template → ℕ → Exec Runtime ℕ
  make_key h attributes length = do
    k ← next_handle
    r ← gets (λ r. r)
    slot ← lift (session_slot h r)
    o ←
        lift
          (apply_creation_template (described_key k slot.directory attributes) h attributes true r)
    value ← need (random length) device_error
    let keyed = record o { secret_value = value }
    publish_secret (keyed.owner_session == 0) keyed

  unfoldable pub generate_key : ℕ → Option ℕ → Template → Bool → Exec Runtime ℕ
  generate_key h mechanism attributes has_handle = do
    r ← gets (λ r. r)
    session ← need (find_session h r) session_handle_invalid
    refuse_if (not has_handle) arguments_bad
    m ← need mechanism arguments_bad
    refuse_if (not (m == ckm_aes_key_gen)) mechanism_invalid
    lift (validate_creation_template attributes)
    refuse_if (not (is_aes_size (key_length attributes))) key_size_range
    make_key h attributes (key_length attributes)

  -- The bytes that are written.
  unfoldable pub generate_random : ℕ → Bool → ℕ → Exec Runtime Bytes
  generate_random h has_output length = do
    r ← gets (λ r. r)
    session ← need (find_session h r) session_handle_invalid
    refuse_if (not has_output && not (length == 0)) arguments_bad
    need (random length) device_error
