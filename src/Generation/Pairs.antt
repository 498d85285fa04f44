-- ===== src/Generation/Pairs.antt =====
-- src/crypto/key_generation.cpp: GenerateKeyPair.
pub mod Keeping
pub mod Making
use pkcs11hsmsim.Base.{
  ℕ, ◌+◌, ◌%◌, Bool, true, false, not, ◌&&◌, ◌||◌, Option, none, some, [], ◌++◌, Bytes, ◌==◌,
  bytes_eq, length, Array, is_bad, value_or, if◌then◌else◌,
}
use pkcs11hsmsim.Base.Dict.{lookup, adjust}
use pkcs11hsmsim.Base.Text.{codes, join}
use pkcs11hsmsim.Ck.{
  ulong_mod, cko_private_key, cko_public_key, ckk_rsa, ckk_ec, ckk_ml_dsa, ckk_slh_dsa, cka_label,
  cka_id, cka_modulus_bits, cka_ec_params,
}
use pkcs11hsmsim.Result.{
  Result, ok, err, session_handle_invalid, arguments_bad, template_inconsistent,
  template_incomplete, mechanism_invalid, attribute_value_invalid, device_error, general_error,
  Exec, pure, gets, lift, need, refuse_if, modify, ◌>>=◌, ◌>>◌,
}
use pkcs11hsmsim.Openssl.{KeyReader, KeyWriter, KeyMaker}
use pkcs11hsmsim.Utilities.{safe_filename}
use pkcs11hsmsim.Core.State.{Slot, Object, Runtime, no_object}
use pkcs11hsmsim.Core.{find_session, session_slot}
use pkcs11hsmsim.Template.{Template, template_bytes, template_string, template_unsigned}
use pkcs11hsmsim.Mechanisms.{generation_algorithm}
use pkcs11hsmsim.Mechanisms.Names.{starts_with}
use pkcs11hsmsim.Policy.Creation.{
  validate_creation_template, is_token_template, apply_creation_template,
}
use pkcs11hsmsim.KeyStore.{persist_metadata}
use pkcs11hsmsim.KeyStore.KeyPairs.{save_key_pair}
use pkcs11hsmsim.KeyStore.KeyPairs.Publishing.{publish_pair, pair_path}

abbrev pub is_rsa : Bytes → Bool
is_rsa algorithm = bytes_eq algorithm (codes "RSA")

abbrev pub is_ec : Bytes → Bool
is_ec algorithm = bytes_eq algorithm (codes "EC")

unfoldable pub pair_key_type : Bytes → ℕ
pair_key_type algorithm =
    if is_rsa algorithm
    then ckk_rsa
    else if is_ec algorithm
    then ckk_ec
    else if starts_with (codes "ML-DSA") algorithm
    then ckk_ml_dsa
    else ckk_slh_dsa

-- The object that carries the policies of a template.
abbrev pub policy_object : ℕ → ℕ → Object
policy_object cls type = record no_object { object_class = cls; key_type = type }

-- `!=` on Booleans.
abbrev pub differ : Bool → Bool → Bool
differ a b = if a then not b else b

abbrev pub modulus_bits : Template → ℕ
modulus_bits attributes = value_or (template_unsigned attributes cka_modulus_bits) 3072

module _ (maker : KeyMaker) where
  -- The parameters of the generation, from the public template; a setting that OpenSSL refuses is an
  -- invalid attribute.
  unfoldable pub check_parameters : Bytes → Template → Result (Unit {0})
  check_parameters algorithm attributes =
      if is_rsa algorithm
      then (if maker.takes_bits (modulus_bits attributes)
          then ok tt
          else err attribute_value_invalid)
      else if is_ec algorithm
      then elim (template_bytes attributes cka_ec_params) [
        | none ↦ err template_incomplete
        | some oid ↦ if maker.takes_curve oid then ok tt else err attribute_value_invalid
      ]
      else ok tt

  -- EVP_PKEY_generate with those parameters.
  unfoldable pub generated : Bytes → Template → Option ℕ
  generated algorithm attributes =
      maker.generate algorithm (if is_rsa algorithm then some (modulus_bits attributes) else none)
        (if is_ec algorithm then template_bytes attributes cka_ec_params else none)

  unfoldable pub make_pair : Bytes → Template → Exec Runtime ℕ
  make_pair algorithm attributes = do
    refuse_if (not (maker.knows algorithm)) mechanism_invalid
    lift (check_parameters algorithm attributes)
    need (generated algorithm attributes) device_error

-- The private object of the pair: its id comes from the private template, then from the public one,
-- and is its own otherwise.
unfoldable pub common_id : Template → Template → Bytes → Bytes
common_id public_template private_template own =
    template_string private_template cka_id (template_string public_template cka_id own)

-- What the templates say of the private object. Its owner decides on both paths.
abbrev pub settle_private : Object → Object → Object
settle_private policy o = record o {
  policy = policy.policy;
  owner_session = policy.owner_session;
  path = if policy.owner_session == 0 then o.path else [];
}

-- What they say of the public object, after the id of the pair is known.
abbrev pub settle_public : Object → Object → Template → Bytes → Bytes → Object → Object
settle_public policy private_policy attributes label id o = record o {
  id = template_string attributes cka_id id;
  label = template_string attributes cka_label label;
  policy = policy.policy;
  owner_session = policy.owner_session;
  path = if private_policy.owner_session == 0 then o.path else [];
}

abbrev pub pair_label : Template → Template → Bytes
pair_label public_template private_template =
    template_string private_template cka_label
      (template_string public_template cka_label (codes "generated-key"))

module _ (reader : KeyReader) (writer : KeyWriter) where
  -- From the key on.
  unfoldable pub keep_pair : ℕ → ℕ → Object → Object → Template → Template → Exec Runtime (ℕ × ℕ)
  keep_pair h key public_policy private_policy public_template private_template = do
    let label = pair_label public_template private_template
    let stored = private_policy.owner_session == 0
    r ← gets (λ r. r)
    slot ← lift (session_slot h r)
    if stored then save_key_pair reader writer slot (pair_path slot label) key label else pure tt
    k ←
        publish_pair reader writer slot label key stored
          (common_id public_template private_template) (settle_private private_policy)
          (settle_public public_policy private_policy public_template label)
    pure (k, (k + 1) % ulong_mod)

  unfoldable pub generate_key_pair :
      KeyMaker → ℕ → Option ℕ → Template → Template → Bool → Bool → Exec Runtime (ℕ × ℕ)
  generate_key_pair maker h mechanism public_template private_template has_public has_private = do
    r ← gets (λ r. r)
    session ← need (find_session h r) session_handle_invalid
    m ← need mechanism arguments_bad
    refuse_if
        (not has_public || not has_private || is_bad public_template || is_bad private_template)
        arguments_bad
    lift (validate_creation_template public_template)
    lift (validate_creation_template private_template)
    refuse_if
        (differ (is_token_template public_template true) (is_token_template private_template true))
        template_inconsistent
    let algorithm = generation_algorithm m public_template
    refuse_if (length algorithm == 0) mechanism_invalid
    let type = pair_key_type algorithm
    public_policy ←
        lift (apply_creation_template (policy_object cko_public_key type) h public_template true r)
    private_policy ←
        lift
          (apply_creation_template (policy_object cko_private_key type) h private_template true r)
    key ← make_pair maker algorithm public_template
    keep_pair h key public_policy private_policy public_template private_template
