-- ===== src/Signatures/Execution.antt =====
-- src/crypto/signature.cpp: executeSignature, and Sign, SignFinal, Verify and VerifyFinal.
use pkcs11hsmsim.Base.{
  ℕ, ◌+◌, ◌-◌, ◌*◌, ◌/◌, ◌%◌, ◌^◌, Bool, true, false, not, ◌&&◌, ◌||◌, Option, none, some, [],
  Bytes, ◌==◌, ltb, Array, is_null, contents, length, if◌then◌else◌,
}
use pkcs11hsmsim.Base.Dict.{adjust}
use pkcs11hsmsim.Ck.{ckk_ec, cka_sign, cka_verify, ckm_rsa_pkcs, ckm_rsa_pkcs_pss}
use pkcs11hsmsim.Result.{
  Result, ok, err, key_handle_invalid, key_function_not_permitted, buffer_too_small,
  signature_len_range, signature_invalid, data_len_range, host_memory, device_error,
  mechanism_invalid, mechanism_param_invalid,
}
use pkcs11hsmsim.Openssl.{KeyReader}
use pkcs11hsmsim.Core.State.{Object, PssParams, Operation, Runtime}
use pkcs11hsmsim.Core.{find_object, object_access_status}
use pkcs11hsmsim.Policy.Values.{policy_value}
use pkcs11hsmsim.Mechanisms.{Digest, is_rsa_pss, pss_digest, signature_digest}
use pkcs11hsmsim.Signatures.{is_raw_signature, ended}

-- How OpenSSL is set up for an operation: on a prepared block or with a digest, and with PSS parameters.
pub record Setup : Type 0 where
  pub is_raw : Bool
  pub digest : Option Digest
  pub pss : Option PssParams

-- What OpenSSL does with keys, for signing or, where the flag is set, for verifying. The last two are
-- the DER form of the two numbers of a fixed width, which may fail, and back.
pub record Engine : Type 0 where
  pub size : ℕ → ℕ
  pub digest_size : Digest → ℕ
  pub has_memory : Bool
  pub raw_init : Bool → ℕ → Bool
  pub digest_init : Bool → ℕ → Option Digest → Bool
  pub takes_pss : ℕ → PssParams → Bool
  pub takes_padding : ℕ → Bool
  pub sign : ℕ → Setup → Bytes → Option Bytes
  pub verify : ℕ → Setup → Bytes → Bytes → Bool
  pub to_der : ℕ → Bytes → Result Bytes
  pub from_der : ℕ → Bytes → Option Bytes

-- What a call leaves in the caller's buffer and in its length.
pub record Signed : Type 0 where
  pub status : Result (Unit {0})
  pub length : ℕ
  pub written : Bytes

abbrev pub is_ec_key : Object → Bool
is_ec_key o = o.key_type == ckk_ec

-- The key, if the session may use it.
unfoldable pub usable_key : ℕ → Operation → Bool → Runtime → Result (Object × ℕ)
usable_key h operation verify r = elim (find_object h operation.key_handle r) [
  | none ↦ err key_handle_invalid
  | some o ↦ elim o.asymmetric_key [
    | none ↦ err key_handle_invalid
    | some key ↦ elim (object_access_status h o r) [
      | err e ↦ err e
      | ok _ ↦
          if policy_value o (if verify then cka_verify else cka_sign)
          then ok (o, key)
          else err key_function_not_permitted
    ]
  ]
]

module _ (reader : KeyReader) (engine : Engine) where
  abbrev pub coordinate_width : ℕ → ℕ
  coordinate_width key = (reader.bits key + 7) / 8

  abbrev pub required_length : Object → ℕ → ℕ
  required_length o key = if is_ec_key o then 2 * coordinate_width key else engine.size key

  -- `requiredLength - 11` in a size_t of 64 bits.
  abbrev pub is_block_too_long : ℕ → ℕ → Bool
  is_block_too_long required n = ltb ((required + 2 ^ 64 - 11) % 2 ^ 64) n

  -- A prepared block is never hashed again.
  unfoldable pub prepare_raw : Bool → Operation → Object → ℕ → Bytes → Result Setup
  prepare_raw verify operation o key input =
      let pss = operation.mechanism == ckm_rsa_pkcs_pss in
      if operation.mechanism == ckm_rsa_pkcs
        && is_block_too_long (required_length o key) (length input)
      then err data_len_range
      else if not engine.has_memory
      then err host_memory
      else if not (engine.raw_init verify key)
      then err device_error
      else if pss
      then elim (pss_digest operation.pss.hash_alg) [
        | none ↦ err data_len_range
        | some hash ↦
            if not (length input == engine.digest_size hash)
            then err data_len_range
            else if not (engine.takes_pss key operation.pss)
            then err mechanism_param_invalid
            else ok (record { is_raw = true; digest = none; pss = some (operation.pss) })
      ]
      else if not (is_ec_key o) && not (engine.takes_padding key)
      then err device_error
      else ok (record { is_raw = true; digest = none; pss = none })

  unfoldable pub prepare_digest : Bool → Operation → ℕ → Result Setup
  prepare_digest verify operation key =
      let pss = is_rsa_pss operation.mechanism in
      let digest =
        if pss then pss_digest operation.pss.hash_alg else signature_digest operation.mechanism in
      if not engine.has_memory
      then err host_memory
      else if not (engine.digest_init verify key digest)
      then err mechanism_invalid
      else if pss && not (engine.takes_pss key operation.pss)
      then err mechanism_param_invalid
      else ok (record {
        is_raw = false;
        digest = digest;
        pss = if pss then some (operation.pss) else none;
      })

  unfoldable pub prepare : Bool → Operation → Object → ℕ → Bytes → Result Setup
  prepare verify operation o key input =
      if is_raw_signature operation.mechanism
      then prepare_raw verify operation o key input
      else prepare_digest verify operation key

  -- The signature in the form of PKCS#11: for an EC key, two numbers of a fixed width.
  unfoldable pub signature_bytes : Operation → Object → ℕ → Bytes → Result Bytes
  signature_bytes operation o key input = elim (prepare false operation o key input) [
    | err e ↦ err e
    | ok setup ↦ elim (engine.sign key setup input) [
      | none ↦ err device_error
      | some signature ↦
          if is_ec_key o
          then elim (engine.from_der (coordinate_width key) signature) [
            | none ↦ err device_error
            | some pair ↦ ok pair
          ]
          else ok signature
    ]
  ]

  -- A caller without a buffer asks for the length.
  unfoldable pub execute_signing : ℕ → Operation → Bytes → Bool → ℕ → Runtime → Signed
  execute_signing h operation input has_signature capacity r =
      let told : Result (Unit {0}) → ℕ → Signed =
        λ status n. record { status = status; length = n; written = [] } in
      elim (usable_key h operation false r) [
        | err e ↦ told (err e) capacity
        | ok (o, key) ↦
            if not has_signature
            then told (ok tt) (required_length o key)
            else if ltb capacity (required_length o key)
            then told (err buffer_too_small) (required_length o key)
            else elim (signature_bytes operation o key input) [
              | err e ↦ told (err e) capacity
              | ok signature ↦ record {
                status = ok tt;
                length = length signature;
                written = signature;
              }
            ]
      ]

  -- The form that OpenSSL reads.
  unfoldable pub encoded_signature : Object → ℕ → Bytes → Result Bytes
  encoded_signature o key signature =
      if is_ec_key o then engine.to_der (coordinate_width key) signature else ok signature

  unfoldable pub execute_verifying : ℕ → Operation → Bytes → Array ℕ → Runtime → Result (Unit {0})
  execute_verifying h operation input signature r = elim (usable_key h operation true r) [
    | err e ↦ err e
    | ok (o, key) ↦
        if is_null signature
          || (is_ec_key o && not (length (contents signature) == required_length o key))
        then err signature_len_range
        else elim (encoded_signature o key (contents signature)) [
          | err e ↦ err e
          | ok encoded ↦ elim (prepare true operation o key input) [
            | err e ↦ err e
            | ok setup ↦
                if engine.verify key setup input encoded then ok tt else err signature_invalid
          ]
        ]
  ]

  abbrev pub end_operation : ℕ → Runtime → Runtime
  end_operation h r = record r { sessions = adjust h ended r.sessions }
