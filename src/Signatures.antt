-- ===== src/Signatures.antt =====
-- src/crypto/signature.cpp: how a signature or verification is started and how its message is
-- collected. The sizes of digests are asked of OpenSSL.
pub mod Starting
pub mod Collecting
pub mod Execution
pub mod Finishing
pub mod Ending
pub mod Pairing
mod Tests
use pkcs11hsmsim.Base.{
  ℕ, ◌+◌, ◌-◌, ◌*◌, ◌/◌, Bool, true, false, not, ◌&&◌, ◌||◌, Option, none, some, List, [], ◌∷◌,
  ◌++◌, Bytes, ◌==◌, ltb, Array, count, contents, is_null, is_bad, length, take, drop,
  if◌then◌else◌, is_some,
}
use pkcs11hsmsim.Base.Dict.{adjust}
use pkcs11hsmsim.Ck.{
  sizeof_ulong, cko_private_key, cka_sign, cka_verify, ckm_rsa_pkcs, ckm_ecdsa, ckm_rsa_pkcs_pss,
  ckm_sha256_rsa_pkcs_pss, ckm_sha384_rsa_pkcs_pss, ckm_sha512_rsa_pkcs_pss, ckm_sha256, ckm_sha384,
  ckm_sha512,
}
use pkcs11hsmsim.Result.{
  Result, ok, err, session_handle_invalid, operation_not_initialized, arguments_bad,
  mechanism_invalid, data_len_range, operation_active, key_handle_invalid, key_type_inconsistent,
  key_function_not_permitted, mechanism_param_invalid, Exec, gets, lift, need, refuse_if, modify,
  reject, ◌>>=◌, ◌>>◌,
}
use pkcs11hsmsim.Openssl.{KeyReader}
use pkcs11hsmsim.Core.State.{Object, PssParams, Operation, Session, Runtime, no_operation}
use pkcs11hsmsim.Core.{find_session, find_object, object_access_status}
use pkcs11hsmsim.Policy.Values.{one_of, policy_value}
use pkcs11hsmsim.Template.{from_bytes}
use pkcs11hsmsim.Mechanisms.{
  supported_mechanisms, supports_signature, is_rsa_pss, Digest, pss_digest, mgf_digest,
}

-- 64 MiB.
abbrev pub max_multipart_bytes : ℕ
max_multipart_bytes = 64 * 1024 * 1024

unfoldable pub is_raw_signature : ℕ → Bool
is_raw_signature m = m == ckm_rsa_pkcs || m == ckm_ecdsa || m == ckm_rsa_pkcs_pss

abbrev pub ended : Session → Session
ended s = record s { operation = record (s.operation) { active = false } }

abbrev pub collecting : Bytes → Session → Session
collecting bytes s = record s {
  operation = record (s.operation) { buffered_data = s.operation.buffered_data ++ bytes };
}

-- A change of the session, then `return code;`
abbrev change_session : ℕ → (Session → Session) → Exec Runtime (Unit {0})
change_session h f = modify (λ r. record r { sessions = adjust h f r.sessions })

-- What a well-timed call does with its part of the message.
unfoldable pub append_input : ℕ → Operation → Array ℕ → Exec Runtime (Unit {0})
append_input h operation input =
    if is_raw_signature operation.mechanism
    then (change_session h ended >> reject mechanism_invalid)
    else if ltb max_multipart_bytes (count input)
        || ltb (max_multipart_bytes - count input) (length operation.buffered_data)
    then (change_session h ended >> reject data_len_range)
    else change_session h (collecting (contents input))

unfoldable pub append_signature_data : ℕ → Array ℕ → Bool → Exec Runtime (Unit {0})
append_signature_data h input verify = do
  r ← gets (λ r. r)
  session ← need (find_session h r) session_handle_invalid
  let operation = session.operation
  refuse_if
      (not operation.active || (operation.verify && not verify) || (not operation.verify && verify))
      operation_not_initialized
  refuse_if (is_bad input) arguments_bad
  append_input h operation input

-- CK_MECHANISM.
pub record Mechanism : Type 0 where
  pub mechanism : ℕ
  pub parameter : Array ℕ

-- The three numbers of CK_RSA_PKCS_PSS_PARAMS.
unfoldable pub pss_of_bytes : Bytes → PssParams
pss_of_bytes bytes = record {
  hash_alg = from_bytes (take sizeof_ulong bytes);
  mgf = from_bytes (take sizeof_ulong (drop sizeof_ulong bytes));
  s_len = from_bytes (take sizeof_ulong (drop (2 * sizeof_ulong) bytes));
}

abbrev pub no_pss : PssParams
no_pss = record { hash_alg = 0; mgf = 0; s_len = 0 }

-- The digest that a PSS mechanism demands.
unfoldable pub expected_hash : ℕ → PssParams → ℕ
expected_hash m pss =
    if m == ckm_sha256_rsa_pkcs_pss
    then ckm_sha256
    else if m == ckm_sha384_rsa_pkcs_pss
    then ckm_sha384
    else if m == ckm_sha512_rsa_pkcs_pss
    then ckm_sha512
    else pss.hash_alg

-- `maxSalt < 0 || sLen > maxSalt`, with the key's bits and the digest's size.
unfoldable pub is_salt_too_long : ℕ → ℕ → ℕ → Bool
is_salt_too_long bits size s_len =
    ltb ((bits + 6) / 8) (size + 2) || ltb ((bits + 6) / 8 - size - 2) s_len

module _ (reader : KeyReader) (digest_size : Digest → ℕ) where
  unfoldable pub read_pss : ℕ → Mechanism → Result PssParams
  read_pss key m =
      if is_null m.parameter || not (count m.parameter == 3 * sizeof_ulong)
      then err mechanism_param_invalid
      else (let pss = pss_of_bytes (contents m.parameter) in
          elim (pss_digest pss.hash_alg) [
            | none ↦ err mechanism_param_invalid
            | some hash ↦
                if not (is_some (mgf_digest pss.mgf))
                  || not (expected_hash m.mechanism pss == pss.hash_alg)
                  || is_salt_too_long (reader.bits key) (digest_size hash) pss.s_len
                then err mechanism_param_invalid
                else ok pss
          ])

  unfoldable pub read_parameters : ℕ → Mechanism → Result PssParams
  read_parameters key m =
      if is_rsa_pss m.mechanism
      then read_pss key m
      else if not (is_null m.parameter) || not (count m.parameter == 0)
      then err mechanism_param_invalid
      else ok no_pss

  -- The new operation.
  abbrev pub started : ℕ → Bool → ℕ → PssParams → Session → Session
  started k verify mechanism pss s = record s {
    operation = record {
      active = true;
      verify = verify;
      mechanism = mechanism;
      key_handle = k;
      buffered_data = [];
      pss = pss;
    };
  }

  -- From the check of the parameters on.
  unfoldable pub accept_parameters : ℕ → ℕ → Bool → Mechanism → ℕ → Exec Runtime (Unit {0})
  accept_parameters h k verify m key = do
    pss ← lift (read_parameters key m)
    change_session h (started k verify m.mechanism pss)

  -- The checks of mechanism and key.
  unfoldable pub check_key : ℕ → ℕ → Bool → Mechanism → Object → ℕ → Exec Runtime (Unit {0})
  check_key h k verify m o key = do
    refuse_if (not (one_of supported_mechanisms m.mechanism)) mechanism_invalid
    refuse_if (not verify && not (o.object_class == cko_private_key)) key_type_inconsistent
    refuse_if (not (supports_signature o.key_type m.mechanism)) key_type_inconsistent
    refuse_if (not (policy_value o (if verify then cka_verify else cka_sign)))
        key_function_not_permitted
    accept_parameters h k verify m key

  unfoldable pub initialize_signature : ℕ → Option Mechanism → ℕ → Bool → Exec Runtime (Unit {0})
  initialize_signature h mechanism k verify = do
    r ← gets (λ r. r)
    session ← need (find_session h r) session_handle_invalid
    m ← need mechanism arguments_bad
    refuse_if session.operation.active operation_active
    o ← need (find_object h k r) key_handle_invalid
    key ← need (o.asymmetric_key) key_handle_invalid
    lift (object_access_status h o r)
    check_key h k verify m o key
