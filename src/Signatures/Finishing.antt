-- ===== src/Signatures/Finishing.antt =====
-- src/crypto/signature.cpp: Sign, SignFinal, Verify and VerifyFinal.
use pkcs11hsmsim.Base.{
  ℕ, Bool, true, false, not, ◌&&◌, ◌||◌, Option, none, some, Array, is_bad, contents, if◌then◌else◌,
}
use pkcs11hsmsim.Result.{
  Rv, Result, ok, err, session_handle_invalid, operation_not_initialized, arguments_bad,
  buffer_too_small,
}
use pkcs11hsmsim.Openssl.{KeyReader}
use pkcs11hsmsim.Core.State.{Operation, Runtime}
use pkcs11hsmsim.Core.{find_session}
use pkcs11hsmsim.Signatures.Execution.{
  Engine, Signed, execute_signing, execute_verifying, end_operation,
}

-- The return code with the registry, and what is left in the caller's buffer where it is touched.
pub record Called : Type 0 where
  pub result : Result (Unit {0}) × Runtime
  pub output : Option Signed

abbrev pub refused : Rv → Runtime → Called
refused e r = record { result = (err e, r); output = none }

abbrev pub is_short : Result (Unit {0}) → Bool
is_short (ok u) = false
is_short (err buffer_too_small) = true
is_short (err e) = false

-- The operation waits for such a call.
abbrev pub awaits : Bool → Operation → Bool
awaits verify operation =
    operation.active && (if verify then operation.verify else not operation.verify)

module _ (reader : KeyReader) (engine : Engine) where
  -- A size query or a short buffer leaves the operation for a retry; all else ends it.
  abbrev pub finished : ℕ → Bool → Signed → Runtime → Called
  finished h has_signature signed r = record {
    result = (
      signed.status,
      if has_signature && not (is_short signed.status) then end_operation reader engine h r else r,
    );
    output = some signed;
  }

  -- The capacity is `*signatureLength`, where there is a pointer to it.
  unfoldable pub sign : ℕ → Array ℕ → Bool → Option ℕ → Runtime → Called
  sign h input has_signature capacity r = elim (find_session h r) [
    | none ↦ refused session_handle_invalid r
    | some s ↦
        if not (awaits false s.operation)
        then refused operation_not_initialized r
        else elim capacity [
          | none ↦ refused arguments_bad r
          | some n ↦
              if is_bad input
              then refused arguments_bad r
              else finished h has_signature
                  (execute_signing reader engine h s.operation (contents input) has_signature n r) r
        ]
  ]

  unfoldable pub sign_final : ℕ → Bool → Option ℕ → Runtime → Called
  sign_final h has_signature capacity r = elim (find_session h r) [
    | none ↦ refused session_handle_invalid r
    | some s ↦
        if not (awaits false s.operation)
        then refused operation_not_initialized r
        else elim capacity [
          | none ↦ refused arguments_bad r
          | some n ↦
              finished h has_signature
                (execute_signing reader engine h s.operation s.operation.buffered_data has_signature
                  n r)
                r
        ]
  ]

  unfoldable pub verify : ℕ → Array ℕ → Array ℕ → Runtime → Result (Unit {0}) × Runtime
  verify h input signature r = elim (find_session h r) [
    | none ↦ (err session_handle_invalid, r)
    | some s ↦
        if not (awaits true s.operation)
        then (err operation_not_initialized, r)
        else if is_bad input || is_bad signature
        then (err arguments_bad, r)
        else (
          execute_verifying reader engine h s.operation (contents input) signature r,
          end_operation reader engine h r,
        )
  ]

  unfoldable pub verify_final : ℕ → Array ℕ → Runtime → Result (Unit {0}) × Runtime
  verify_final h signature r = elim (find_session h r) [
    | none ↦ (err session_handle_invalid, r)
    | some s ↦
        if not (awaits true s.operation)
        then (err operation_not_initialized, r)
        else if is_bad signature
        then (err arguments_bad, r)
        else (
          execute_verifying reader engine h s.operation s.operation.buffered_data signature r,
          end_operation reader engine h r,
        )
  ]
