-- ===== src/Calls/Signing.antt =====
-- Starting a signature and collecting its message change one session's operation at most.
use pkcs11hsmsim.Base.{
  ℕ, refl, Bool, Option, none, some, arith, Array, contents, inl, inr, Option-cases, Bool-cases,
}
use pkcs11hsmsim.Base.Dict.{lookup}
use pkcs11hsmsim.Result.{Result-cases}
use pkcs11hsmsim.Openssl.{KeyReader}
use pkcs11hsmsim.Core.State.{Object, Operation, Runtime}
use pkcs11hsmsim.Core.{find_object}
use pkcs11hsmsim.Core.Invariant.{IsValid}
use pkcs11hsmsim.Core.Moves.{retouched-IsValid}
use pkcs11hsmsim.Mechanisms.{Digest}
use pkcs11hsmsim.Signatures.{
  Mechanism, append_signature_data, append_input, initialize_signature, check_key,
  accept_parameters, read_parameters, started, ended, collecting, is_raw_signature,
}

append_input-IsValid :
    (h : ℕ) (operation : Operation) (input : Array ℕ) (r : Runtime)
    → IsValid r
    → IsValid (append_input h operation input r).1
unfolding append_input
append_input-IsValid h operation input r v =
    let over = retouched-IsValid h ended (λ s. (refl, refl, refl)) r v in
    let more = retouched-IsValid h (collecting (contents input)) (λ s. (refl, refl, refl)) r v in
    elim (Bool-cases (is_raw_signature operation.mechanism)) [
      | inl raw ↦ rw raw over
      | inr hashes ↦ rw hashes (ground (arith, over, more))
    ]

pub append_signature_data-IsValid :
    (h : ℕ) (input : Array ℕ) (verify : Bool) (r : Runtime)
    → IsValid r
    → IsValid (append_signature_data h input verify r).1
unfolding append_signature_data
append_signature_data-IsValid h input verify r v = elim (Option-cases (lookup h r.sessions)) [
  | inl missing ↦ rw missing v
  | inr (s, found) ↦ rw found (ground (arith, append_input-IsValid h s.operation input r v))
]

module _ (reader : KeyReader) (digest_size : Digest → ℕ) (h k : ℕ) (verify : Bool) where
  accept_parameters-IsValid :
      (m : Mechanism) (key : ℕ) (r : Runtime)
      → IsValid r
      → IsValid (accept_parameters reader digest_size h k verify m key r).1
  unfolding accept_parameters
  accept_parameters-IsValid m key r v =
      elim (Result-cases (read_parameters reader digest_size key m)) [
        | inr (fault, e) ↦ rw e v
        | inl (pss, e) ↦ rw e (
            retouched-IsValid h (started reader digest_size k verify m.mechanism pss)
              (λ s. (refl, refl, refl)) r v)
      ]

  check_key-IsValid :
      (m : Mechanism) (o : Object) (key : ℕ) (r : Runtime)
      → IsValid r
      → IsValid (check_key reader digest_size h k verify m o key r).1
  unfolding check_key
  check_key-IsValid m o key r v = ground (arith, accept_parameters-IsValid m key r v)

pub initialize_signature-IsValid :
    (reader : KeyReader) (digest_size : Digest → ℕ) (h : ℕ) (mechanism : Option Mechanism) (k : ℕ)
    (verify : Bool) (r : Runtime)
    → IsValid r
    → IsValid (initialize_signature reader digest_size h mechanism k verify r).1
unfolding initialize_signature
initialize_signature-IsValid reader digest_size h none k verify r v = ground arith
initialize_signature-IsValid reader digest_size h (some m) k verify r v =
    elim (Option-cases (lookup h r.sessions)) [
      | inl missing ↦ rw missing v
      | inr (s, found) ↦ elim (Option-cases (find_object h k r)) [
        | inl absent ↦ rw found (rw absent (ground arith))
        | inr (o, there) ↦ elim (Option-cases o.asymmetric_key) [
          | inl without ↦ rw found (rw there (rw without (ground arith)))
          | inr (key, has) ↦ rw found (
              rw there (
                rw has
                  (ground (arith, check_key-IsValid reader digest_size h k verify m o key r v))))
        ]
      ]
    ]
