-- ===== src/Signatures/Ending.antt =====
-- Sign, SignFinal, Verify and VerifyFinal: when the operation ends, and that both forms agree.
use pkcs11hsmsim.Base.{
  ◌⊎◌, ◌==◌, if◌then◌else◌, ℕ, ◌≡◌, ◌≢◌, refl, Bool, true, false, Option, none, some, Array, items,
  is_bad, contents, arith, inl, inr, Option-cases, Bool-cases,
}
use pkcs11hsmsim.Base.Dict.{lookup, lookup-adjust}
use pkcs11hsmsim.Result.{
  Result, ok, err, buffer_too_small, arguments_bad, operation_not_initialized,
}
use pkcs11hsmsim.Openssl.{KeyReader}
use pkcs11hsmsim.Core.State.{Session, Runtime}
use pkcs11hsmsim.Core.Invariant.{IsValid}
use pkcs11hsmsim.Core.Moves.{retouched-IsValid}
use pkcs11hsmsim.Signatures.{ended}
use pkcs11hsmsim.Signatures.Execution.{Engine, execute_signing, end_operation}
use pkcs11hsmsim.Signatures.Finishing.{
  Called, sign, sign_final, verify, verify_final, awaits, is_short, finished,
}

is_short-true : (x : Result (Unit {0})) → is_short x ≡ true → x ≡ err buffer_too_small
is_short-true (ok u) h = ground arith
is_short-true (err e) h = ground (arith, h)

is_short-false : (x : Result (Unit {0})) → x ≢ err buffer_too_small → is_short x ≡ false
is_short-false x other = elim (Bool-cases (is_short x)) [
  | inl short ↦ absurd (other (is_short-true x short))
  | inr long ↦ long
]

module _ (reader : KeyReader) (engine : Engine) (h : ℕ) (r : Runtime) {s : Session}
    (found : lookup h r.sessions ≡ some s) where
  -- The parts of a message that were collected are signed as the message itself would be: SignFinal does
  -- what Sign does with the collected bytes, in what it returns, writes and leaves.
  pub sign_final-sign :
      (has_signature : Bool) (capacity : Option ℕ)
      → sign_final reader engine h has_signature capacity r
        ≡ sign reader engine h (items s.operation.buffered_data) has_signature capacity r
  unfolding sign_final sign
  sign_final-sign has_signature capacity = ground (arith, found)

  pub verify_final-verify :
      (signature : Array ℕ)
      → verify_final reader engine h signature r
        ≡ verify reader engine h (items s.operation.buffered_data) signature r
  unfolding verify_final verify
  verify_final-verify signature = ground (arith, found)

  module _ (input : Array ℕ) (has_signature : Bool) (n : ℕ)
      (waits : awaits false s.operation ≡ true) (good : is_bad input ≡ false) where
    abbrev called : Called
    called = sign reader engine h input has_signature (some n) r

    sign-finished :
        called
        ≡ finished reader engine h has_signature
            (execute_signing reader engine h s.operation (contents input) has_signature n r)
            r
    unfolding sign
    sign-finished = ground (arith, found, waits, good)

    sign-kept :
        (has_signature ≡ false) ⊎ (called.result.0 ≡ err buffer_too_small) → called.result.1 ≡ r
    sign-kept = rw sign-finished (λ kept. ground (arith, kept))

    sign-over :
        has_signature ≡ true
        → called.result.0 ≢ err buffer_too_small
        → called.result.1 ≡ end_operation reader engine h r
    sign-over =
        let signed =
          execute_signing reader engine h s.operation (contents input) has_signature n r in
        rw sign-finished
          (λ wanted other. ground (arith, wanted, is_short-false signed.status other))

  end_operation-there :
      lookup h (end_operation reader engine h r).sessions
      ≡ some (record s { operation = record (s.operation) { active = false } })
  end_operation-there = ground (arith, found, lookup-adjust h h ended r.sessions)

  -- No operation is active any more.
  end_operation-refuses :
      (input : Array ℕ) (has_signature : Bool) (capacity : Option ℕ)
      → (sign reader engine h input has_signature capacity (end_operation reader engine h r)).result
        ≡ (err operation_not_initialized, end_operation reader engine h r)
  unfolding sign
  end_operation-refuses input has_signature capacity = ground (arith, end_operation-there)

  -- For a session whose signature is started. A call of Sign without a place for the length or with an
  -- input that is not passed properly is CKR_ARGUMENTS_BAD; such a call, one that asks for the length and
  -- one whose buffer is too short change nothing, so that the call can be repeated. Every other call, also
  -- one that fails, ends the operation of this session and changes nothing else, and Sign is refused from
  -- then on, whatever it is passed.
  pub sign-ends :
      (input : Array ℕ) (has_signature : Bool) (capacity : Option ℕ)
      → awaits false s.operation ≡ true
      → ((capacity ≡ none) ⊎ (is_bad input ≡ true)
          → (sign reader engine h input has_signature capacity r).result ≡ (err arguments_bad, r))
        × ((has_signature ≡ false)
              ⊎ ((sign reader engine h input has_signature capacity r).result.0
                  ≡ err buffer_too_small)
            → (sign reader engine h input has_signature capacity r).result.1 ≡ r)
        × ((n : ℕ)
            → capacity ≡ some n
            → is_bad input ≡ false
            → has_signature ≡ true
            → (sign reader engine h input has_signature capacity r).result.0 ≢ err buffer_too_small
            → let r' = (sign reader engine h input has_signature capacity r).result.1 in
              ((j : ℕ)
                → lookup j r'.sessions ≡ (
                    if h == j
                    then some (record s { operation = record (s.operation) { active = false } })
                    else lookup j r.sessions))
              × (r' ≡ record r { sessions = r'.sessions })
              × ((later : Array ℕ) (has_later : Bool) (room : Option ℕ)
                  → (sign reader engine h later has_later room r').result
                    ≡ (err operation_not_initialized, r')))
  unfolding sign
  sign-ends input has_signature none waits = (
    λ bad. ground (arith, found, waits),
    λ kept. ground (arith, found, waits),
    λ n there. absurd (ground (arith, there)),
  )
  sign-ends input has_signature (some n) waits = elim (Bool-cases (is_bad input)) [
    | inl bad ↦ (
      λ refused. ground (arith, found, waits, bad),
      λ kept. ground (arith, found, waits, bad),
      λ m same good. absurd (ground (arith, bad, good)),
    )
    | inr good ↦ (
      λ refused. absurd (ground (arith, refused, good)),
      sign-kept input has_signature n waits good,
      λ m same _ wanted long. rw (sign-over input has_signature n waits good wanted long) (
        (λ j. ground (arith, found, lookup-adjust j h ended r.sessions)),
        refl,
        end_operation-refuses,
      ),
    )
  ]

module _ (reader : KeyReader) (engine : Engine) (h : ℕ) (r : Runtime) (v : IsValid r) where
  end_operation-IsValid : IsValid (end_operation reader engine h r)
  end_operation-IsValid = retouched-IsValid h ended (λ s. (refl, refl, refl)) r v

  pub sign-IsValid :
      (input : Array ℕ) (has_signature : Bool) (capacity : Option ℕ)
      → IsValid (sign reader engine h input has_signature capacity r).result.1
  unfolding sign
  sign-IsValid input has_signature none = elim (Option-cases (lookup h r.sessions)) [
    | inl missing ↦ ground (arith, missing, v)
    | inr (s, found) ↦ ground (arith, found, v)
  ]
  sign-IsValid input has_signature (some n) = elim (Option-cases (lookup h r.sessions)) [
    | inl missing ↦ ground (arith, missing, v)
    | inr (s, found) ↦ ground (arith, found, v, end_operation-IsValid)
  ]

  pub sign_final-IsValid :
      (has_signature : Bool) (capacity : Option ℕ)
      → IsValid (sign_final reader engine h has_signature capacity r).result.1
  unfolding sign_final
  sign_final-IsValid has_signature none = elim (Option-cases (lookup h r.sessions)) [
    | inl missing ↦ ground (arith, missing, v)
    | inr (s, found) ↦ ground (arith, found, v)
  ]
  sign_final-IsValid has_signature (some n) = elim (Option-cases (lookup h r.sessions)) [
    | inl missing ↦ ground (arith, missing, v)
    | inr (s, found) ↦ ground (arith, found, v, end_operation-IsValid)
  ]

  pub verify-IsValid :
      (input signature : Array ℕ) → IsValid (verify reader engine h input signature r).1
  unfolding verify
  verify-IsValid input signature = elim (Option-cases (lookup h r.sessions)) [
    | inl missing ↦ ground (arith, missing, v)
    | inr (s, found) ↦ ground (arith, found, v, end_operation-IsValid)
  ]

  pub verify_final-IsValid :
      (signature : Array ℕ) → IsValid (verify_final reader engine h signature r).1
  unfolding verify_final
  verify_final-IsValid signature = elim (Option-cases (lookup h r.sessions)) [
    | inl missing ↦ ground (arith, missing, v)
    | inr (s, found) ↦ ground (arith, found, v, end_operation-IsValid)
  ]
