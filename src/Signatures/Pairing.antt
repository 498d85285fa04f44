-- ===== src/Signatures/Pairing.antt =====
-- What was signed with a private key is verified with its public part.
use pkcs11hsmsim.Base.{
  ℕ, ◌*◌, ◌≡◌, true, false, Option, some, Bytes, Array, items, contents, is_bad, length, arith, inl,
  inr, Option-cases, Bool-cases, if◌then◌else◌,
}
use pkcs11hsmsim.Result.{ok, Result-cases}
use pkcs11hsmsim.Openssl.{KeyReader}
use pkcs11hsmsim.Base.Dict.{lookup}
use pkcs11hsmsim.Core.State.{Object, PssParams, Operation, Session, Runtime}
use pkcs11hsmsim.Signatures.Finishing.{sign, verify, awaits}
use pkcs11hsmsim.Mechanisms.{Digest, is_rsa_pss, pss_digest, signature_digest}
use pkcs11hsmsim.Signatures.Execution.{
  Engine, Setup, Signed, execute_signing, execute_verifying, usable_key, signature_bytes,
  encoded_signature, prepare, prepare_raw, prepare_digest, coordinate_width, is_ec_key,
  end_operation,
}

-- The key and its public part, as OpenSSL treats them: both have one size, what signing accepts verifying
-- accepts too, and a signature of the key is verified by the part. An ECDSA signature that an EC key has made
-- has two numbers of the fixed width, and their DER form, which need not be the same bytes, is verified too.
pub record Matches (reader : KeyReader) (engine : Engine) (key part : ℕ) : Type 0 where
  pub bits : reader.bits part ≡ reader.bits key
  pub size : engine.size part ≡ engine.size key
  pub raw_init : engine.raw_init false key ≡ true → engine.raw_init true part ≡ true
  pub digest_init :
      (digest : Option Digest)
      → engine.digest_init false key digest ≡ true
      → engine.digest_init true part digest ≡ true
  pub pss : (p : PssParams) → engine.takes_pss key p ≡ true → engine.takes_pss part p ≡ true
  pub padding : engine.takes_padding key ≡ true → engine.takes_padding part ≡ true
  pub verifies :
      (setup : Setup) (input signature : Bytes)
      → engine.sign key setup input ≡ some signature
      → engine.verify part setup input signature ≡ true
  pub der :
      (setup : Setup) (input signature numbers : Bytes)
      → reader.is_ec key ≡ true
      → engine.sign key setup input ≡ some signature
      → engine.from_der (coordinate_width reader engine key) signature ≡ some numbers
      → (length numbers ≡ 2 * coordinate_width reader engine key)
        × (encoded : Bytes) × (engine.to_der (coordinate_width reader engine key) numbers
            ≡ ok encoded)
        × (engine.verify part setup input encoded ≡ true)

module _ (reader : KeyReader) (engine : Engine) (key part : ℕ)
    (pair : Matches reader engine key part) (o o' : Object) (same_type : o'.key_type ≡ o.key_type)
    (curve : is_ec_key o ≡ true → reader.is_ec key ≡ true) (operation operation' : Operation)
    (same_mechanism : operation'.mechanism ≡ operation.mechanism)
    (same_pss : operation'.pss ≡ operation.pss) (input : Bytes) where
  prepare_digest-verifying :
      (setup : Setup)
      → prepare_digest reader engine false operation key ≡ ok setup
      → prepare_digest reader engine true operation' part ≡ ok setup
  unfolding prepare_digest
  prepare_digest-verifying setup ready =
      let digest =
        if is_rsa_pss operation.mechanism
        then pss_digest operation.pss.hash_alg
        else signature_digest operation.mechanism in
      rw (same_mechanism, same_pss)
        (ground (arith, ready, pair.digest_init digest, pair.pss operation.pss))

  prepare_raw-verifying :
      (setup : Setup)
      → prepare_raw reader engine false operation o key input ≡ ok setup
      → prepare_raw reader engine true operation' o' part input ≡ ok setup
  unfolding prepare_raw
  prepare_raw-verifying setup ready =
      rw (same_mechanism, same_pss, same_type, pair.bits, pair.size)
        (elim (Option-cases (pss_digest operation.pss.hash_alg)) [
          | inl missing ↦ ground (arith, ready, missing, pair.raw_init, pair.padding)
          | inr (hash, e) ↦
              ground (arith, ready, e, pair.pss operation.pss, pair.raw_init, pair.padding)
        ])

  prepare-verifying :
      (setup : Setup)
      → prepare reader engine false operation o key input ≡ ok setup
      → prepare reader engine true operation' o' part input ≡ ok setup
  unfolding prepare
  prepare-verifying setup ready =
      ground
        (arith, ready, same_mechanism, prepare_raw-verifying setup, prepare_digest-verifying setup)

  -- The signature of the private key, as the caller gets it, in the form that OpenSSL verifies.
  signature_bytes-encoded :
      (signature : Bytes)
      → signature_bytes reader engine operation o key input ≡ ok signature
      → (setup : Setup) × (encoded : Bytes) × (prepare reader engine false operation o key input
          ≡ ok setup)
        × (engine.verify part setup input encoded ≡ true)
        × (encoded_signature reader engine o' part signature ≡ ok encoded)
        × (is_ec_key o ≡ true → length signature ≡ 2 * coordinate_width reader engine key)
  unfolding signature_bytes encoded_signature
  signature_bytes-encoded signature signed =
      elim (Result-cases (prepare reader engine false operation o key input)) [
        | inr (fault, e) ↦ absurd (ground (arith, e, signed))
        | inl (setup, e) ↦ elim (Option-cases (engine.sign key setup input)) [
          | inl failed ↦ absurd (ground (arith, e, failed, signed))
          | inr (made, signs) ↦ elim (Bool-cases (is_ec_key o)) [
            | inr other ↦
                let same : made ≡ signature = ground (arith, e, signs, signed, other) in
                (
                  setup,
                  made,
                  e,
                  pair.verifies setup input made signs,
                  ground (arith, same, other, same_type),
                  λ ec. absurd (ground (arith, ec, other)),
                )
            | inl ec ↦
                let read : engine.from_der (coordinate_width reader engine key) made
                    ≡ some signature =
                  ground (arith, e, signs, signed, ec) in
                let (sized, encoded, back, good) =
                  pair.der setup input made signature (curve ec) signs read in
                (
                  setup,
                  encoded,
                  e,
                  good,
                  ground (arith, ec, same_type, pair.bits, back),
                  λ _. sized,
                )
          ]
        ]
      ]

  execute_signing-bytes :
      (h n : ℕ) (r : Runtime) (signed : Signed)
      → usable_key h operation false r ≡ ok (o, key)
      → execute_signing reader engine h operation input true n r ≡ signed
      → signed.status ≡ ok tt
      → signature_bytes reader engine operation o key input ≡ ok signed.written
  unfolding execute_signing
  execute_signing-bytes h n r signed usable done fine =
      elim (Result-cases (signature_bytes reader engine operation o key input)) [
        | inr (fault, e) ↦ absurd (ground (arith, usable, done, fine, e))
        | inl (bytes, e) ↦ ground (arith, usable, done, fine, e)
      ]

  execute_verifying-ok :
      (h : ℕ) (r : Runtime) (signature : Bytes)
      → usable_key h operation' true r ≡ ok (o', part)
      → signature_bytes reader engine operation o key input ≡ ok signature
      → execute_verifying reader engine h operation' input (items signature) r ≡ ok tt
  unfolding execute_verifying
  execute_verifying-ok h r signature usable signed =
      let (setup, der, ready, verified, encoded, sized) =
        signature_bytes-encoded signature signed in
      ground (
        arith,
        usable,
        encoded,
        sized,
        same_type,
        pair.bits,
        prepare-verifying setup ready,
        verified,
      )

  module _ (h h' n : ℕ) (message : Array ℕ) (r r' : Runtime) {s s' : Session}
      (found : lookup h r.sessions ≡ some s) (found' : lookup h' r'.sessions ≡ some s')
      (signing : s.operation ≡ operation) (verifying : s'.operation ≡ operation')
      (waits : awaits false operation ≡ true) (waits' : awaits true operation' ≡ true)
      (good : is_bad message ≡ false) (contained : contents message ≡ input)
      (usable : usable_key h operation false r ≡ ok (o, key))
      (usable' : usable_key h' operation' true r' ≡ ok (o', part)) where
    -- For two started operations of one mechanism with its parameters, one to sign with a private key and one
    -- to verify with its public part, where OpenSSL verifies with the part what it has signed with the key,
    -- and an object of type CKK_EC has an EC key: when Sign succeeds, Verify accepts the signature that it has
    -- written for the same message, and ends its operation.
    pub verify-sign :
        (signed : Signed)
        → (sign reader engine h message true (some n) r).output ≡ some signed
        → signed.status ≡ ok tt
        → verify reader engine h' message (items signed.written) r'
          ≡ (ok tt, end_operation reader engine h' r')
    unfolding sign verify
    verify-sign signed done fine =
        let ran : execute_signing reader engine h operation input true n r ≡ signed =
          ground (arith, found, signing, waits, good, contained, done) in
        let bytes = execute_signing-bytes h n r signed usable ran fine in
        ground (
          arith,
          found',
          verifying,
          waits',
          good,
          contained,
          execute_verifying-ok h' r' signed.written usable' bytes,
        )
