-- ===== src/Signatures/Starting.antt =====
-- SignInit and VerifyInit: what a started operation has passed.
use pkcs11hsmsim.Base.{
  ℕ, ◌+◌, ◌/◌, ◌≤◌, ◌≡◌, refl, Bool, true, false, some, ◌==◌, if◌then◌else◌, arith, inl, inr,
  Option-cases, is_some, contents,
}
use pkcs11hsmsim.Base.Dict.{lookup, adjust}
use pkcs11hsmsim.Ck.{cko_private_key, cka_sign, cka_verify}
use pkcs11hsmsim.Result.{ok, Result-cases}
use pkcs11hsmsim.Openssl.{KeyReader}
use pkcs11hsmsim.Core.State.{Object, PssParams, Session, Runtime}
use pkcs11hsmsim.Core.{find_session, find_object, object_access_status}
use pkcs11hsmsim.Policy.Values.{policy_value}
use pkcs11hsmsim.Mechanisms.{Digest, supports_signature, is_rsa_pss, pss_digest, mgf_digest}
use pkcs11hsmsim.Signatures.{
  Mechanism, initialize_signature, read_parameters, read_pss, pss_of_bytes, is_salt_too_long,
  expected_hash, started, check_key, accept_parameters,
}

module _ (reader : KeyReader) (digest_size : Digest → ℕ) where
  -- The parameters of a PSS mechanism that are accepted.
  pub record PssOk (key mechanism : ℕ) (pss : PssParams) (hash : Digest) : Type 0 where
    pub digest : pss_digest pss.hash_alg ≡ some hash
    pub mask : is_some (mgf_digest pss.mgf) ≡ true
    pub expected : expected_hash mechanism pss ≡ pss.hash_alg
    pub salt : pss.s_len + digest_size hash + 2 ≤ (reader.bits key + 6) / 8

  -- The path of an initialization that succeeds.
  pub record Started (h k : ℕ) (verify : Bool) (m : Mechanism) (r r' : Runtime) (s : Session)
      (o : Object) (key : ℕ) (pss : PssParams) : Type 0 where
    pub session_found : find_session h r ≡ some s
    pub idle : s.operation.active ≡ false
    pub object_found : find_object h k r ≡ some o
    pub key_found : o.asymmetric_key ≡ some key
    pub access : object_access_status h o r ≡ ok tt
    pub private : verify ≡ false → (o.object_class == cko_private_key) ≡ true
    pub fits : supports_signature o.key_type m.mechanism ≡ true
    pub allowed : policy_value o (if verify then cka_verify else cka_sign) ≡ true
    pub parameters : read_parameters reader digest_size key m ≡ ok pss
    pub stored : r' ≡ record r {
      sessions = adjust h (started reader digest_size k verify m.mechanism pss) r.sessions;
    }

  -- The parameters of a PSS mechanism that are accepted name a supported digest and mask function, the
  -- digest is the mechanism's own, and digest and salt fit into the encoded message of the key.
  read_parameters-PssOk :
      (key : ℕ) (m : Mechanism) (pss : PssParams)
      → is_rsa_pss m.mechanism ≡ true
      → read_parameters reader digest_size key m ≡ ok pss
      → (hash : Digest) × PssOk key m.mechanism pss hash
  unfolding read_parameters read_pss is_salt_too_long
  read_parameters-PssOk key m pss is_pss done =
      let read = pss_of_bytes (contents m.parameter) in
      elim (Option-cases (pss_digest read.hash_alg)) [
        | inl unknown ↦ absurd (ground arith)
        | inr (hash, known) ↦
            let same : read ≡ pss = ground (arith, known) in
            (
              hash,
              record {
                digest = rw (← same) known;
                mask = ground (arith, known);
                expected = ground (arith, known);
                salt = ground (arith, known);
              },
            )
      ]

  check_key-ok :
      (h k : ℕ) (verify : Bool) (m : Mechanism) (o : Object) (key : ℕ) (r : Runtime)
      → (check_key reader digest_size h k verify m o key r).0 ≡ ok tt
      → (verify ≡ false → (o.object_class == cko_private_key) ≡ true)
        × (supports_signature o.key_type m.mechanism ≡ true)
        × (policy_value o (if verify then cka_verify else cka_sign) ≡ true)
        × (check_key reader digest_size h k verify m o key r
            ≡ accept_parameters reader digest_size h k verify m key r)
  unfolding check_key
  check_key-ok h k verify m o key r done = ground arith

  accept_parameters-ok :
      (h k : ℕ) (verify : Bool) (m : Mechanism) (key : ℕ) (r : Runtime)
      → (accept_parameters reader digest_size h k verify m key r).0 ≡ ok tt
      → (pss : PssParams) × (read_parameters reader digest_size key m ≡ ok pss)
        × ((accept_parameters reader digest_size h k verify m key r).1 ≡ record r {
          sessions = adjust h (started reader digest_size k verify m.mechanism pss) r.sessions;
        })
  unfolding accept_parameters
  accept_parameters-ok h k verify m key r done =
      elim (Result-cases (read_parameters reader digest_size key m)) [
        | inr (fault, e) ↦ absurd (ground arith)
        | inl (pss, e) ↦ (pss, e, rw e refl)
      ]

  -- The checks of the session and the object.
  opened-ok :
      (h : ℕ) (m : Mechanism) (k : ℕ) (verify : Bool) (r : Runtime)
      → (initialize_signature reader digest_size h (some m) k verify r).0 ≡ ok tt
      → (s : Session) × (o : Object) × (key : ℕ) × (find_session h r ≡ some s)
        × (s.operation.active ≡ false)
        × (find_object h k r ≡ some o)
        × (o.asymmetric_key ≡ some key)
        × (object_access_status h o r ≡ ok tt)
        × (initialize_signature reader digest_size h (some m) k verify r
            ≡ check_key reader digest_size h k verify m o key r)
  unfolding initialize_signature
  opened-ok h m k verify r done = elim (Option-cases (lookup h r.sessions)) [
    | inl missing ↦ absurd (ground arith)
    | inr (s, found) ↦ elim (Option-cases (find_object h k r)) [
      | inl absent ↦ absurd (ground arith)
      | inr (o, there) ↦ elim (Option-cases o.asymmetric_key) [
        | inl without ↦ absurd (ground arith)
        | inr (key, has) ↦
            let rest : (s.operation.active ≡ false)
                × (object_access_status h o r ≡ ok tt)
                × (initialize_signature reader digest_size h (some m) k verify r
                    ≡ check_key reader digest_size h k verify m o key r) =
              ground arith in
            (s, o, key, found, rest.0, there, has, rest.1, rest.2)
      ]
    ]
  ]

  -- A `SignInit` or `VerifyInit` that succeeds was made in a session without an active operation, on
  -- an accessible asymmetric key of the session's slot whose type supports the mechanism and whose
  -- policy allows the use, a private key for signing. The parameters of a PSS mechanism name a supported
  -- digest, which is the mechanism's own, and a supported mask function, and digest and salt fit into
  -- the encoded message of the key. The session then has the new operation with an empty buffer, and
  -- nothing else changes.
  pub initialize_signature-Started :
      (h : ℕ) (m : Mechanism) (k : ℕ) (verify : Bool) (r : Runtime)
      → (initialize_signature reader digest_size h (some m) k verify r).0 ≡ ok tt
      → (s : Session) × (o : Object) × (key : ℕ) × (pss : PssParams) × Started h k verify m r
          (initialize_signature reader digest_size h (some m) k verify r).1
          s
          o
          key
          pss
        × (is_rsa_pss m.mechanism ≡ true → (hash : Digest) × PssOk key m.mechanism pss hash)
  initialize_signature-Started h m k verify r done =
      let (s, o, key, found, idle, there, has, access, e) = opened-ok h m k verify r done in
      let (private, fits, allowed, e') = check_key-ok h k verify m o key r (rw e at done) in
      let (pss, read, e'') = accept_parameters-ok h k verify m key r (rw e' at (rw e at done)) in
      (
        s,
        o,
        key,
        pss,
        record {
          session_found = found;
          idle = idle;
          object_found = there;
          key_found = has;
          access = access;
          private = private;
          fits = fits;
          allowed = allowed;
          parameters = read;
          stored = rw e (rw e' e'');
        },
        λ is_pss. read_parameters-PssOk key m pss is_pss read,
      )
