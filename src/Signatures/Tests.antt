-- ===== src/Signatures/Tests.antt =====
-- A signature with a key of a concrete registry.
use pkcs11hsmsim.Base.{
  Option, length, take, ltb, if◌then◌else◌, is_some, ◌*◌, ℕ, ◌≡◌, refl, true, false, none, some, [],
  ◌∷◌, Bytes, null, items, arith, bytes_eq, any_of,
}
use pkcs11hsmsim.Base.Dict.{lookup}
use pkcs11hsmsim.Ck.{ckm_sha256_rsa_pkcs, cko_public_key, ckk_ec, ckm_ecdsa_sha256}
use pkcs11hsmsim.Result.{ok, err, operation_not_initialized}
use pkcs11hsmsim.Disk.Laws.{bytes_eq_refl}
use pkcs11hsmsim.Core.{find_object, object_access_status}
use pkcs11hsmsim.Core.State.{Runtime, Session, Object, PssParams}
use pkcs11hsmsim.Openssl.{KeyReader}
use pkcs11hsmsim.Core.Examples.{office, writer, mute, signing_key}
use pkcs11hsmsim.Policy.Values.{one_of, default_policy, policy_value}
use pkcs11hsmsim.Mechanisms.{Digest, is_rsa_pss, supports_signature, signature_digest}
use pkcs11hsmsim.Signatures.{
  Mechanism, initialize_signature, collecting, is_raw_signature, started, no_pss, check_key,
  accept_parameters, read_parameters,
}
use pkcs11hsmsim.Signatures.Execution.{
  Engine, end_operation, usable_key, execute_signing, signature_bytes, prepare, prepare_digest,
}
use pkcs11hsmsim.Signatures.Finishing.{sign, verify}
use pkcs11hsmsim.Signatures.Pairing.{Matches, verify-sign}
use pkcs11hsmsim.Signatures.Ending.{sign-ends}
use pkcs11hsmsim.Signatures.Starting.{Started, PssOk, initialize_signature-Started}
use pkcs11hsmsim.Signatures.Collecting.{append_all, append_all_lem, Collects}

abbrev digest_size : Digest → ℕ
digest_size d = 32

abbrev hashed : Mechanism
hashed = record { mechanism = ckm_sha256_rsa_pkcs; parameter = null 0 }

-- SignInit with the token key, by the user who is logged in.
abbrev signing : Runtime
signing = (initialize_signature mute digest_size 1 (some hashed) 1 false office).1

initialize_signature-Started_example :
    (s : Session) × (o : Object) × (key : ℕ) × (pss : PssParams) × Started mute digest_size 1 1
      false hashed office signing s o key pss
    × (is_rsa_pss ckm_sha256_rsa_pkcs ≡ true
        → (hash : Digest) × PssOk mute digest_size key ckm_sha256_rsa_pkcs pss hash)
unfolding initialize_signature lookup find_object object_access_status check_key one_of
    supports_signature default_policy accept_parameters read_parameters
initialize_signature-Started_example =
    initialize_signature-Started mute digest_size 1 hashed 1 false office refl

abbrev signer : Session
signer = started mute digest_size 1 false ckm_sha256_rsa_pkcs no_pss writer

signer-Collects : Collects false signer
unfolding is_raw_signature
signer-Collects = record { active = refl; same = refl; hashes = refl }

-- The session of an operation that has begun.
abbrev begun : Runtime
begun = record office { sessions = (1, signer) ∷ [] }

append_all_lem_example :
    ((append_all 1 false ((1 ∷ 2 ∷ []) ∷ (3 ∷ []) ∷ []) begun).0 ≡ ok tt)
    × (lookup 1 (append_all 1 false ((1 ∷ 2 ∷ []) ∷ (3 ∷ []) ∷ []) begun).1.sessions
        ≡ some (collecting (1 ∷ 2 ∷ 3 ∷ []) signer))
unfolding lookup
append_all_lem_example =
    (append_all_lem 1 false ((1 ∷ 2 ∷ []) ∷ (3 ∷ []) ∷ []) begun {s = signer} refl signer-Collects
        (omega arith)).0
      (omega arith)

-- Keys of one byte for each number.
abbrev curve : KeyReader
curve = record mute { is_ec = λ key. true; bits = λ key. 8 }

-- The two numbers of a signature.
abbrev numbers : Bytes → Bytes
numbers input = length input ∷ 9 ∷ []

-- What follows the two numbers is not looked at.
abbrev of_der : ℕ → Bytes → Option Bytes
of_der width [] = none
of_der width (c ∷ rest) =
    if ltb (length rest) (2 * width) then none else some (take (2 * width) rest)

-- An engine whose DER form is a byte in front; it knows one digest.
abbrev stamper : Engine
stamper = record {
  size = λ key. 3;
  digest_size = digest_size;
  has_memory = true;
  raw_init = λ verify key. true;
  digest_init = λ verify key digest. is_some digest;
  takes_pss = λ key pss. false;
  takes_padding = λ key. false;
  sign = λ key setup input. some (48 ∷ numbers input);
  verify = λ key setup input signature. bytes_eq signature (48 ∷ numbers input);
  to_der = λ width pair. ok (48 ∷ pair);
  from_der = of_der;
}

stamper-Matches : Matches curve stamper 7 8
stamper-Matches = record {
  bits = refl;
  size = refl;
  raw_init = λ e. e;
  digest_init = λ digest e. e;
  pss = λ p e. e;
  padding = λ e. e;
  verifies = λ setup input signature made. ground (arith, made, bytes_eq_refl (48 ∷ numbers input));
  der = λ setup input signature pair on_curve made read.
      let same : pair ≡ numbers input = ground (arith, made, read) in
      (
        ground (arith, same),
        48 ∷ pair,
        refl,
        ground (arith, same, bytes_eq_refl (48 ∷ numbers input)),
      );
}

abbrev ec_key : Object
ec_key = record signing_key { key_type = ckk_ec }

abbrev public_key : Object
public_key = record ec_key { handle = 2; object_class = cko_public_key; asymmetric_key = some 8 }

abbrev ec_signer : Session
ec_signer = started mute digest_size 1 false ckm_ecdsa_sha256 no_pss writer

abbrev checker : Session
checker = record (started mute digest_size 2 true ckm_ecdsa_sha256 no_pss writer) { handle = 4 }

-- Session 1 signs with the private key and session 4 verifies with the public one.
abbrev desk : Runtime
desk = record office {
  objects = (1, ec_key) ∷ (2, public_key) ∷ [];
  sessions = (1, ec_signer) ∷ (4, checker) ∷ [];
}

abbrev letter : Bytes
letter = 5 ∷ 6 ∷ 7 ∷ []

verify-sign_example :
    verify curve stamper 4 (items letter) (items (3 ∷ 9 ∷ [])) desk
    ≡ (ok tt, end_operation curve stamper 4 desk)
unfolding lookup usable_key find_object object_access_status default_policy sign execute_signing
    signature_bytes prepare prepare_digest any_of policy_value is_raw_signature is_rsa_pss
    signature_digest
verify-sign_example =
    verify-sign curve stamper 7 8 stamper-Matches ec_key public_key refl (λ _. refl)
      ec_signer.operation checker.operation refl refl letter 1 4 2 (items letter) desk desk
      {s = ec_signer} {s' = checker} refl refl refl refl refl refl refl refl refl refl
      (record { status = ok tt; length = 2; written = 3 ∷ 9 ∷ [] }) refl refl

sign-ends_example :
    (sign curve stamper 1
      (items letter)
      true
      (some 3)
      (sign curve stamper 1 (items letter) true (some 3) desk).result.1).result
    ≡ (
      err operation_not_initialized,
      (sign curve stamper 1 (items letter) true (some 3) desk).result.1,
    )
unfolding lookup usable_key find_object object_access_status default_policy sign execute_signing
    signature_bytes prepare prepare_digest any_of policy_value is_raw_signature is_rsa_pss
    signature_digest
sign-ends_example =
    ((sign-ends curve stamper 1 desk {s = ec_signer} refl (items letter) true (some 3) refl).2 3
        refl refl refl (λ e. absurd (ground (arith, e)))).2
      (items letter) true (some 3)
