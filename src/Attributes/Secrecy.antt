-- ===== src/Attributes/Secrecy.antt =====
-- What reading attributes gives away, and the protocol of the two calls.
use pkcs11hsmsim.Base.{
  ℕ, ◌≡◌, ◌≤◌, ◌<◌, refl, Bool, true, false, not, ◌&&◌, List, [], ◌∷◌, Bytes, arith, ◌==◌, Array,
  contents, length, if◌then◌else◌, Option-cases, inl, inr,
}
use pkcs11hsmsim.Ck.{
  cko_secret_key, cka_sensitive, cka_extractable, cka_modulus, cka_ec_params, cka_token,
}
use pkcs11hsmsim.Result.{Result, ok, err, is_ok, buffer_too_small, attribute_type_invalid}
use pkcs11hsmsim.Openssl.{KeyReader}
use pkcs11hsmsim.Mechanisms.{key_parameter_set}
use pkcs11hsmsim.Core.State.{Object}
use pkcs11hsmsim.Policy.Values.{policy_value}
use pkcs11hsmsim.Attributes.{
  Query, Answer, write_attribute, read_attribute, read_value, read_boolean, read_parameter_set,
  unavailable, ulong_bytes, boolean_byte, read_modulus_bits, read_rsa_attribute, read_ec_attribute,
  read_all, read_attributes,
}

-- The value of the object may be read through CKA_VALUE.
abbrev pub is_readable : Object → Bool
is_readable o =
    o.object_class == cko_secret_key
    && not (policy_value o cka_sensitive)
    && policy_value o cka_extractable

module _ (reader : KeyReader) (o : Object) (secret : Bytes) (hidden : is_readable o ≡ false)
    (same : length secret ≡ length o.secret_value) where
  read_value-secret :
      (q : Query) → read_value (record o { secret_value = secret }) q ≡ read_value o q
  unfolding read_value policy_value
  read_value-secret q = ground arith

  read_boolean-secret :
      (q : Query) → read_boolean (record o { secret_value = secret }) q ≡ read_boolean o q
  unfolding read_boolean policy_value
  read_boolean-secret q = refl

  read_parameter_set-secret :
      (q : Query)
      → read_parameter_set (record o { secret_value = secret }) q ≡ read_parameter_set o q
  unfolding read_parameter_set key_parameter_set
  read_parameter_set-secret q = refl

  read_attribute-secret :
      (q : Query)
      → read_attribute reader (record o { secret_value = secret }) q ≡ read_attribute reader o q
  unfolding read_attribute read_modulus_bits read_rsa_attribute read_ec_attribute
  read_attribute-secret q =
      rw (same, read_value-secret q, read_boolean-secret q, read_parameter_set-secret q)

  read_all-secret :
      (result : Result (Unit {0})) (qs : List Query)
      → read_all reader (record o { secret_value = secret }) result qs ≡ read_all reader o result qs
  unfolding read_all
  read_all-secret result [] = refl
  read_all-secret result (q ∷ qs) =
      let status = (read_attribute reader o q).status in
      rw (read_attribute-secret q, read_all-secret (if is_ok status then result else status) qs)

  -- Where a secret key is sensitive or not extractable, and for every other class of object, no
  -- template of queries tells apart two objects that differ only in a secret value of the same length.
  pub read_attributes-secret :
      (queries : Array Query)
      → read_attributes reader (record o { secret_value = secret }) queries
        ≡ read_attributes reader o queries
  unfolding read_attributes
  read_attributes-secret queries = rw (read_all-secret (ok tt) (contents queries))

-- A query for the length, and a query with a buffer.
abbrev pub probe : ℕ → Query
probe t = record { type = t; has_buffer = false; capacity = 0 }

abbrev pub with_buffer : ℕ → ℕ → Query
with_buffer t n = record { type = t; has_buffer = true; capacity = n }

-- The answer to a query with a buffer, as the answer to the probe foretells it.
pub record Foretells (first : Answer) (n : ℕ) (second : Answer) : Type 0 where
  pub enough :
      is_ok first.status ≡ true
      → first.length ≤ n
      → (second.status ≡ ok tt)
        × (second.length ≡ first.length)
        × (length second.written ≡ first.length)
  pub short :
      is_ok first.status ≡ true
      → n < first.length
      → (second.status ≡ err buffer_too_small)
        × (second.length ≡ first.length)
        × (second.written ≡ [])
  pub failing : is_ok first.status ≡ false → (second.status ≡ first.status) × (second.written ≡ [])

Foretells-if :
    (b : Bool) {n : ℕ} {x x' y y' : Answer}
    → Foretells x n x'
    → Foretells y n y'
    → Foretells (if b then x else y) n (if b then x' else y')
Foretells-if true h k = h
Foretells-if false h k = k

write_attribute-Foretells :
    (t n : ℕ) (value : Bytes)
    → Foretells (write_attribute (probe t) value) n (write_attribute (with_buffer t n) value)
unfolding write_attribute
write_attribute-Foretells t n value = ground arith

module _ (reader : KeyReader) (o : Object) (t n : ℕ) where
  read_value-Foretells : Foretells (read_value o (probe t)) n (read_value o (with_buffer t n))
  unfolding read_value
  read_value-Foretells = ground (
    arith,
    write_attribute-Foretells t n o.secret_value,
    write_attribute-Foretells t n o.certificate_der,
  )

  read_parameter_set-Foretells :
      Foretells (read_parameter_set o (probe t)) n (read_parameter_set o (with_buffer t n))
  unfolding read_parameter_set
  read_parameter_set-Foretells =
      ground (arith, write_attribute-Foretells t n (ulong_bytes (key_parameter_set o)))

  read_modulus_bits-Foretells :
      Foretells
        (read_modulus_bits reader o (probe t))
        n
        (read_modulus_bits reader o (with_buffer t n))
  unfolding read_modulus_bits
  read_modulus_bits-Foretells = elim (Option-cases o.asymmetric_key) [
    | inl missing ↦ ground arith
    | inr (key, there) ↦
        ground (arith, write_attribute-Foretells t n (ulong_bytes (reader.bits key)))
  ]

  read_rsa_attribute-Foretells :
      Foretells
        (read_rsa_attribute reader o (probe t))
        n
        (read_rsa_attribute reader o (with_buffer t n))
  unfolding read_rsa_attribute
  read_rsa_attribute-Foretells = elim (Option-cases o.asymmetric_key) [
    | inl missing ↦ ground arith
    | inr (key, there) ↦
        elim (Option-cases
          (if t == cka_modulus then reader.modulus key else reader.public_exponent key)) [
            | inl fails ↦ ground arith
            | inr (v, e) ↦ ground (arith, write_attribute-Foretells t n v)
          ]
  ]

  read_ec_attribute-Foretells :
      Foretells
        (read_ec_attribute reader o (probe t))
        n
        (read_ec_attribute reader o (with_buffer t n))
  unfolding read_ec_attribute
  read_ec_attribute-Foretells = elim (Option-cases o.asymmetric_key) [
    | inl missing ↦ ground arith
    | inr (key, there) ↦
        elim (Option-cases
          (if t == cka_ec_params then reader.ec_params key else reader.ec_point key)) [
            | inl fails ↦ ground arith
            | inr (v, e) ↦ ground (arith, write_attribute-Foretells t n v)
          ]
  ]

  read_boolean-Foretells : Foretells (read_boolean o (probe t)) n (read_boolean o (with_buffer t n))
  unfolding read_boolean
  read_boolean-Foretells =
      write_attribute-Foretells t n
        (boolean_byte (if t == cka_token then o.owner_session == 0 else policy_value o t))

  -- A call with a null buffer foretells the next call for the same attribute: if the probe succeeds, a
  -- buffer of the reported length or more is filled with exactly that many bytes, and a shorter one is
  -- refused, with the length reported again and nothing written; if the probe fails, so does the call,
  -- in the same way.
  pub read_attribute-Foretells :
      Foretells (read_attribute reader o (probe t)) n (read_attribute reader o (with_buffer t n))
  unfolding read_attribute
  read_attribute-Foretells =
      let plain = λ (value : Bytes). write_attribute-Foretells t n value in
      Foretells-if _ read_boolean-Foretells (
        Foretells-if _ (plain (ulong_bytes (length o.secret_value))) (
          Foretells-if _ read_modulus_bits-Foretells (
            Foretells-if _ read_rsa_attribute-Foretells (
              Foretells-if _ read_ec_attribute-Foretells (
                Foretells-if _ (plain (ulong_bytes o.object_class)) (
                  Foretells-if _ (plain (ulong_bytes o.key_type)) (
                    Foretells-if _ (plain o.label) (
                      Foretells-if _ (plain o.id) (
                        Foretells-if _ read_parameter_set-Foretells
                          (Foretells-if _ read_value-Foretells unknown-Foretells))))))))))
    where
      unknown-Foretells :
          Foretells (unavailable attribute_type_invalid) n (unavailable attribute_type_invalid)
      unknown-Foretells = ground arith
