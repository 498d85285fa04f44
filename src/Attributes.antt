-- ===== src/Attributes.antt =====
-- src/objects/attributes.cpp: reading and changing the attributes of an object. What OpenSSL
-- computes of a key is a parameter.
pub mod Secrecy
pub mod Setting
pub mod Changing
pub mod Saving
mod Tests
use pkcs11hsmsim.Base.{
  ℕ, ◌+◌, ◌/◌, ◌%◌, Bool, true, false, not, ◌&&◌, ◌||◌, Option, none, some, List, [], ◌∷◌, Bytes,
  ◌==◌, ltb, Array, null, items, count, is_bad, contents, length, if◌then◌else◌, value_or, is_some,
  zero, suc,
}
use pkcs11hsmsim.Base.Dict.{adjust, assign}
use pkcs11hsmsim.Ck.{
  sizeof_ulong, unavailable_information, is_rw, cka_modifiable, cka_destroyable, cka_encrypt,
  cka_decrypt, cka_derive, cka_token, cka_private, cka_sign, cka_verify, cka_wrap, cka_unwrap,
  cka_extractable, cka_sensitive, cka_value_len, cka_modulus_bits, cka_modulus, cka_public_exponent,
  cka_ec_params, cka_ec_point, cka_class, cka_key_type, cka_label, cka_id, cka_parameter_set,
  cka_value, ckk_rsa, ckk_ec, cko_secret_key, cko_certificate,
}
use pkcs11hsmsim.Result.{
  Rv, Result, ok, err, is_ok, buffer_too_small, attribute_type_invalid, attribute_sensitive,
  device_error, arguments_bad, session_handle_invalid, object_handle_invalid,
}
use pkcs11hsmsim.Openssl.{KeyReader}
use pkcs11hsmsim.Mechanisms.{key_parameter_set}
use pkcs11hsmsim.Core.State.{Object, Session, Runtime}
use pkcs11hsmsim.Core.{find_session, find_object, object_access_status}
use pkcs11hsmsim.Policy.Values.{one_of, policy_value}

-- A CK_ATTRIBUTE that is to be filled: whether pValue is null, and ulValueLen.
pub record Query : Type 0 where
  pub type : ℕ
  pub has_buffer : Bool
  pub capacity : ℕ

-- The attribute after the call: ulValueLen, the bytes written behind pValue, the return code.
pub record Answer : Type 0 where
  pub length : ℕ
  pub written : Bytes
  pub status : Result (Unit {0})

unfoldable pub write_attribute : Query → Bytes → Answer
write_attribute q value =
    if not q.has_buffer
    then record { length = length value; written = []; status = ok tt }
    else if ltb q.capacity (length value)
    then record { length = length value; written = []; status = err buffer_too_small }
    else record { length = length value; written = value; status = ok tt }

abbrev pub unavailable : Rv → Answer
unavailable e = record { length = unavailable_information; written = []; status = err e }

-- A failure that leaves ulValueLen as it was.
abbrev failed : Query → Rv → Answer
failed q e = record { length = q.capacity; written = []; status = err e }

-- A number in memory, in so many bytes, lowest first.
unfoldable pub to_bytes : ℕ → ℕ → Bytes
to_bytes zero n = []
to_bytes (suc k) n = n % 256 ∷ to_bytes k (n / 256)

abbrev pub ulong_bytes : ℕ → Bytes
ulong_bytes n = to_bytes sizeof_ulong n

abbrev pub boolean_byte : Bool → Bytes
boolean_byte true = 1 ∷ []
boolean_byte false = 0 ∷ []

abbrev boolean_attributes : List ℕ
boolean_attributes =
    cka_modifiable ∷ cka_destroyable ∷ cka_encrypt ∷ cka_decrypt ∷ cka_derive ∷ cka_token
    ∷ cka_private ∷ cka_sign ∷ cka_verify ∷ cka_wrap ∷ cka_unwrap ∷ cka_extractable ∷ cka_sensitive
    ∷ []

-- CKA_VALUE: a secret key gives its value only if it is extractable and not sensitive.
unfoldable pub read_value : Object → Query → Answer
read_value o q =
    if o.object_class == cko_secret_key
    then (if policy_value o cka_sensitive || not (policy_value o cka_extractable)
        then unavailable attribute_sensitive
        else write_attribute q o.secret_value)
    else if o.object_class == cko_certificate
    then write_attribute q o.certificate_der
    else unavailable attribute_type_invalid

unfoldable pub read_parameter_set : Object → Query → Answer
read_parameter_set o q =
    if key_parameter_set o == 0
    then unavailable attribute_type_invalid
    else write_attribute q (ulong_bytes (key_parameter_set o))

unfoldable pub read_boolean : Object → Query → Answer
read_boolean o q =
    write_attribute q
      (boolean_byte (if q.type == cka_token then o.owner_session == 0 else policy_value o q.type))

module _ (reader : KeyReader) where
  unfoldable pub read_rsa_attribute : Object → Query → Answer
  read_rsa_attribute o q = elim o.asymmetric_key [
    | none ↦ unavailable attribute_type_invalid
    | some key ↦
        if not (o.key_type == ckk_rsa)
        then unavailable attribute_type_invalid
        else elim (if q.type == cka_modulus
            then reader.modulus key
            else reader.public_exponent key) [
              | none ↦ unavailable attribute_type_invalid
              | some bytes ↦ write_attribute q bytes
            ]
  ]

  unfoldable pub read_ec_attribute : Object → Query → Answer
  read_ec_attribute o q = elim o.asymmetric_key [
    | none ↦ unavailable attribute_type_invalid
    | some key ↦
        if not (o.key_type == ckk_ec)
        then unavailable attribute_type_invalid
        else elim (if q.type == cka_ec_params then reader.ec_params key else reader.ec_point key) [
          | none ↦ failed q device_error
          | some bytes ↦ write_attribute q bytes
        ]
  ]

  unfoldable pub read_modulus_bits : Object → Query → Answer
  read_modulus_bits o q = elim o.asymmetric_key [
    | none ↦ unavailable attribute_type_invalid
    | some key ↦
        if o.key_type == ckk_rsa
        then write_attribute q (ulong_bytes (reader.bits key))
        else unavailable attribute_type_invalid
  ]

  -- The switch of `readAttributes`.
  unfoldable pub read_attribute : Object → Query → Answer
  read_attribute o q =
      if one_of boolean_attributes q.type
      then read_boolean o q
      else if q.type == cka_value_len
      then write_attribute q (ulong_bytes (length o.secret_value))
      else if q.type == cka_modulus_bits
      then read_modulus_bits o q
      else if q.type == cka_modulus || q.type == cka_public_exponent
      then read_rsa_attribute o q
      else if q.type == cka_ec_params || q.type == cka_ec_point
      then read_ec_attribute o q
      else if q.type == cka_class
      then write_attribute q (ulong_bytes o.object_class)
      else if q.type == cka_key_type
      then write_attribute q (ulong_bytes o.key_type)
      else if q.type == cka_label
      then write_attribute q o.label
      else if q.type == cka_id
      then write_attribute q o.id
      else if q.type == cka_parameter_set
      then read_parameter_set o q
      else if q.type == cka_value
      then read_value o q
      else unavailable attribute_type_invalid

  -- The loop: every attribute is answered, and the last failure is returned.
  unfoldable pub read_all :
      Object → Result (Unit {0}) → List Query → Result (Unit {0}) × List Answer
  read_all o result [] = (result, [])
  read_all o result (q ∷ rest) =
      let answer = read_attribute o q in
      let (last, answers) =
        read_all o (if is_ok answer.status then result else answer.status) rest in
      (last, answer ∷ answers)

  unfoldable pub read_attributes : Object → Array Query → Result (Unit {0}) × List Answer
  read_attributes o queries =
      if is_bad queries then (err arguments_bad, []) else read_all o (ok tt) (contents queries)

  unfoldable pub get_attribute_value :
      ℕ → ℕ → Array Query → Runtime → Result (Unit {0}) × List Answer
  get_attribute_value h k queries r = elim (find_session h r) [
    | none ↦ (err session_handle_invalid, [])
    | some session ↦ elim (find_object h k r) [
      | none ↦ (err object_handle_invalid, [])
      | some o ↦ elim (object_access_status h o r) [
        | err e ↦ (err e, [])
        | ok _ ↦ read_attributes o queries
      ]
    ]
  ]
