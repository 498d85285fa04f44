-- ===== src/Policy/Creation.antt =====
-- Creation templates: their validation, and what they set in an object.
pub mod Validation
pub mod Application
use pkcs11hsmsim.Base.{
  ℕ, Bool, true, false, not, ◌&&◌, ◌||◌, Option, none, some, List, [], ◌∷◌, Bytes, ◌==◌, Array,
  null, items, count, is_null, is_bad, contents, any_of, if◌then◌else◌, value_or, is_some,
}
use pkcs11hsmsim.Base.Dict.{assign}
use pkcs11hsmsim.Ck.{
  sizeof_ulong, sizeof_bbool, cka_token, cka_class, cka_key_type, cka_value_len, cka_modulus_bits,
  cka_parameter_set, cka_label, cka_id, cka_ec_params, cka_public_exponent, cka_always_sensitive,
  cka_never_extractable, cka_local, cka_key_gen_mechanism, cka_value, is_rw,
}
use pkcs11hsmsim.Result.{
  Result, ok, err, and_then, arguments_bad, template_inconsistent, attribute_value_invalid,
  attribute_read_only, attribute_type_invalid, session_read_only, general_error,
}
use pkcs11hsmsim.Core.State.{Object, Session, Runtime}
use pkcs11hsmsim.Core.{find_session, require_user_login}
use pkcs11hsmsim.Template.{Attribute, Template, template_bytes, template_unsigned}
use pkcs11hsmsim.Policy.Values.{one_of, is_policy_attribute}

-- The first byte of a value; zero where there is none, which a valid template rules out.
abbrev pub first_byte : Bytes → ℕ
first_byte [] = 0
first_byte (b ∷ bs) = b

abbrev pub ulong_attributes : List ℕ
ulong_attributes =
    cka_class ∷ cka_key_type ∷ cka_value_len ∷ cka_modulus_bits ∷ cka_parameter_set ∷ []

abbrev pub free_attributes : List ℕ
free_attributes = cka_label ∷ cka_id ∷ cka_ec_params ∷ cka_public_exponent ∷ []

abbrev pub read_only_attributes : List ℕ
read_only_attributes =
    cka_always_sensitive ∷ cka_never_extractable ∷ cka_local ∷ cka_key_gen_mechanism ∷ []

-- A null pointer, or a wrong size.
abbrev pub is_missized : Array ℕ → ℕ → Bool
is_missized value size = is_null value || not (count value == size)

unfoldable pub is_boolean_attribute : ℕ → Bool
is_boolean_attribute t = is_policy_attribute t || t == cka_token

-- The loop's body, after the comparison with the earlier attributes.
unfoldable pub validate_attribute : Attribute → Result (Unit {0})
validate_attribute a =
    if is_bad a.value
    then err attribute_value_invalid
    else if is_boolean_attribute a.type
    then (if is_missized a.value sizeof_bbool
        then err attribute_value_invalid
        else if not (first_byte (contents a.value) == 0) && not (first_byte (contents a.value) == 1)
        then err attribute_value_invalid
        else ok tt)
    else if one_of ulong_attributes a.type
    then (if is_missized a.value sizeof_ulong then err attribute_value_invalid else ok tt)
    else if one_of free_attributes a.type
    then ok tt
    else if one_of read_only_attributes a.type
    then err attribute_read_only
    else if a.type == cka_value
    then err template_inconsistent
    else err attribute_type_invalid

-- The loop, with the types of the earlier attributes.
unfoldable pub validate_from : List ℕ → List Attribute → Result (Unit {0})
validate_from seen [] = ok tt
validate_from seen (a ∷ rest) =
    let later = validate_from (a.type ∷ seen) rest in
    if one_of seen a.type then err template_inconsistent else and_then (validate_attribute a) later

unfoldable pub validate_creation_template : Template → Result (Unit {0})
validate_creation_template attributes =
    if is_bad attributes then err arguments_bad else validate_from [] (contents attributes)

unfoldable pub is_token_template : Template → Bool → Bool
is_token_template attributes fallback = elim (template_bytes attributes cka_token) [
  | none ↦ fallback
  | some value ↦ not (first_byte value == 0)
]

abbrev pub set_policy : ℕ → Bool → Object → Object
set_policy t value o = record o { policy = assign t value o.policy }

unfoldable pub apply_policies : Object → List Attribute → Object
apply_policies o [] = o
apply_policies o (a ∷ rest) =
    apply_policies
      (if is_policy_attribute a.type
        then set_policy a.type (not (first_byte (contents a.value) == 0)) o
        else o)
      rest

unfoldable pub apply_policy_template : Object → Template → Object
apply_policy_template o attributes = apply_policies o (contents attributes)

-- The object as the template makes it; `findSession` is dereferenced, and callers pass a live session.
unfoldable pub apply_creation_template : Object → ℕ → Template → Bool → Runtime → Result Object
unfolding validate_creation_template is_token_template apply_policy_template template_unsigned
    require_user_login
apply_creation_template o h attributes fallback r = elim (validate_creation_template attributes) [
  | err e ↦ err e
  | ok _ ↦
      if not (value_or (template_unsigned attributes cka_class) o.object_class == o.object_class)
        || not (value_or (template_unsigned attributes cka_key_type) o.key_type == o.key_type)
      then err template_inconsistent
      else elim (find_session h r) [
        | none ↦ err general_error
        | some session ↦
            let token = is_token_template attributes fallback in
            if token && not (is_rw session.flags)
            then err session_read_only
            else elim (require_user_login h r) [
              | err e ↦ err e
              | ok _ ↦
                  let placed = record o {
                    slot_id = session.slot_id;
                    owner_session = if token then 0 else h;
                  } in
                  let shaped = apply_policy_template placed attributes in
                  ok (if shaped.owner_session == 0 then shaped else record shaped { path = [] })
            ]
      ]
]
