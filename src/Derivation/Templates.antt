-- ===== src/Derivation/Templates.antt =====
-- DeriveKey and the creation templates: what its own loop over the template accepts.
use pkcs11hsmsim.Base.{
  ℕ, ◌≡◌, Bool, true, false, not, List, [], ◌∷◌, ◌==◌, arith, null, items, contents, is_bad, Bytes,
  Option, none, some, inl, inr, Bool-cases,
}
use pkcs11hsmsim.Ck.{cka_token}
use pkcs11hsmsim.Result.{ok}
use pkcs11hsmsim.Template.{Attribute, Template, find_bytes, template_bytes, attribute_bytes}
use pkcs11hsmsim.Policy.Values.{one_of, is_policy_attribute}
use pkcs11hsmsim.Policy.Creation.{
  first_byte, is_boolean_attribute, validate_attribute, validate_from, validate_creation_template,
  is_token_template,
}
use pkcs11hsmsim.Derivation.{check_attribute, check_attributes}
use pkcs11hsmsim.Policy.Creation.Application.{attribute_bytes-good}

check_attribute-valid : (a : Attribute) → check_attribute a ≡ ok tt → validate_attribute a ≡ ok tt
unfolding check_attribute validate_attribute is_boolean_attribute is_policy_attribute one_of
check_attribute-valid a h = ground arith

check_attribute-sized :
    (a : Attribute)
    → check_attribute a ≡ ok tt
    → (a.type == cka_token) ≡ true
    → attribute_bytes a.value ≡ some (contents a.value)
unfolding check_attribute one_of
check_attribute-sized a h token = attribute_bytes-good a.value (ground arith)

-- What a CKA_TOKEN of the template says, in place of the earlier value.
abbrev told : Option Bytes → Bool → Bool
told none token = token
told (some value) token = not (first_byte value == 0)

module _ {t : Bool} where
  -- After a CKA_TOKEN there is no other.
  check_attributes-settled :
      (seen : List ℕ) (token : Bool) (as' : List Attribute)
      → one_of seen cka_token ≡ true
      → check_attributes seen token as' ≡ ok t
      → t ≡ token
  unfolding check_attributes one_of
  check_attributes-settled seen token [] h done = ground arith
  check_attributes-settled seen token (a ∷ rest) h done =
      ground (arith, check_attributes-settled (a.type ∷ seen) token rest)

  check_attributes-valid :
      (seen : List ℕ) (token : Bool) (as' : List Attribute)
      → check_attributes seen token as' ≡ ok t
      → (validate_from seen as' ≡ ok tt) × (t ≡ told (find_bytes as' cka_token) token)
  unfolding check_attributes validate_from find_bytes one_of
  check_attributes-valid seen token [] done = ground arith
  check_attributes-valid seen token (a ∷ rest) done =
      let said = not (first_byte (contents a.value) == 0) in
      let valid = check_attribute-valid a in
      elim (Bool-cases (a.type == cka_token)) [
        | inl is_token ↦ ground (
          arith,
          is_token,
          valid,
          check_attribute-sized a,
          check_attributes-settled (a.type ∷ seen) said rest,
          check_attributes-valid (a.type ∷ seen) said rest,
        )
        | inr other ↦
            ground (arith, other, valid, check_attributes-valid (a.type ∷ seen) token rest)
      ]

-- A template that the loop of DeriveKey accepts is a valid creation template, and the loop finds in it
-- the CKA_TOKEN that isTokenTemplate finds, false where there is none.
pub check_attributes_lem :
    (attributes : Template) (token : Bool)
    → is_bad attributes ≡ false
    → check_attributes [] false (contents attributes) ≡ ok token
    → (validate_creation_template attributes ≡ ok tt) × (token ≡ is_token_template attributes false)
unfolding validate_creation_template is_token_template template_bytes check_attributes validate_from
check_attributes_lem (null n) token good done = ground arith
check_attributes_lem (items as') token good done =
    ground (arith, check_attributes-valid {t = token} [] false as' done)
