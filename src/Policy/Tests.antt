-- ===== src/Policy/Tests.antt =====
-- Creation templates at concrete values.
use pkcs11hsmsim.Base.{◌≡◌, ◌↔◌, refl, false, [], ◌∷◌, items, is_bad, contents, Each, if◌then◌else◌}
use pkcs11hsmsim.Base.Dict.{lookup}
use pkcs11hsmsim.Ck.{cka_token, cka_sensitive, cka_class}
use pkcs11hsmsim.Result.{ok, err}
use pkcs11hsmsim.Core.State.{Object, no_object}
use pkcs11hsmsim.Core.Examples.{office, writer, wrapping_key}
use pkcs11hsmsim.Template.{Template}
use pkcs11hsmsim.Policy.Values.{is_policy_attribute, one_of}
use pkcs11hsmsim.Policy.Creation.{
  validate_creation_template, apply_creation_template, is_token_template, validate_from,
  validate_attribute, is_boolean_attribute,
}
use pkcs11hsmsim.Policy.Creation.Validation.{
  Acceptable, Fresh, validate_creation_template-Acceptable,
}
use pkcs11hsmsim.Policy.Creation.Application.{apply_creation_template_lem}

-- A secret key on the token that is not sensitive.
abbrev asked : Template
asked = items (
    record { type = cka_class; value = items (4 ∷ 0 ∷ 0 ∷ 0 ∷ []) }
    ∷ record { type = cka_token; value = items (1 ∷ []) }
    ∷ record { type = cka_sensitive; value = items (0 ∷ []) }
    ∷ [])

validate_creation_template-Acceptable_example :
    (validate_creation_template asked ≡ ok tt)
    ↔ ((is_bad asked ≡ false) × Fresh [] (contents asked) × Each Acceptable (contents asked))
validate_creation_template-Acceptable_example = validate_creation_template-Acceptable asked

-- The key as it is placed.
abbrev placed : Object
placed = elim (apply_creation_template wrapping_key 1 asked false office) [
  | ok o ↦ o
  | err e ↦ no_object
]

apply_creation_template_lem_example :
    placed.owner_session ≡ (if is_token_template asked false then 0 else 1)
unfolding apply_creation_template lookup validate_from one_of validate_attribute
    is_boolean_attribute is_policy_attribute
apply_creation_template_lem_example =
    (apply_creation_template_lem wrapping_key 1 asked false office {s = writer} {o' = placed} refl
      refl).6
