-- ===== src/Policy/Creation/Application.antt =====
-- What applyPolicyTemplate and applyCreationTemplate do to an object.
use pkcs11hsmsim.Base.{
  ℕ, ◌≡◌, refl, Bool, true, false, not, Option, none, some, List, [], ◌∷◌, Bytes, arith, ◌==◌,
  Array, null, items, is_bad, contents, if◌then◌else◌, value_or, Each, Each-map, inl, inr,
  Option-cases,
}
use pkcs11hsmsim.Base.Dict.{lookup, lookup-assign}
use pkcs11hsmsim.Result.{ok}
use pkcs11hsmsim.Ck.{cka_class, cka_key_type, is_rw}
use pkcs11hsmsim.Core.{require_user_login}
use pkcs11hsmsim.Core.State.{Object, Session, Runtime}
use pkcs11hsmsim.Template.{
  Attribute, Template, template_bytes, find_bytes, attribute_bytes, template_unsigned,
}
use pkcs11hsmsim.Policy.Values.{one_of, is_policy_attribute, policy_value}
use pkcs11hsmsim.Policy.Creation.{
  apply_creation_template, is_token_template, set_policy, apply_policies, apply_policy_template,
  validate_creation_template, first_byte,
}
use pkcs11hsmsim.Policy.Creation.Validation.{
  HasSize, Fresh, Acceptable, validate_creation_template-Acceptable,
}

-- What a template says of one policy attribute, as a change of the object's value.
abbrev pub overridden : Option Bytes → Bool → Bool
overridden none old = old
overridden (some value) old = not (first_byte value == 0)

policy_value-set_policy :
    (o : Object) (t u : ℕ) (b : Bool)
    → policy_value (set_policy t b o) u ≡ (if t == u then b else policy_value o u)
unfolding policy_value
policy_value-set_policy o t u b = ground (arith, lookup-assign u t b o.policy)

-- A type that was seen before does not come again.
find_bytes-Fresh :
    (seen : List ℕ) (as' : List Attribute) (t : ℕ)
    → one_of seen t ≡ true
    → Fresh seen as'
    → find_bytes as' t ≡ none
unfolding find_bytes one_of
find_bytes-Fresh seen [] t h fresh = refl
find_bytes-Fresh seen (a ∷ rest) t h fresh = ground (arith, find_bytes-Fresh (a.type ∷ seen) rest t)

pub attribute_bytes-good :
    (value : Array ℕ) → is_bad value ≡ false → attribute_bytes value ≡ some (contents value)
unfolding attribute_bytes
attribute_bytes-good (null n) good = ground arith
attribute_bytes-good (items xs) good = refl

apply_policies-policy_value :
    (o : Object) (seen : List ℕ) (as' : List Attribute) (t : ℕ)
    → is_policy_attribute t ≡ true
    → Fresh seen as'
    → Each (λ a. is_bad a.value ≡ false) as'
    → policy_value (apply_policies o as') t ≡ overridden (find_bytes as' t) (policy_value o t)
unfolding apply_policies find_bytes one_of
apply_policies-policy_value o seen [] t p fresh good = refl
apply_policies-policy_value o seen (a ∷ rest) t p fresh good =
    let value = not (first_byte (contents a.value) == 0) in
    let ih =
      λ (o' : Object). apply_policies-policy_value o' (a.type ∷ seen) rest t p fresh.1 good.1 in
    ground (
      arith,
      ih o,
      ih (set_policy a.type value o),
      policy_value-set_policy o a.type t value,
      attribute_bytes-good a.value good.0,
      find_bytes-Fresh (a.type ∷ seen) rest t,
    )

HasSize-good : (value : Array ℕ) (n : ℕ) → HasSize value n → is_bad value ≡ false
HasSize-good (null k) n h = absurd h
HasSize-good (items xs) n h = refl

Acceptable-good : (a : Attribute) → Acceptable a → is_bad a.value ≡ false
Acceptable-good a h = ground (arith, HasSize-good a.value 4)

-- A valid template sets exactly the policy attributes that stand in it, each to its Boolean value; the
-- other attributes keep the value that the object had.
pub apply_policy_template-policy_value :
    (o : Object) (attributes : Template) (t : ℕ)
    → validate_creation_template attributes ≡ ok tt
    → is_policy_attribute t ≡ true
    → policy_value (apply_policy_template o attributes) t
      ≡ overridden (template_bytes attributes t) (policy_value o t)
unfolding apply_policy_template template_bytes apply_policies
apply_policy_template-policy_value o (null n) t valid p = refl
apply_policy_template-policy_value o (items as') t valid p =
    let (good, fresh, each) = (validate_creation_template-Acceptable (items as')).0 valid in
    apply_policies-policy_value o [] as' t p fresh
      (Each-map Acceptable (λ a. is_bad a.value ≡ false) as' Acceptable-good each)

-- The changes of `applyPolicyTemplate` leave all else in the object as it was.
pub apply_policies-others :
    (o : Object) (as' : List Attribute)
    → apply_policies o as' ≡ record o { policy = (apply_policies o as').policy }
unfolding apply_policies
apply_policies-others o [] = refl
apply_policies-others o (a ∷ rest) = ground (
  arith,
  apply_policies-others o rest,
  apply_policies-others (set_policy a.type (not (first_byte (contents a.value) == 0)) o) rest,
)

module _ (o : Object) (h : ℕ) (attributes : Template) (fallback : Bool) (r : Runtime) {s : Session}
    {o' : Object} (found : lookup h r.sessions ≡ some s)
    (done : apply_creation_template o h attributes fallback r ≡ ok o') where
  -- A creation template that is applied in a live session is valid and contradicts neither the class
  -- nor the key type of the object, a token object needs a read-write session, and the user has
  -- access. The object is placed in the session's slot, belongs to the session unless it is a token
  -- object, keeps its path only as a token object, and keeps its value and its identity.
  pub apply_creation_template_lem :
      (validate_creation_template attributes ≡ ok tt)
      × (value_or (template_unsigned attributes cka_class) o.object_class ≡ o.object_class)
      × (value_or (template_unsigned attributes cka_key_type) o.key_type ≡ o.key_type)
      × (require_user_login h r ≡ ok tt)
      × (is_token_template attributes fallback ≡ true → is_rw s.flags ≡ true)
      × (o'.slot_id ≡ s.slot_id)
      × (o'.owner_session ≡ (if is_token_template attributes fallback then 0 else h))
      × (o'.path ≡ (if o'.owner_session == 0 then o.path else []))
      × (o'.secret_value ≡ o.secret_value)
      × (o'.handle ≡ o.handle)
      × (o'.object_class ≡ o.object_class)
      × (o'.label ≡ o.label)
  unfolding apply_creation_template apply_policy_template
  apply_creation_template_lem =
      let shaped = λ (owner : ℕ).
        apply_policies-others (record o { slot_id = s.slot_id; owner_session = owner })
          (contents attributes) in
      ground (arith, found, done, shaped 0, shaped h)

-- The template changes nothing else of the object.
pub apply_creation_template-others :
    (o : Object) (h : ℕ) (attributes : Template) (fallback : Bool) (r : Runtime) {o' : Object}
    → apply_creation_template o h attributes fallback r ≡ ok o'
    → o' ≡ record o {
      slot_id = o'.slot_id;
      owner_session = o'.owner_session;
      path = o'.path;
      policy = o'.policy;
    }
unfolding apply_creation_template apply_policy_template
apply_creation_template-others o h attributes fallback r done =
    elim (Option-cases (lookup h r.sessions)) [
      | inl missing ↦ absurd (ground (arith, missing))
      | inr (s, found) ↦
          let shaped = λ (owner : ℕ).
            apply_policies-others (record o { slot_id = s.slot_id; owner_session = owner })
              (contents attributes) in
          ground (arith, found, done, shaped 0, shaped h)
    ]
