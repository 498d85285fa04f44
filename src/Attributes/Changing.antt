-- ===== src/Attributes/Changing.antt =====
-- What SetAttributeValue can change.
use pkcs11hsmsim.Base.{
  ℕ, ◌≡◌, refl, Bool, true, false, not, ◌&&◌, some, List, [], ◌∷◌, Bytes, arith, ◌==◌, contents,
  if◌then◌else◌, inl, inr, Bool-cases, Option-cases, items, ◌⊎◌,
}
use pkcs11hsmsim.Base.Dict.{lookup, lookup-assign, adjust, lookup-adjust}
use pkcs11hsmsim.Ck.{cka_label, cka_id, cka_sensitive, cka_extractable, cka_modifiable, is_rw}
use pkcs11hsmsim.Result.{ok, is_ok, Result-cases}
use pkcs11hsmsim.Core.State.{Object, Session, Runtime}
use pkcs11hsmsim.Core.{find_object, find_session, require_user_login}
use pkcs11hsmsim.Template.{Attribute, Template, template_string}
use pkcs11hsmsim.Policy.Values.{policy_value}
use pkcs11hsmsim.Policy.Creation.{set_policy, first_byte, validate_creation_template}
use pkcs11hsmsim.Attributes.Setting.{
  change, change_all, is_locked, save_changed, set_attribute_value,
}

-- All but label, id and policy.
pub record SameBut (o o' : Object) : Type 0 where
  pub handle : o'.handle ≡ o.handle
  pub slot_id : o'.slot_id ≡ o.slot_id
  pub object_class : o'.object_class ≡ o.object_class
  pub key_type : o'.key_type ≡ o.key_type
  pub path : o'.path ≡ o.path
  pub algorithm_name : o'.algorithm_name ≡ o.algorithm_name
  pub secret_value : o'.secret_value ≡ o.secret_value
  pub certificate_der : o'.certificate_der ≡ o.certificate_der
  pub asymmetric_key : o'.asymmetric_key ≡ o.asymmetric_key
  pub owner_session : o'.owner_session ≡ o.owner_session

-- The protection of `o` that a copy still has.
pub record StillLocked (o o' : Object) : Type 0 where
  pub sensitive : policy_value o cka_sensitive ≡ true → policy_value o' cka_sensitive ≡ true
  pub unextractable :
      policy_value o cka_extractable ≡ false → policy_value o' cka_extractable ≡ false

policy_value-set_policy :
    (o : Object) (t u : ℕ) (b : Bool)
    → policy_value (set_policy t b o) u ≡ (if t == u then b else policy_value o u)
unfolding policy_value
policy_value-set_policy o t u b = ground (arith, lookup-assign u t b o.policy)

change-SameBut :
    (o changed : Object) (a : Attribute) {next : Object}
    → change o changed a ≡ ok next
    → SameBut changed next
unfolding change
change-SameBut o changed a h = ground arith

-- Label and id do not bear on the policy.
policy_value-relabelled :
    (o : Object) (label : Bytes) (t : ℕ)
    → policy_value (record o { label = label }) t ≡ policy_value o t
unfolding policy_value
policy_value-relabelled o label t = refl

policy_value-renamed :
    (o : Object) (id : Bytes) (t : ℕ) → policy_value (record o { id = id }) t ≡ policy_value o t
unfolding policy_value
policy_value-renamed o id t = refl

-- A round keeps the policy, or sets an attribute to a value that its lock allows.
change_cases :
    (o changed : Object) (a : Attribute) {next : Object}
    → change o changed a ≡ ok next
    → ((t : ℕ) → policy_value next t ≡ policy_value changed t)
      ⊎ ((value : Bool) × (is_locked o a.type value ≡ false)
          × (next ≡ set_policy a.type value changed))
unfolding change
change_cases o changed a {next} h =
    let label = template_string (items (a ∷ [])) a.type [] in
    let value = not (first_byte (contents a.value) == 0) in
    elim (Bool-cases (a.type == cka_label)) [
      | inl is_label ↦ inl (λ t. ground (arith, policy_value-relabelled changed label t))
      | inr not_label ↦ elim (Bool-cases (a.type == cka_id)) [
        | inl is_id ↦ inl (λ t. ground (arith, policy_value-renamed changed label t))
        | inr not_id ↦ inr (value, ground arith, ground arith)
      ]
    ]

change-StillLocked :
    (o changed : Object) (a : Attribute) {next : Object}
    → change o changed a ≡ ok next
    → StillLocked o changed
    → StillLocked o next
change-StillLocked o changed a {next} h locked = elim (change_cases o changed a h) [
  | inl same ↦ ground (arith, same cka_sensitive, same cka_extractable)
  | inr (value, free, e) ↦ ground (
    arith,
    e,
    policy_value-set_policy changed a.type cka_sensitive value,
    policy_value-set_policy changed a.type cka_extractable value,
  )
]

change_all-StillLocked :
    (o changed : Object) (as' : List Attribute) {final : Object}
    → change_all o changed as' ≡ ok final
    → StillLocked o changed
    → StillLocked o final
unfolding change_all
change_all-StillLocked o changed [] h locked = ground arith
change_all-StillLocked o changed (a ∷ rest) {final} h locked =
    elim (Result-cases (change o changed a)) [
      | inl (next, e) ↦
          change_all-StillLocked o next rest {final = final} (ground arith)
            (change-StillLocked o changed a e locked)
      | inr (fault, e) ↦ absurd (ground arith)
    ]

SameBut-trans : (a b c : Object) → SameBut a b → SameBut b c → SameBut a c
SameBut-trans a b c x y = ground arith

pub change_all-SameBut :
    (o changed : Object) (as' : List Attribute) {final : Object}
    → change_all o changed as' ≡ ok final
    → SameBut changed final
unfolding change_all
change_all-SameBut o changed [] h = ground arith
change_all-SameBut o changed (a ∷ rest) {final} h = elim (Result-cases (change o changed a)) [
  | inl (next, e) ↦
      SameBut-trans changed next final (change-SameBut o changed a e)
        (change_all-SameBut o next rest {final = final} (ground arith))
  | inr (fault, e) ↦ absurd (ground arith)
]

-- The path of a `SetAttributeValue` that succeeds.
pub record Accepted (h k : ℕ) (attributes : Template) (r : Runtime) (session : Session)
    (o changed : Object) : Type 0 where
  pub session_found : find_session h r ≡ some session
  pub object_found : find_object h k r ≡ some o
  pub access : require_user_login h r ≡ ok tt
  pub modifiable : policy_value o cka_modifiable ≡ true
  pub writable : o.owner_session == 0 && not (is_rw session.flags) ≡ false
  pub valid : validate_creation_template attributes ≡ ok tt
  pub changes : change_all o o (contents attributes) ≡ ok changed
  pub saved : (save_changed changed r).0 ≡ ok tt
  pub stored : (set_attribute_value h k attributes r).1 ≡ record ((save_changed changed r).1) {
    objects = adjust k (λ _. changed) (save_changed changed r).1.objects;
  }

-- A `SetAttributeValue` that succeeds was made with access to a modifiable object, in a read-write
-- session if it is a token object, with a valid template of which every change is allowed; the changed
-- object was saved and takes the place of the old one.
pub set_attribute_value-Accepted :
    (h k : ℕ) (attributes : Template) (r : Runtime)
    → (set_attribute_value h k attributes r).0 ≡ ok tt
    → (session : Session) × (o changed : Object) × Accepted h k attributes r session o changed
unfolding set_attribute_value
set_attribute_value-Accepted h k attributes r done = elim (Option-cases (find_session h r)) [
  | inl missing ↦ absurd (ground arith)
  | inr (session, found) ↦ elim (Option-cases (find_object h k r)) [
    | inl missing ↦ absurd (ground arith)
    | inr (o, there) ↦ elim (Result-cases (change_all o o (contents attributes))) [
      | inr (fault, e) ↦ absurd (ground arith)
      | inl (changed, e) ↦ (session, o, changed, ground arith)
    ]
  ]
]

-- A `SetAttributeValue` that fails changes no object.
pub set_attribute_value_atomic :
    (h k : ℕ) (attributes : Template) (r : Runtime)
    → is_ok (set_attribute_value h k attributes r).0 ≡ false
    → (set_attribute_value h k attributes r).1.objects ≡ r.objects
unfolding set_attribute_value save_changed
set_attribute_value_atomic h k attributes r failed = ground arith

-- A save touches the files alone.
pub save_changed-disk :
    (changed : Object) (r : Runtime)
    → (save_changed changed r).1 ≡ record r { disk = (save_changed changed r).1.disk }
unfolding save_changed
save_changed-disk changed r = ground arith

pub set_attribute_value_failed :
    (h k : ℕ) (attributes : Template) (r : Runtime)
    → is_ok (set_attribute_value h k attributes r).0 ≡ false
    → (set_attribute_value h k attributes r).1
      ≡ record r { disk = (set_attribute_value h k attributes r).1.disk }
unfolding set_attribute_value save_changed
set_attribute_value_failed h k attributes r failed = ground arith

pub save_changed-objects :
    (changed : Object) (r : Runtime) → (save_changed changed r).1.objects ≡ r.objects
unfolding save_changed
save_changed-objects changed r = ground arith

pub find_object-lookup :
    (h k : ℕ) (r : Runtime) {o : Object} → find_object h k r ≡ some o → lookup k r.objects ≡ some o
unfolding find_object
find_object-lookup h k r found = ground arith

-- A sensitive object cannot be made readable again, nor can one that is not extractable: after a
-- `SetAttributeValue` that succeeds, the object that is stored under the handle has all the protection
-- that it had before. Only its label, its id and its policy can be another.
pub set_attribute_value-StillLocked :
    (h k : ℕ) (attributes : Template) (r : Runtime) {o : Object}
    → lookup k r.objects ≡ some o
    → (set_attribute_value h k attributes r).0 ≡ ok tt
    → (o' : Object) × (lookup k (set_attribute_value h k attributes r).1.objects ≡ some o')
      × StillLocked o o'
      × SameBut o o'
set_attribute_value-StillLocked h k attributes r {o} here done =
    let (session, was, changed, a) = set_attribute_value-Accepted h k attributes r done in
    let same : was ≡ o = ground (arith, find_object-lookup h k r a.object_found, here) in
    let objects : (set_attribute_value h k attributes r).1.objects
        ≡ adjust k (λ _. changed) r.objects =
      ground (arith, a.stored, save_changed-objects changed r) in
    (
      changed,
      rw objects (ground (arith, lookup-adjust k k (λ _. changed) r.objects, here)),
      rw (← same) (
          change_all-StillLocked was was (contents attributes) a.changes
            (record { sensitive = λ e. e; unextractable = λ e. e })),
      rw (← same) (change_all-SameBut was was (contents attributes) a.changes),
    )
