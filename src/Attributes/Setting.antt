-- ===== src/Attributes/Setting.antt =====
-- SetAttributeValue.
use pkcs11hsmsim.Base.{
  ℕ, Bool, true, not, ◌&&◌, ◌||◌, some, List, [], ◌∷◌, ◌==◌, contents, if◌then◌else◌, items,
}
use pkcs11hsmsim.Base.Dict.{adjust}
use pkcs11hsmsim.Ck.{cka_label, cka_id, cka_sensitive, cka_extractable, cka_modifiable, is_rw}
use pkcs11hsmsim.Result.{
  Result, ok, err, attribute_read_only, session_handle_invalid, object_handle_invalid,
  action_prohibited, session_read_only, device_error, Exec, ◌>>=◌, ◌>>◌, gets, lift, need,
  refuse_if, modify,
}
use pkcs11hsmsim.Core.State.{Object, Runtime}
use pkcs11hsmsim.Core.{find_session, find_object, require_user_login}
use pkcs11hsmsim.Template.{Attribute, Template, template_string}
use pkcs11hsmsim.Policy.Values.{is_policy_attribute, policy_value}
use pkcs11hsmsim.Policy.Creation.{validate_creation_template, set_policy, first_byte}
use pkcs11hsmsim.Metadata.{create}
use pkcs11hsmsim.KeyStore.{collect_metadata}

-- A sensitive object stays sensitive, and one that is not extractable stays so.
abbrev pub is_locked : Object → ℕ → Bool → Bool
is_locked o t value =
    (t == cka_sensitive && policy_value o t && not value)
    || (t == cka_extractable && not (policy_value o t) && value)

-- One round of the loop: the object as it was, the changed copy, the attribute.
unfoldable pub change : Object → Object → Attribute → Result Object
change o changed a =
    if a.type == cka_label
    then ok (record changed { label = template_string (items (a ∷ [])) a.type [] })
    else if a.type == cka_id
    then ok (record changed { id = template_string (items (a ∷ [])) a.type [] })
    else if is_policy_attribute a.type
    then (let value = not (first_byte (contents a.value) == 0) in
        if is_locked o a.type value
        then err attribute_read_only
        else ok (set_policy a.type value changed))
    else err attribute_read_only

unfoldable pub change_all : Object → Object → List Attribute → Result Object
change_all o changed [] = ok changed
change_all o changed (a ∷ rest) = elim (change o changed a) [
  | err e ↦ err e
  | ok changed' ↦ change_all o changed' rest
]

-- A token object's metadata is rewritten first; whatever is thrown there is CKR_DEVICE_ERROR.
unfoldable pub save_changed : Object → Exec Runtime (Unit {0})
save_changed changed r =
    if changed.owner_session == 0
    then (let (result, d) =
          create changed.path (collect_metadata changed.path (some changed) r) true r.disk in
        elim result [
          | ok _ ↦ (ok tt, record r { disk = d })
          | err e ↦ (err device_error, record r { disk = d })
        ])
    else (ok tt, r)

unfoldable pub set_attribute_value : ℕ → ℕ → Template → Exec Runtime (Unit {0})
set_attribute_value h k attributes = do
  r ← gets (λ r. r)
  session ← need (find_session h r) session_handle_invalid
  o ← need (find_object h k r) object_handle_invalid
  lift (require_user_login h r)
  refuse_if (not (policy_value o cka_modifiable)) action_prohibited
  refuse_if (o.owner_session == 0 && not (is_rw session.flags)) session_read_only
  lift (validate_creation_template attributes)
  changed ← lift (change_all o o (contents attributes))
  save_changed changed
  modify (λ r. record r { objects = adjust k (λ _. changed) r.objects })
