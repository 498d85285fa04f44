-- ===== src/Derivation/Making.antt =====
-- DeriveKey: the key that it makes, or nothing.
use pkcs11hsmsim.Base.{
  ℕ, ◌+◌, ◌<◌, ◌≤◌, ◌≡◌, ap, Bool, true, false, not, ◌&&◌, ◌||◌, Option, some, [], Bytes, arith,
  length, inl, inr, Option-cases, length-take, if◌then◌else◌, is_bad, contents, take,
}
use pkcs11hsmsim.Base.Dict.{lookup, Each-lookup}
use pkcs11hsmsim.Ck.{ulong_mod, is_rw, cko_secret_key, ckk_aes, cka_derive}
use pkcs11hsmsim.Result.{
  Rv, ok, err, outcome-lift, outcome-need, outcome-refuse_if, session_handle_invalid, arguments_bad,
  key_handle_invalid, session_read_only,
}
use pkcs11hsmsim.Core.State.{Object, Session, Runtime}
use pkcs11hsmsim.Core.{find_object, require_user_login}
use pkcs11hsmsim.Core.Invariant.{IsValid, SessionOk}
use pkcs11hsmsim.Template.{Template}
use pkcs11hsmsim.Policy.Values.{policy_value}
use pkcs11hsmsim.Policy.Creation.{
  validate_creation_template, is_token_template, apply_policy_template,
}
use pkcs11hsmsim.Policy.Creation.Application.{apply_policies-others}
use pkcs11hsmsim.KeyStore.Saving.{next_handle}
use pkcs11hsmsim.KeyStore.Created.{
  Creation, counted, unchanged-Creation, counted-Creation, publish_secret-Creation,
}
use pkcs11hsmsim.Derivation.{
  DeriveMechanism, derive_key, derivation_data, master_status, check_attributes, requested_length,
  derived_value, make_derived, derived_key, derived_path, used_length,
}
use pkcs11hsmsim.Derivation.Templates.{check_attributes_lem}

-- What a key that was derived in the session is, and what the call has passed.
pub record DerivedKey (encrypt : Bytes → Bytes → Option Bytes) (h base : ℕ)
    (mechanism : DeriveMechanism) (attributes : Template) (r : Runtime) (o : Object) : Type 0 where
  pub session : Session
  pub master : Object
  pub text : Bytes
  pub session_found : lookup h r.sessions ≡ some session
  pub master_found : find_object h base r ≡ some master
  pub access : require_user_login h r ≡ ok tt
  pub permitted : policy_value master cka_derive ≡ true
  pub master_kind : (master.object_class ≡ cko_secret_key) × (master.key_type ≡ ckk_aes)
  pub given : derivation_data mechanism ≡ ok text
  pub sized : requested_length attributes (length text) ≡ ok (length o.secret_value)
  pub value :
      derived_value encrypt master.secret_value text (length o.secret_value) ≡ ok o.secret_value
  pub valid : validate_creation_template attributes ≡ ok tt
  pub writable : is_token_template attributes false ≡ true → is_rw session.flags ≡ true
  pub kind : (o.object_class ≡ cko_secret_key) × (o.key_type ≡ ckk_aes)
  pub place : o.slot_id ≡ session.slot_id
  pub owner : o.owner_session ≡ (if is_token_template attributes false then 0 else h)

module _ (encrypt : Bytes → Bytes → Option Bytes) where
  derived_value-length :
      (key text : Bytes) (n : ℕ) {value : Bytes}
      → derived_value encrypt key text n ≡ ok value
      → length value ≡ n
  unfolding derived_value
  derived_value-length key text n {value} done =
      elim (Option-cases (encrypt key (take (used_length n) text))) [
        | inl failed ↦ absurd (ground (arith, failed))
        | inr (written, e) ↦
            let enough : n ≤ used_length n = omega arith in
            ground (arith, e, done, enough, length-take n written)
      ]

  module _ (h base : ℕ) (mechanism : DeriveMechanism) (attributes : Template) (r : Runtime)
      (room : r.next_object_handle + 1 < ulong_mod) (v : IsValid r) where
    module _ (session : Session) (master : Object) (text value : Bytes) (token : Bool) (n : ℕ)
        (session_found : lookup h r.sessions ≡ some session)
        (master_found : find_object h base r ≡ some master)
        (access : require_user_login h r ≡ ok tt) (suited : master_status master ≡ ok tt)
        (given : derivation_data mechanism ≡ ok text) (good : is_bad attributes ≡ false)
        (checked : check_attributes [] false (contents attributes) ≡ ok token)
        (sized : requested_length attributes (length text) ≡ ok n)
        (writable : token && not (is_rw session.flags) ≡ false)
        (derived : derived_value encrypt master.secret_value text n ≡ ok value) where
      abbrev P : Object → Type 0
      P = DerivedKey encrypt h base mechanism attributes r

      abbrev plain : Object
      plain = derived_key r.next_object_handle h session.slot_id token value attributes

      abbrev shaped : Object
      shaped = apply_policy_template plain attributes

      DerivedKey-shaped : (path : Bytes) → P (record shaped { path = path })
      unfolding derived_key apply_policy_template master_status
      DerivedKey-shaped path =
          let same = apply_policies-others plain (contents attributes) in
          let (valid, told) = check_attributes_lem attributes token good checked in
          let size = derived_value-length master.secret_value text n derived in
          record {
            session = session;
            master = master;
            text = text;
            session_found = session_found;
            master_found = master_found;
            access = access;
            permitted = ground (arith, suited);
            master_kind = ground (arith, suited);
            given = given;
            sized = rw (ap (λ x. x.secret_value) same, size) sized;
            value = rw (ap (λ x. x.secret_value) same, size) derived;
            valid = valid;
            writable = λ t. ground (arith, told, writable);
            kind = (ap (λ x. x.object_class) same, ap (λ x. x.key_type) same);
            place = ap (λ x. x.slot_id) same;
            owner = rw (← told) (ap (λ x. x.owner_session) same);
          }

      make_derived-Creation : Creation P r (make_derived h session.slot_id token value attributes r)
      unfolding make_derived next_handle derived_key apply_policy_template
      make_derived-Creation =
          let same = apply_policies-others plain (contents attributes) in
          let owner = ap (λ x. x.owner_session) same in
          let positive : 0 < h =
            (Each-lookup (SessionOk r.next_session_handle r.slots) h session r.sessions
              v.sessions_ok session_found).1 in
          outcome-lift (Creation P r) (derived_path h token shaped (counted r)) _ (counted r)
            (λ e _. counted-Creation P r v room e)
            (λ path _.
              publish_secret-Creation P r v room token (record shaped { path = path }) h
                session_found (ap (λ x. x.handle) same) (ap (λ x. x.slot_id) same)
                (rw owner (ground (arith, positive))) (rw owner (ground arith))
                (DerivedKey-shaped path))

    -- While handles do not wrap around, in a valid registry: a DeriveKey that succeeds was given valid
    -- data and a valid template by a user with access, on an AES key that may derive; a new AES key of the
    -- requested size comes in under the next handle, in the session's slot, with the encryption of the data
    -- as its value, and belongs to the token or the session as the template says. Other objects stay as
    -- they were, the registry stays well formed, and after an error there is no new object.
    pub derive_key-Creation :
        (has_handle : Bool)
        → Creation
            (DerivedKey encrypt h base mechanism attributes r)
            r
            (derive_key encrypt h (some mechanism) base attributes has_handle r)
    unfolding derive_key
    derive_key-Creation has_handle =
        let Q = Creation (DerivedKey encrypt h base mechanism attributes r) r in
        let failed : (e : Rv) → Q (err e, r) =
          λ e. unchanged-Creation (DerivedKey encrypt h base mechanism attributes r) r v e in
        outcome-need Q (lookup h r.sessions) session_handle_invalid _ r
          (failed session_handle_invalid)
          (λ session session_found.
            outcome-refuse_if Q (not has_handle || is_bad attributes) arguments_bad _ r
              (failed arguments_bad)
              (λ good.
                outcome-lift Q (derivation_data mechanism) _ r (λ e _. failed e)
                  (λ text given.
                    outcome-need Q (find_object h base r) key_handle_invalid _ r
                      (failed key_handle_invalid)
                      (λ master master_found.
                        outcome-lift Q (require_user_login h r) _ r (λ e _. failed e)
                          (λ _ access.
                            outcome-lift Q (master_status master) _ r (λ e _. failed e)
                              (λ _ suited.
                                outcome-lift Q (check_attributes [] false (contents attributes)) _ r
                                  (λ e _. failed e)
                                  (λ token checked.
                                    outcome-lift Q (requested_length attributes (length text)) _ r
                                      (λ e _. failed e)
                                      (λ n sized.
                                        outcome-refuse_if Q (token && not (is_rw session.flags))
                                          session_read_only _ r (failed session_read_only)
                                          (λ writable.
                                            outcome-lift Q
                                              (derived_value encrypt master.secret_value text n) _ r
                                              (λ e _. failed e)
                                              (λ value derived.
                                                make_derived-Creation session master text value
                                                  token n session_found master_found access suited
                                                  given (ground (arith, good)) checked sized
                                                  writable derived))))))))))
