-- ===== src/Generation/Making.antt =====
-- GenerateKey: the key that it makes, or nothing.
use pkcs11hsmsim.Base.{
  ℕ, ◌+◌, ◌<◌, ◌≡◌, refl, ap, Bool, true, not, Option, some, [], Bytes, arith, ◌==◌, if◌then◌else◌,
}
use pkcs11hsmsim.Base.Text.{codes}
use pkcs11hsmsim.Base.Dict.{lookup}
use pkcs11hsmsim.Ck.{ulong_mod, is_rw, cko_secret_key, ckk_aes, ckm_aes_key_gen, cka_label}
use pkcs11hsmsim.Result.{
  ok, err, outcome-lift, outcome-need, outcome-refuse_if, Rv, session_handle_invalid, arguments_bad,
  mechanism_invalid, key_size_range, device_error,
}
use pkcs11hsmsim.Core.State.{Slot, Object, Session, Runtime}
use pkcs11hsmsim.Core.{session_slot, require_user_login}
use pkcs11hsmsim.Core.Invariant.{IsValid}
use pkcs11hsmsim.Template.{Template, template_string}
use pkcs11hsmsim.Policy.Creation.{
  validate_creation_template, is_token_template, apply_creation_template,
}
use pkcs11hsmsim.Policy.Creation.Application.{
  apply_creation_template_lem, apply_creation_template-others,
}
use pkcs11hsmsim.KeyStore.Saving.{next_handle, secret_path}
use pkcs11hsmsim.KeyStore.Created.{
  Creation, counted, unchanged-Creation, counted-Creation, publish_secret-Creation,
}
use pkcs11hsmsim.Generation.{generate_key, make_key, described_key, is_aes_size, key_length}

-- What a key that was generated in the session is, and what the call has passed.
pub record GeneratedKey (random : ℕ → Option Bytes) (h : ℕ) (mechanism : Option ℕ)
    (attributes : Template) (r : Runtime) (o : Object) : Type 0 where
  pub session : Session
  pub slot : Slot
  pub session_found : lookup h r.sessions ≡ some session
  pub slot_found : session_slot h r ≡ ok slot
  pub access : require_user_login h r ≡ ok tt
  pub writable : is_token_template attributes true ≡ true → is_rw session.flags ≡ true
  pub requested : mechanism ≡ some ckm_aes_key_gen
  pub sized : is_aes_size (key_length attributes) ≡ true
  pub drawn : random (key_length attributes) ≡ some o.secret_value
  pub object_class : o.object_class ≡ cko_secret_key
  pub key_type : o.key_type ≡ ckk_aes
  pub label : o.label ≡ template_string attributes cka_label (codes "aes-key")
  pub place : o.slot_id ≡ session.slot_id
  pub owner : o.owner_session ≡ (if is_token_template attributes true then 0 else h)
  pub path : o.path ≡ (if o.owner_session == 0 then secret_path slot.directory o.label else [])

module _ (random : ℕ → Option Bytes) (h : ℕ) (mechanism : Option ℕ) (attributes : Template)
    (r : Runtime) (room : r.next_object_handle + 1 < ulong_mod) (v : IsValid r) where
  module _ {session : Session} (found : lookup h r.sessions ≡ some session)
      (requested : mechanism ≡ some ckm_aes_key_gen)
      (sized : is_aes_size (key_length attributes) ≡ true) where
    GeneratedKey-applied :
        (slot : Slot) (o : Object) (value : Bytes)
        → session_slot h r ≡ ok slot
        → apply_creation_template
            (described_key r.next_object_handle slot.directory attributes)
            h
            attributes
            true
            (counted r)
          ≡ ok o
        → random (key_length attributes) ≡ some value
        → GeneratedKey random h mechanism attributes r (record o { secret_value = value })
    unfolding described_key session_slot require_user_login
    GeneratedKey-applied slot o value slot_found done drawn =
        let plain = described_key r.next_object_handle slot.directory attributes in
        let a = apply_creation_template_lem plain h attributes true (counted r) found done in
        let same = apply_creation_template-others plain h attributes true (counted r) done in
        record {
          session = session;
          slot = slot;
          session_found = found;
          slot_found = slot_found;
          access = a.3;
          writable = a.4;
          requested = requested;
          sized = sized;
          drawn = drawn;
          object_class = a.10;
          key_type = ap (λ x. x.key_type) same;
          label = a.11;
          place = a.5;
          owner = a.6;
          path = rw a.11 a.7;
        }

    make_key-Creation :
        Creation
          (GeneratedKey random h mechanism attributes r)
          r
          (make_key random h attributes (key_length attributes) r)
    unfolding make_key next_handle session_slot described_key
    make_key-Creation =
        let P = GeneratedKey random h mechanism attributes r in
        let Q = Creation P r in
        let base = counted r in
        let failed : (e : Rv) → Q (err e, base) = λ e. counted-Creation P r v room e in
        outcome-lift Q (session_slot h base) _ base (λ e _. failed e)
          (λ slot slot_found.
            let plain = described_key r.next_object_handle slot.directory attributes in
            outcome-lift Q (apply_creation_template plain h attributes true base) _ base
              (λ e _. failed e)
              (λ o done.
                outcome-need Q (random (key_length attributes)) device_error _ base
                  (failed device_error)
                  (λ value drawn.
                    let keyed = record o { secret_value = value } in
                    let place =
                      apply_creation_template_lem plain h attributes true base found done in
                    publish_secret-Creation P r v room (keyed.owner_session == 0) keyed h found
                      (ap (λ x. x.handle)
                        (apply_creation_template-others plain h attributes true base done))
                      place.5 refl (ground (arith, place.6))
                      (GeneratedKey-applied slot o value slot_found done drawn))))

  -- While handles do not wrap around, in a valid registry: a key that GenerateKey makes has the next
  -- handle, and it is a new AES key of 16, 24 or 32 random bytes, as many as the template says. Other
  -- objects stay as they were, the registry stays well formed, and after an error there is no new object.
  pub generate_key-Creation :
      (has_handle : Bool)
      → Creation
          (GeneratedKey random h mechanism attributes r)
          r
          (generate_key random h mechanism attributes has_handle r)
  unfolding generate_key
  generate_key-Creation has_handle =
      let P = GeneratedKey random h mechanism attributes r in
      let Q = Creation P r in
      let failed : (e : Rv) → Q (err e, r) = λ e. unchanged-Creation P r v e in
      outcome-need Q (lookup h r.sessions) session_handle_invalid _ r
        (failed session_handle_invalid)
        (λ session found.
          outcome-refuse_if Q (not has_handle) arguments_bad _ r (failed arguments_bad) (λ _.
            outcome-need Q mechanism arguments_bad _ r (failed arguments_bad) (λ m given.
              outcome-refuse_if Q (not (m == ckm_aes_key_gen)) mechanism_invalid _ r
                (failed mechanism_invalid)
                (λ aes.
                  outcome-lift Q (validate_creation_template attributes) _ r (λ e _. failed e)
                    (λ _ _.
                      outcome-refuse_if Q (not (is_aes_size (key_length attributes))) key_size_range
                        _ r (failed key_size_range)
                        (λ sized.
                          make_key-Creation found (ground (arith, given, aes))
                            (ground (arith, sized))))))))
