-- ===== src/Calls/Keeping.antt =====
-- Every sequence of calls keeps the registry well formed.
use pkcs11hsmsim.Base.{
  ℕ, ◌+◌, ◌≡◌, refl, Bool, true, false, some, [], arith, items, contents, drop, inl, inr,
  Option-cases, Bool-cases,
}
use pkcs11hsmsim.Base.Dict.{lookup}
use pkcs11hsmsim.Result.{Result, ok, err, is_ok, Exec, reject, function_not_supported}
use pkcs11hsmsim.Openssl.{KeyReader}
use pkcs11hsmsim.Core.State.{Runtime}
use pkcs11hsmsim.Core.Invariant.{IsValid}
use pkcs11hsmsim.Core.Moves.{moved-IsValid, retouched-IsValid, replaced-IsValid}
use pkcs11hsmsim.Template.{Template}
use pkcs11hsmsim.Attributes.Setting.{set_attribute_value, save_changed}
use pkcs11hsmsim.Attributes.Changing.{
  set_attribute_value-Accepted, set_attribute_value_failed, save_changed-disk, find_object-lookup,
  change_all-SameBut,
}
use pkcs11hsmsim.Objects.{
  destroy_object, find_objects_init, find_objects, find_objects_final, sort, collect_matches,
  is_match, report, is_visible,
}
use pkcs11hsmsim.Objects.Destroying.{destroy_object-IsValid}
use pkcs11hsmsim.Sessions.Opening.{open_session-IsValid}
use pkcs11hsmsim.Sessions.Closing.{close_session-IsValid}
use pkcs11hsmsim.Sessions.ClosingAll.{close_all_sessions-IsValid}
use pkcs11hsmsim.Sessions.LoggingIn.{login-IsValid}
use pkcs11hsmsim.Sessions.LoggingOut.{logout-IsValid}
use pkcs11hsmsim.Sessions.Pins.{set_pin-IsValid, init_pin-IsValid}
use pkcs11hsmsim.Calls.Signing.{append_signature_data-IsValid, initialize_signature-IsValid}
use pkcs11hsmsim.Signatures.{initialize_signature, append_signature_data}
use pkcs11hsmsim.Sessions.{
  open_session, close_session, close_all_sessions, login, logout, init_pin, set_pin,
}
use pkcs11hsmsim.Token.{finalize}
use pkcs11hsmsim.Calls.Making.{
  generate_key-IsValid, generate_key_pair-IsValid, derive_key-IsValid, unwrap_key-IsValid,
}
use pkcs11hsmsim.Generation.{generate_key}
use pkcs11hsmsim.Generation.Pairs.{generate_key_pair}
use pkcs11hsmsim.Derivation.{derive_key}
use pkcs11hsmsim.Wrapping.Unwrapping.{unwrap_key}
use pkcs11hsmsim.Signatures.Finishing.{sign, sign_final, verify, verify_final}
use pkcs11hsmsim.Signatures.Ending.{
  sign-IsValid, sign_final-IsValid, verify-IsValid, verify_final-IsValid,
}
use pkcs11hsmsim.Calls.{
  invoke, unsupported_operation, Step, opens, closes, closes_all, logs_in, logs_out, inits_pin,
  sets_pin, destroys, sets_attributes, starts_search, pages_search, ends_search, starts_signature,
  appends_message, finalizes, fails, generates_key, generates_pair, derives, unwraps, signs,
  signs_final, verifies, verifies_final, Reaches, here, after,
}

find_objects_init-IsValid :
    (reader : KeyReader) (h : ℕ) (attributes : Template) (r : Runtime)
    → IsValid r
    → IsValid (find_objects_init reader h attributes r).1
unfolding find_objects_init
find_objects_init-IsValid reader h attributes r v = elim (Option-cases (lookup h r.sessions)) [
  | inl missing ↦ rw missing v
  | inr (s, found) ↦
      let found' = sort (collect_matches (is_match reader h s (contents attributes) r) r.objects) in
      rw found (
        ground (
          arith,
          retouched-IsValid h
              (λ s. record s { matches = found'; search_offset = 0; search_active = true })
              (λ s. (refl, refl, refl)) r v,
        ))
]

find_objects-IsValid :
    (h : ℕ) (has_objects : Bool) (capacity : ℕ) (has_count : Bool) (r : Runtime)
    → IsValid r
    → IsValid (find_objects h has_objects capacity has_count r).1
unfolding find_objects
find_objects-IsValid h has_objects capacity has_count r v =
    elim (Option-cases (lookup h r.sessions)) [
      | inl missing ↦ rw missing v
      | inr (s, found) ↦
          let seen = (report (is_visible h r) capacity (drop s.search_offset s.matches)).1 in
          rw found (
            ground (
              arith,
              retouched-IsValid h (λ s. record s { search_offset = s.search_offset + seen })
                  (λ s. (refl, refl, refl)) r v,
            ))
    ]

find_objects_final-IsValid : (h : ℕ) (r : Runtime) → IsValid r → IsValid (find_objects_final h r).1
unfolding find_objects_final
find_objects_final-IsValid h r v = elim (Option-cases (lookup h r.sessions)) [
  | inl missing ↦ rw missing v
  | inr (s, found) ↦ rw found (
      ground (
        arith,
        retouched-IsValid h (λ s. record s { search_active = false; matches = [] })
            (λ s. (refl, refl, refl)) r v,
      ))
]

emptied-IsValid :
    (r : Runtime)
    → IsValid r
    → IsValid (record r { slots = []; sessions = []; objects = []; initialized = false })
emptied-IsValid r v = record {
  first_handles = v.first_handles;
  unique_slots = tt;
  unique_objects = tt;
  unique_sessions = tt;
  sessions_ok = tt;
  objects_ok = tt;
  slots_ok = tt;
}

finalize-IsValid :
    (has_reserved : Bool) (r : Runtime) → IsValid r → IsValid (finalize has_reserved r).1
unfolding finalize
finalize-IsValid has_reserved r v = ground (arith, emptied-IsValid r v)

is_ok-ok : (x : Result (Unit {0})) → is_ok x ≡ true → x ≡ ok tt
is_ok-ok (ok u) h = refl
is_ok-ok (err e) h = ground arith

set_attribute_value-IsValid :
    (h k : ℕ) (attributes : Template) (r : Runtime)
    → IsValid r
    → IsValid (set_attribute_value h k attributes r).1
set_attribute_value-IsValid h k attributes r v =
    elim (Bool-cases (is_ok (set_attribute_value h k attributes r).0)) [
      | inr failed ↦
          rw (set_attribute_value_failed h k attributes r failed)
            (moved-IsValid (set_attribute_value h k attributes r).1.disk r v)
      | inl done ↦
          let (session, o, changed, a) =
            set_attribute_value-Accepted h k attributes r
              (is_ok-ok (set_attribute_value h k attributes r).0 done) in
          let same = change_all-SameBut o o (contents attributes) a.changes in
          let saved = (save_changed changed r).1 in
          rw a.stored (
            rw (save_changed-disk changed r) (
              replaced-IsValid k o changed (record r { disk = saved.disk })
                (find_object-lookup h k r a.object_found) same.handle same.slot_id
                same.owner_session (moved-IsValid saved.disk r v)))
    ]

invoke-IsValid :
    {A : Type 0} (needs_initialization : Bool) (handler : Exec Runtime A) (r : Runtime)
    → IsValid r
    → IsValid (handler r).1
    → IsValid (invoke needs_initialization handler r).1
unfolding invoke
invoke-IsValid needs_initialization handler r v kept = ground arith

Step-IsValid : (reader : KeyReader) {r r' : Runtime} → Step reader r r' → IsValid r → IsValid r'
unfolding unsupported_operation
Step-IsValid reader (opens slot_id flags has_out r room) v =
    invoke-IsValid true (open_session slot_id flags has_out) r v
      (open_session-IsValid slot_id flags has_out r v room)
Step-IsValid reader (closes h r) v =
    invoke-IsValid true (close_session h) r v (close_session-IsValid h r v)
Step-IsValid reader (closes_all slot_id r) v =
    invoke-IsValid true (close_all_sessions slot_id) r v (close_all_sessions-IsValid slot_id r v)
Step-IsValid reader (logs_in h user pin r) v =
    invoke-IsValid true (login h user pin) r v (login-IsValid h user pin r v)
Step-IsValid reader (logs_out h r) v = invoke-IsValid true (logout h) r v (logout-IsValid h r v)
Step-IsValid reader (inits_pin h pin r) v =
    invoke-IsValid true (init_pin h pin) r v (init_pin-IsValid h pin r v)
Step-IsValid reader (sets_pin h old_pin new_pin r) v =
    invoke-IsValid true (set_pin h old_pin new_pin) r v (set_pin-IsValid h old_pin new_pin r v)
Step-IsValid reader (destroys h k r) v =
    invoke-IsValid true (destroy_object h k) r v (destroy_object-IsValid h k r v)
Step-IsValid reader (sets_attributes h k attributes r) v =
    invoke-IsValid true (set_attribute_value h k attributes) r v
      (set_attribute_value-IsValid h k attributes r v)
Step-IsValid reader (starts_search h attributes r) v =
    invoke-IsValid true (find_objects_init reader h attributes) r v
      (find_objects_init-IsValid reader h attributes r v)
Step-IsValid reader (pages_search h has_objects capacity has_count r) v =
    invoke-IsValid true (find_objects h has_objects capacity has_count) r v
      (find_objects-IsValid h has_objects capacity has_count r v)
Step-IsValid reader (starts_signature digest_size h mechanism k verify r) v =
    invoke-IsValid true (initialize_signature reader digest_size h mechanism k verify) r v
      (initialize_signature-IsValid reader digest_size h mechanism k verify r v)
Step-IsValid reader (appends_message h input verify r) v =
    invoke-IsValid true (append_signature_data h input verify) r v
      (append_signature_data-IsValid h input verify r v)
Step-IsValid reader (ends_search h r) v =
    invoke-IsValid true (find_objects_final h) r v (find_objects_final-IsValid h r v)
Step-IsValid reader (finalizes has_reserved r) v =
    invoke-IsValid false (finalize has_reserved) r v (finalize-IsValid has_reserved r v)
Step-IsValid reader (fails r) v = invoke-IsValid true (reject function_not_supported) r v v
Step-IsValid reader (generates_key random h mechanism attributes has_handle r room) v =
    invoke-IsValid true (generate_key random h mechanism attributes has_handle) r v
      (generate_key-IsValid r v room random h mechanism attributes has_handle)
Step-IsValid reader
      (generates_pair writer maker h mechanism publics privates has_public has_private r room) v =
    invoke-IsValid true
      (generate_key_pair reader writer maker h mechanism publics privates has_public has_private) r
      v
      (generate_key_pair-IsValid r v room reader writer maker h mechanism publics privates
        has_public has_private)
Step-IsValid reader (derives encrypt h mechanism base attributes has_handle r room) v =
    invoke-IsValid true (derive_key encrypt h (some mechanism) base attributes has_handle) r v
      (derive_key-IsValid r v room encrypt h mechanism base attributes has_handle)
Step-IsValid reader (unwraps writer carrier h mechanism wrapping bytes attributes has_handle r room)
      v =
    invoke-IsValid true
      (unwrap_key reader writer carrier h mechanism wrapping (items bytes) attributes has_handle) r
      v
      (unwrap_key-IsValid r v room reader writer carrier h mechanism wrapping bytes attributes
        has_handle)
Step-IsValid reader (signs engine h input has_signature capacity r) v =
    invoke-IsValid true (λ r. (sign reader engine h input has_signature capacity r).result) r v
      (sign-IsValid reader engine h r v input has_signature capacity)
Step-IsValid reader (signs_final engine h has_signature capacity r) v =
    invoke-IsValid true (λ r. (sign_final reader engine h has_signature capacity r).result) r v
      (sign_final-IsValid reader engine h r v has_signature capacity)
Step-IsValid reader (verifies engine h input signature r) v =
    invoke-IsValid true (verify reader engine h input signature) r v
      (verify-IsValid reader engine h r v input signature)
Step-IsValid reader (verifies_final engine h signature r) v =
    invoke-IsValid true (verify_final reader engine h signature) r v
      (verify_final-IsValid reader engine h r v signature)

-- However the calls are ordered and whatever they are passed, the registry stays well formed while
-- handles do not wrap: keys are unique, every session has a slot, every session object has a
-- live owner in its slot, and somebody is logged in to a slot only while it has a session, the
-- security officer only while it has no read-only session.
pub Reaches-IsValid :
    (reader : KeyReader) {r r' : Runtime} → Reaches reader r r' → IsValid r → IsValid r'
Reaches-IsValid reader (here r) v = v
Reaches-IsValid reader (after r s t before step) v =
    Step-IsValid reader step (Reaches-IsValid reader before v)
