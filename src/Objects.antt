-- ===== src/Objects.antt =====
-- src/objects/objects.cpp: destroying objects, and searches.
pub mod Destroying
pub mod Searching
pub mod Paging
pub mod Draining
mod Tests
use pkcs11hsmsim.Base.{
  ℕ, ◌+◌, ◌-◌, Bool, true, false, not, ◌&&◌, ◌||◌, Option, none, some, List, [], ◌∷◌, Bytes, ◌==◌,
  leb, Array, count, contents, is_bad, length, drop, any_of, erase_if, bytes_eq, if◌then◌else◌,
}
use pkcs11hsmsim.Base.Dict.{Dict, adjust, erase}
use pkcs11hsmsim.Ck.{cka_destroyable, is_rw}
use pkcs11hsmsim.Result.{
  Result, ok, err, is_ok, session_handle_invalid, object_handle_invalid, action_prohibited,
  session_read_only, device_error, arguments_bad, operation_active, operation_not_initialized, Exec,
  pure, gets, lift, need, refuse_if, modify, reject, ◌>>=◌, ◌>>◌,
}
use pkcs11hsmsim.Openssl.{KeyReader}
use pkcs11hsmsim.Disk.{Disk, remove}
use pkcs11hsmsim.Core.State.{Object, Session, Runtime}
use pkcs11hsmsim.Core.{find_session, find_object, require_user_login, object_access_status}
use pkcs11hsmsim.Policy.Values.{policy_value}
use pkcs11hsmsim.Template.{Attribute, Template}
use pkcs11hsmsim.Metadata.{path}
use pkcs11hsmsim.KeyStore.{has_path}
use pkcs11hsmsim.Attributes.{Query, Answer, read_attribute}

-- Another object of the same key file that may not be destroyed.
abbrev pub holds_back : Object → ℕ × Object → Bool
holds_back o e =
    o.owner_session == 0 && bytes_eq e.1.path o.path && not (policy_value e.1 cka_destroyable)

-- The key file and its metadata go, then every object of the file; a key file that cannot be removed
-- keeps its objects.
unfoldable pub remove_files : Object → Exec Runtime (Unit {0})
remove_files o r =
    let (failed, d) = remove o.path r.disk in
    if failed
    then (err device_error, record r { disk = d })
    else (let (failed', d') = remove (path o.path) d in
        (
          if failed' then err device_error else ok tt,
          record r { disk = d'; objects = erase_if (has_path o.path) r.objects },
        ))

unfoldable pub destroy_object : ℕ → ℕ → Exec Runtime (Unit {0})
destroy_object h k = do
  r ← gets (λ r. r)
  session ← need (find_session h r) session_handle_invalid
  o ← need (find_object h k r) object_handle_invalid
  lift (require_user_login h r)
  refuse_if (not (policy_value o cka_destroyable)) action_prohibited
  refuse_if (o.owner_session == 0 && not (is_rw session.flags)) session_read_only
  refuse_if (any_of (holds_back o) r.objects) action_prohibited
  if o.owner_session == 0
      then remove_files o
      else modify (λ r. record r { objects = erase k r.objects })

-- `std::sort`.
unfoldable pub insert_sorted : ℕ → List ℕ → List ℕ
insert_sorted k [] = k ∷ []
insert_sorted k (j ∷ js) = if leb k j then k ∷ j ∷ js else j ∷ insert_sorted k js

unfoldable pub sort : List ℕ → List ℕ
sort [] = []
sort (k ∷ ks) = insert_sorted k (sort ks)

unfoldable pub collect_matches : (Object → Bool) → Dict Object → List ℕ
collect_matches test [] = []
collect_matches test ((k, o) ∷ objects) =
    let rest = collect_matches test objects in if test o then k ∷ rest else rest

abbrev has_bad_value : Attribute → Bool
has_bad_value a = is_bad a.value

module _ (reader : KeyReader) where
  -- One attribute of the template: the length is asked for first, then the value.
  unfoldable pub matches_attribute : Object → Attribute → Bool
  matches_attribute o a =
      let first : Answer =
        read_attribute reader o (record { type = a.type; has_buffer = false; capacity = 0 }) in
      if not (is_ok first.status) || not (first.length == count a.value)
      then false
      else (let second : Answer =
            read_attribute reader o
              (record { type = a.type; has_buffer = true; capacity = first.length }) in
          is_ok second.status && (second.length == 0 || bytes_eq second.written (contents a.value)))

  unfoldable pub matches_all : Object → List Attribute → Bool
  matches_all o [] = true
  matches_all o (a ∷ rest) = matches_attribute o a && matches_all o rest

  -- The objects of the session's slot that it may access and that match.
  unfoldable pub is_match : ℕ → Session → List Attribute → Runtime → Object → Bool
  is_match h session attributes r o =
      o.slot_id == session.slot_id && is_ok (object_access_status h o r) && matches_all o attributes

  unfoldable pub find_objects_init : ℕ → Template → Exec Runtime (Unit {0})
  find_objects_init h attributes = do
    r ← gets (λ r. r)
    session ← need (find_session h r) session_handle_invalid
    refuse_if (is_bad attributes) arguments_bad
    refuse_if (any_of has_bad_value (contents attributes)) arguments_bad
    refuse_if session.search_active operation_active
    let found = collect_matches (is_match h session (contents attributes) r) r.objects
    modify (λ r. record r {
      sessions =
          adjust h (λ s. record s { matches = sort found; search_offset = 0; search_active = true })
            r.sessions;
    })

-- A handle that may be reported.
unfoldable pub is_visible : ℕ → Runtime → ℕ → Bool
is_visible h r k = elim (find_object h k r) [
  | none ↦ false
  | some o ↦ is_ok (object_access_status h o r)
]

-- The loop over the matches that are left: what is reported, and how many were looked at.
unfoldable pub report : (ℕ → Bool) → ℕ → List ℕ → List ℕ × ℕ
report visible capacity [] = ([], 0)
report visible capacity (k ∷ ks) =
    let taken = report visible (capacity - 1) ks in
    let passed = report visible capacity ks in
    if capacity == 0
    then ([], 0)
    else if visible k
    then (k ∷ taken.0, taken.1 + 1)
    else (passed.0, passed.1 + 1)

unfoldable pub find_objects : ℕ → Bool → ℕ → Bool → Exec Runtime (List ℕ)
find_objects h has_objects capacity has_count = do
  r ← gets (λ r. r)
  session ← need (find_session h r) session_handle_invalid
  refuse_if (not session.search_active) operation_not_initialized
  refuse_if (not has_count || (not has_objects && not (capacity == 0))) arguments_bad
  let (found, seen) = report (is_visible h r) capacity (drop session.search_offset session.matches)
  modify (λ r. record r {
    sessions = adjust h (λ s. record s { search_offset = s.search_offset + seen }) r.sessions;
  })
  pure found

unfoldable pub find_objects_final : ℕ → Exec Runtime (Unit {0})
find_objects_final h = do
  r ← gets (λ r. r)
  session ← need (find_session h r) session_handle_invalid
  refuse_if (not session.search_active) operation_not_initialized
  modify (λ r. record r {
    sessions = adjust h (λ s. record s { search_active = false; matches = [] }) r.sessions;
  })
