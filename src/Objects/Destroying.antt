-- ===== src/Objects/Destroying.antt =====
-- DestroyObject: what goes, what stays, and what a refusal leaves.
use pkcs11hsmsim.Base.{
  ℕ, ◌≡◌, ◌≢◌, ◌⊎◌, ◌∙◌, refl, ap, Bool, true, false, not, ◌&&◌, none, some, arith, ◌==◌,
  if◌then◌else◌, Bytes, bytes_eq, any_of, erase_if, inl, inr, Option-cases, Bool-cases,
}
use pkcs11hsmsim.Base.Text.{codes}
use pkcs11hsmsim.Base.Dict.{lookup, erase, lookup-erase_if_kept}
use pkcs11hsmsim.Base.Dict.Unique.{Unique, Unique-erase_if, lookup-erase_if}
use pkcs11hsmsim.Ck.{cka_destroyable, is_rw}
use pkcs11hsmsim.Result.{
  Result, ok, err, session_handle_invalid, object_handle_invalid, action_prohibited,
  session_read_only, and_then, Result-cases,
}
use pkcs11hsmsim.Disk.{Disk, file, remove}
use pkcs11hsmsim.Disk.Laws.{file-remove, file-remove_ne, bytes_eq-append, bytes_eq_refl}
use pkcs11hsmsim.Core.State.{Object, Session, Runtime}
use pkcs11hsmsim.Core.Invariant.{IsValid}
use pkcs11hsmsim.Core.Moves.{moved-IsValid}
use pkcs11hsmsim.Core.Keeping.{objects_ok-erase_if}
use pkcs11hsmsim.Core.{find_object, require_user_login}
use pkcs11hsmsim.Policy.Values.{policy_value}
use pkcs11hsmsim.Metadata.{path}
use pkcs11hsmsim.KeyStore.{has_path}
use pkcs11hsmsim.Objects.{destroy_object, remove_files, holds_back}

-- The checks before anything is removed.
unfoldable pub may_destroy : ℕ → Object → Session → Runtime → Result (Unit {0})
may_destroy h o s r = and_then (require_user_login h r) (
    if not (policy_value o cka_destroyable)
    then err action_prohibited
    else if o.owner_session == 0 && not (is_rw s.flags)
    then err session_read_only
    else if any_of (holds_back o) r.objects
    then err action_prohibited
    else ok tt)

-- The registry with some objects fewer and other files.
abbrev fewer : (ℕ × Object → Bool) → Disk → Runtime → Runtime
fewer p d r = record r { objects = erase_if p r.objects; disk = d }

-- What follows the checks.
abbrev performed : ℕ → Object → Runtime → Result (Unit {0}) × Runtime
performed k o r =
    if o.owner_session == 0 then remove_files o r else (ok tt, fewer (λ e. e.0 == k) r.disk r)

fewer-IsValid : (p : ℕ × Object → Bool) (d : Disk) (r : Runtime) → IsValid r → IsValid (fewer p d r)
fewer-IsValid p d r v = record {
  first_handles = v.first_handles;
  unique_slots = v.unique_slots;
  unique_objects = Unique-erase_if p r.objects v.unique_objects;
  unique_sessions = v.unique_sessions;
  sessions_ok = v.sessions_ok;
  objects_ok =
      objects_ok-erase_if p r.next_object_handle r.slots r.sessions r.sessions r.objects
        (λ k o stays owned alive. alive) v.objects_ok;
  slots_ok = v.slots_ok;
}

destroy_object_lem :
    (h k : ℕ) (r : Runtime)
    → destroy_object h k r ≡ elim (lookup h r.sessions) [
      | none ↦ (err session_handle_invalid, r)
      | some s ↦ elim (find_object h k r) [
        | none ↦ (err object_handle_invalid, r)
        | some o ↦ elim (may_destroy h o s r) [ err e ↦ (err e, r) | ok _ ↦ performed k o r ]
      ]
    ]
unfolding destroy_object may_destroy erase
destroy_object_lem h k r = elim (Option-cases (lookup h r.sessions)) [
  | inl missing ↦ rw missing refl
  | inr (s, found) ↦ elim (Option-cases (find_object h k r)) [
    | inl absent ↦ rw found (rw absent refl)
    | inr (o, here) ↦ elim (Result-cases (require_user_login h r)) [
      | inl (u, login) ↦ rw found (rw here (rw login (ground arith)))
      | inr (e, login) ↦ rw found (rw here (rw login refl))
    ]
  ]
]

remove_files-IsValid : (o : Object) (r : Runtime) → IsValid r → IsValid (remove_files o r).1
unfolding remove_files
remove_files-IsValid o r v = elim (Bool-cases (remove o.path r.disk).0) [
  | inl failed ↦ rw failed (moved-IsValid (remove o.path r.disk).1 r v)
  | inr removed ↦
      rw removed
        (fewer-IsValid (has_path o.path) (remove (path o.path) (remove o.path r.disk).1).1 r v)
]

performed-IsValid : (k : ℕ) (o : Object) (r : Runtime) → IsValid r → IsValid (performed k o r).1
performed-IsValid k o r v = elim (Bool-cases (o.owner_session == 0)) [
  | inl token ↦ rw token (remove_files-IsValid o r v)
  | inr owned ↦ rw owned (fewer-IsValid (λ e. e.0 == k) r.disk r v)
]

-- `DestroyObject` keeps the registry well formed, whatever it is called on and whichever of the file
-- system's calls fail.
pub destroy_object-IsValid : (h k : ℕ) (r : Runtime) → IsValid r → IsValid (destroy_object h k r).1
destroy_object-IsValid h k r v =
    rw (destroy_object_lem h k r) (elim (Option-cases (lookup h r.sessions)) [
      | inl missing ↦ rw missing v
      | inr (s, found) ↦ elim (Option-cases (find_object h k r)) [
        | inl absent ↦ rw found (rw absent v)
        | inr (o, here) ↦ elim (Result-cases (may_destroy h o s r)) [
          | inl (u, may) ↦ rw found (rw here (rw may (performed-IsValid k o r v)))
          | inr (e, not_may) ↦ rw found (rw here (rw not_may v))
        ]
      ]
    ])

-- What the destruction of a token object leaves.
bytes_eq-path : (p : Bytes) → bytes_eq (path p) p ≡ false
unfolding path
bytes_eq-path p = bytes_eq-append p (codes ".meta") (λ e. cc)

find_object-lookup :
    (h k : ℕ) (r : Runtime) {o : Object} → find_object h k r ≡ some o → lookup k r.objects ≡ some o
unfolding find_object
find_object-lookup h k r found = ground arith

remove_files_removes :
    (k : ℕ) (o : Object) (r : Runtime)
    → Unique r.objects
    → lookup k r.objects ≡ some o
    → (remove_files o r).0 ≡ ok tt
    → (lookup k (remove_files o r).1.objects ≡ none)
      × (file o.path (remove_files o r).1.disk ≡ none)
      × (file (path o.path) (remove_files o r).1.disk ≡ none)
      × ((j : ℕ) (o' : Object)
          → lookup j r.objects ≡ some o'
          → bytes_eq o'.path o.path ≡ false
          → lookup j (remove_files o r).1.objects ≡ some o')
unfolding remove_files
remove_files_removes k o r u found done =
    let d = (remove o.path r.disk).1 in
    elim (Bool-cases (remove o.path r.disk).0) [
      | inl failed ↦ ground arith
      | inr removed ↦ elim (Bool-cases (remove (path o.path) d).0) [
        | inl failed ↦ ground arith
        | inr removed' ↦ rw removed (
          ground (arith, lookup-erase_if k (has_path o.path) r.objects u, bytes_eq_refl o.path),
          file-remove_ne (path o.path) o.path d (bytes_eq-path o.path)
              ∙ file-remove o.path r.disk removed,
          file-remove (path o.path) d removed',
          λ j o' there other. lookup-erase_if_kept j o' (has_path o.path) r.objects there other,
        )
      ]
    ]

-- The objects and files after a destruction.
abbrev Destroyed : ℕ → Object → Runtime → Runtime → Type 0
Destroyed k o r r' =
    (lookup k r'.objects ≡ none)
    × ((o.owner_session == 0) ≡ true
        → (file o.path r'.disk ≡ none) × (file (path o.path) r'.disk ≡ none))
    × ((j : ℕ) (o' : Object)
        → lookup j r.objects ≡ some o'
        → j ≢ k
        → ((o.owner_session == 0) ≡ false) ⊎ (bytes_eq o'.path o.path ≡ false)
        → lookup j r'.objects ≡ some o')

performed-Destroyed :
    (k : ℕ) (o : Object) (r : Runtime)
    → Unique r.objects
    → lookup k r.objects ≡ some o
    → (performed k o r).0 ≡ ok tt
    → Destroyed k o r (performed k o r).1
performed-Destroyed k o r u found done = elim (Bool-cases (o.owner_session == 0)) [
  | inl token ↦
      let gone = remove_files_removes k o r u found (rw token at done) in
      rw token
        (gone.0, λ t. (gone.1, gone.2), λ j o' there other which. gone.3 j o' there (ground arith))
  | inr owned ↦ rw owned (
    ground (arith, lookup-erase_if k (λ e. e.0 == k) r.objects u),
    λ t. ground arith,
    λ j o' there other which.
        lookup-erase_if_kept j o' (λ e. e.0 == k) r.objects there (ground arith),
  )
]

-- A successful `DestroyObject` in a well-formed registry was permitted: the user was logged in where
-- the slot asks for it, the object was destroyable, the session could write to the token where the
-- object is a token object, and no other object of its key file was protected against destruction.
-- The object's handle is then unknown; the key file and the metadata file of a token object are
-- gone. All other objects stay, but those of a destroyed token object's key file.
pub destroy_object_removes :
    (h k : ℕ) (r : Runtime) {s : Session} {o : Object}
    → IsValid r
    → lookup h r.sessions ≡ some s
    → find_object h k r ≡ some o
    → (destroy_object h k r).0 ≡ ok tt
    → (may_destroy h o s r ≡ ok tt) × Destroyed k o r (destroy_object h k r).1
destroy_object_removes h k r {s} {o} v found here done = elim (Result-cases (may_destroy h o s r)) [
  | inl (u, may) ↦
      let e : destroy_object h k r ≡ performed k o r =
        destroy_object_lem h k r ∙ rw found (rw here (rw may refl)) in
      rw e (
        may,
        performed-Destroyed k o r v.unique_objects (find_object-lookup h k r here) (rw e at done),
      )
  | inr (e, refused) ↦
      let e' : destroy_object h k r ≡ (err e, r) =
        destroy_object_lem h k r ∙ rw found (rw here (rw refused refl)) in
      ground (arith, ap (λ x. x.0) e', done)
]
