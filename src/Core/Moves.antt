-- ===== src/Core/Moves.antt =====
-- Changes behind one pointer that keep the registry well formed: of a session, of an object, and of
-- the files.
use pkcs11hsmsim.Base.{
  ℕ, ◌≡◌, ◌∙◌, refl, Option, none, some, arith, Each-map, inl, inr, Option-cases,
}
use pkcs11hsmsim.Base.Dict.{Dict, lookup, adjust, lookup-adjust, Each-adjust, Each-lookup}
use pkcs11hsmsim.Base.Dict.Scans.{any_of-adjust}
use pkcs11hsmsim.Base.Dict.Unique.{Unique-adjust, Each-adjust_at}
use pkcs11hsmsim.Disk.{Disk}
use pkcs11hsmsim.Core.State.{Object, Session, Runtime, in_slot, read_only_in_slot}
use pkcs11hsmsim.Core.Invariant.{IsValid, SessionOk, ObjectOk, SlotOk, login_ok, is_session_of}

-- The files are not part of the invariant.
pub moved-IsValid : (d : Disk) (r : Runtime) → IsValid r → IsValid (record r { disk = d })
moved-IsValid d r v = record {
  first_handles = v.first_handles;
  unique_slots = v.unique_slots;
  unique_objects = v.unique_objects;
  unique_sessions = v.unique_sessions;
  sessions_ok = v.sessions_ok;
  objects_ok = v.objects_ok;
  slots_ok = v.slots_ok;
}

-- A change of a session that leaves its handle, its slot and its flags.
module _ (h : ℕ) (f : Session → Session)
    (still : (s : Session)
      → ((f s).handle ≡ s.handle) × ((f s).slot_id ≡ s.slot_id) × ((f s).flags ≡ s.flags)) where
  is_session_of-adjust :
      (sessions : Dict Session) (j id : ℕ)
      → is_session_of (adjust h f sessions) j id ≡ is_session_of sessions j id
  is_session_of-adjust sessions j id = elim (Option-cases (lookup j sessions)) [
    | inl missing ↦ ground (arith, missing, lookup-adjust j h f sessions)
    | inr (s, found) ↦ ground (arith, found, lookup-adjust j h f sessions, still s)
  ]

  login_ok-adjust :
      (sessions : Dict Session) (id : ℕ) (user : Option ℕ)
      → login_ok (adjust h f sessions) id user ≡ login_ok sessions id user
  login_ok-adjust sessions id none = refl
  login_ok-adjust sessions id (some user) = ground (
    arith,
    any_of-adjust (in_slot id) h f sessions (λ j s. ground (arith, still s)),
    any_of-adjust (read_only_in_slot id) h f sessions (λ j s. ground (arith, still s)),
  )

  pub retouched-IsValid :
      (r : Runtime) → IsValid r → IsValid (record r { sessions = adjust h f r.sessions })
  retouched-IsValid r v =
      let sessions = adjust h f r.sessions in
      record {
        first_handles = v.first_handles;
        unique_slots = v.unique_slots;
        unique_objects = v.unique_objects;
        unique_sessions = Unique-adjust h f r.sessions v.unique_sessions;
        sessions_ok =
            Each-adjust (SessionOk r.next_session_handle r.slots) h f r.sessions
              (λ s old. rw ((still s).0, (still s).1) old) v.sessions_ok;
        objects_ok =
            Each-map (ObjectOk r.next_object_handle r.slots r.sessions)
              (ObjectOk r.next_object_handle r.slots sessions) r.objects
              (λ e old. (
                old.0,
                old.1,
                old.2,
                old.3,
                ground
                    (arith, old.4, is_session_of-adjust r.sessions e.1.owner_session e.1.slot_id),
              ))
              v.objects_ok;
        slots_ok =
            Each-map (SlotOk r.sessions) (SlotOk sessions) r.slots
              (λ e old. (old.0, login_ok-adjust r.sessions e.0 e.1.logged_in_user ∙ old.1))
              v.slots_ok;
      }

-- An object takes the place of another with the same handle, slot and owner.
pub replaced-IsValid :
    (k : ℕ) (o o' : Object) (r : Runtime)
    → lookup k r.objects ≡ some o
    → o'.handle ≡ o.handle
    → o'.slot_id ≡ o.slot_id
    → o'.owner_session ≡ o.owner_session
    → IsValid r
    → IsValid (record r { objects = adjust k (λ _. o') r.objects })
replaced-IsValid k o o' r found handle slot_id owner v =
    let P = ObjectOk r.next_object_handle r.slots r.sessions in
    let old = Each-lookup P k o r.objects v.objects_ok found in
    record {
      first_handles = v.first_handles;
      unique_slots = v.unique_slots;
      unique_objects = Unique-adjust k (λ _. o') r.objects v.unique_objects;
      unique_sessions = v.unique_sessions;
      sessions_ok = v.sessions_ok;
      objects_ok =
          Each-adjust_at P P k o (λ _. o') r.objects v.unique_objects found (λ j w ne p. p)
            (handle ∙ old.0, old.1, old.2, rw slot_id old.3, rw (owner, slot_id) old.4)
            v.objects_ok;
      slots_ok = v.slots_ok;
    }
