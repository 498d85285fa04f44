-- ===== src/Sessions/LoggingOut.antt =====
-- Logout.
use pkcs11hsmsim.Base.{
  ℕ, ◌≡◌, refl, true, false, Option, none, some, arith, any_of, any_of-erase_if_self, erase_if,
  if◌then◌else◌, inl, inr, Option-cases, is_some, [], ◌==◌,
}
use pkcs11hsmsim.Base.Dict.{
  Dict, lookup, adjust, update_all, lookup-adjust, lookup-update_all, Each-lookup, Each-update_all,
}
use pkcs11hsmsim.Base.Dict.Unique.{
  Unique-adjust, Unique-update_all, Unique-erase_if, Each-adjust_at, lookup-erase_if,
}
use pkcs11hsmsim.Base.Dict.Scans.{any_of-update_all}
use pkcs11hsmsim.Result.{ok, err, user_not_logged_in, session_handle_invalid}
use pkcs11hsmsim.Core.State.{Slot, Session, Runtime, in_slot, read_only_in_slot, no_operation}
use pkcs11hsmsim.Core.{require_user_login, requires_login}
use pkcs11hsmsim.Core.Invariant.{IsValid, SessionOk, SlotOk, login_ok, is_session_of}
use pkcs11hsmsim.Core.Keeping.{sessions_ok-adjust, objects_ok-adjust, objects_ok-erase_if}
use pkcs11hsmsim.Core.Lookups.{session_slot-found}
use pkcs11hsmsim.Sessions.{logout, abandon, logged_out, protected_session_object_in}

module _ (sessions : Dict Session) (slot_id : ℕ) where
  login_ok-abandon :
      (id : ℕ) (user : Option ℕ)
      → login_ok sessions id user ≡ true
      → login_ok (update_all (abandon slot_id) sessions) id user ≡ true
  login_ok-abandon id none e = refl
  login_ok-abandon id (some user) e = ground (
    arith,
    any_of-update_all (in_slot id) (abandon slot_id) sessions (λ k s. ground arith),
    any_of-update_all (read_only_in_slot id) (abandon slot_id) sessions (λ k s. ground arith),
  )

  is_session_of-abandon :
      (h id : ℕ)
      → is_session_of sessions h id ≡ true
      → is_session_of (update_all (abandon slot_id) sessions) h id ≡ true
  is_session_of-abandon h id e = ground (arith, lookup-update_all h (abandon slot_id) sessions)

-- The state that a successful `Logout` leaves.
unfoldable pub left_by_logout : ℕ → Runtime → Runtime
left_by_logout slot_id r = record r {
  slots = adjust slot_id logged_out r.slots;
  sessions = update_all (abandon slot_id) r.sessions;
  objects = erase_if (protected_session_object_in slot_id) r.objects;
}

module _ (h : ℕ) (r : Runtime) {s : Session} {slot : Slot} (v : IsValid r)
    (found : lookup h r.sessions ≡ some s) (there : lookup s.slot_id r.slots ≡ some slot) where
  left_by_logout-IsValid : IsValid (left_by_logout s.slot_id r)
  unfolding left_by_logout
  left_by_logout-IsValid =
      let id = s.slot_id in
      let sessions = update_all (abandon id) r.sessions in
      let objects = erase_if (protected_session_object_in id) r.objects in
      let old = Each-lookup (SlotOk r.sessions) id slot r.slots v.slots_ok there in
      record {
        first_handles = v.first_handles;
        unique_slots = Unique-adjust id logged_out r.slots v.unique_slots;
        unique_objects =
            Unique-erase_if (protected_session_object_in id) r.objects v.unique_objects;
        unique_sessions = Unique-update_all (abandon id) r.sessions v.unique_sessions;
        sessions_ok = sessions_ok-adjust id logged_out r.slots r.next_session_handle sessions (
            Each-update_all (SessionOk r.next_session_handle r.slots) (abandon id) r.sessions
              (λ k x old. ground arith) v.sessions_ok);
        objects_ok = objects_ok-adjust id logged_out r.slots r.next_object_handle sessions objects (
            objects_ok-erase_if (protected_session_object_in id) r.next_object_handle r.slots
              r.sessions sessions r.objects
              (λ k o stays owned alive.
                is_session_of-abandon r.sessions id o.owner_session o.slot_id alive)
              v.objects_ok);
        slots_ok =
            Each-adjust_at (SlotOk r.sessions) (SlotOk sessions) id slot logged_out r.slots
              v.unique_slots there
              (λ j w ne k. (k.0, login_ok-abandon r.sessions id j w.logged_in_user k.1))
              (old.0, refl) v.slots_ok;
      }

  pub logout-there : logout h r ≡ (
      if is_some slot.logged_in_user
      then (ok tt, left_by_logout s.slot_id r)
      else (err user_not_logged_in, r))
  unfolding logout left_by_logout
  logout-there =
      let (slot', there', here, e) = session_slot-found h r v found in rw (found, e) (ground arith)

pub logout_unknown :
    (h : ℕ) (r : Runtime)
    → lookup h r.sessions ≡ none
    → logout h r ≡ (err session_handle_invalid, r)
unfolding logout
logout_unknown h r missing = ground arith

pub logout-IsValid : (h : ℕ) (r : Runtime) → IsValid r → IsValid (logout h r).1
logout-IsValid h r v = elim (Option-cases (lookup h r.sessions)) [
  | inl missing ↦ rw (logout_unknown h r missing) v
  | inr (s, found) ↦
      let (slot, there, here, e) = session_slot-found h r v found in
      rw (logout-there h r v found there) (ground (arith, left_by_logout-IsValid h r v found there))
]

module _ (h : ℕ) (r : Runtime) {s : Session} {slot : Slot} (v : IsValid r)
    (found : lookup h r.sessions ≡ some s) (there : lookup s.slot_id r.slots ≡ some slot)
    (inside : is_some slot.logged_in_user ≡ true) where
  -- A logout from a well-formed registry in which somebody is logged in succeeds. It leaves no
  -- protected session object in the slot and nobody logged in; every session of the slot stays,
  -- without operation and without search. The other slots with their logins, their sessions and all
  -- other objects are found as before, no object comes in, and nothing else of the registry changes.
  pub logout_abandons :
      ((logout h r).0 ≡ ok tt)
      × (any_of (protected_session_object_in s.slot_id) (logout h r).1.objects ≡ false)
      × ((id : ℕ)
          → lookup id (logout h r).1.slots ≡ (
              if s.slot_id == id
              then some (record slot { logged_in_user = none })
              else lookup id r.slots))
      × ((j : ℕ)
          → lookup j (logout h r).1.sessions ≡ elim (lookup j r.sessions) [
            | none ↦ none
            | some t ↦
                if t.slot_id == s.slot_id
                then some
                    (record t { operation = no_operation; search_active = false; matches = [] })
                else some t
          ])
      × ((k : ℕ)
          → lookup k (logout h r).1.objects ≡ elim (lookup k r.objects) [
            | none ↦ none
            | some o ↦ if protected_session_object_in s.slot_id (k, o) then none else some o
          ])
      × ((logout h r).1 ≡ record r {
        slots = (logout h r).1.slots;
        sessions = (logout h r).1.sessions;
        objects = (logout h r).1.objects;
      })
  unfolding left_by_logout
  logout_abandons = rw (logout-there h r v found there) (
      rw inside (
        refl,
        any_of-erase_if_self (protected_session_object_in s.slot_id) r.objects,
        λ id. ground (arith, there, lookup-adjust id s.slot_id logged_out r.slots),
        λ j. ground (arith, lookup-update_all j (abandon s.slot_id) r.sessions),
        λ k. lookup-erase_if k (protected_session_object_in s.slot_id) r.objects v.unique_objects,
        refl,
      ))

  -- After that logout, a slot with a PIN or of the multi-slot layout denies user access to each of
  -- its sessions.
  pub logout_locks :
      (j : ℕ) (t : Session)
      → requires_login slot ≡ true
      → lookup j r.sessions ≡ some t
      → t.slot_id ≡ s.slot_id
      → require_user_login j (logout h r).1 ≡ err user_not_logged_in
  unfolding left_by_logout require_user_login requires_login
  logout_locks j t locked live same = rw (logout-there h r v found there) (
      rw inside (
        ground (
          arith,
          lookup-update_all j (abandon s.slot_id) r.sessions,
          lookup-adjust t.slot_id s.slot_id logged_out r.slots,
        )))
