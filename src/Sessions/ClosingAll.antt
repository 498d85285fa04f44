-- ===== src/Sessions/ClosingAll.antt =====
-- CloseAllSessions.
use pkcs11hsmsim.Base.{
  ℕ, ◌≡◌, refl, true, false, Option, none, some, arith, ◌==◌, any_of, any_of-erase_if,
  any_of-erase_if_self, Each-erase_if, erase_if, inl, inr, Option-cases, ◌≢◌, not, ◌&&◌,
  if◌then◌else◌,
}
use pkcs11hsmsim.Base.Dict.{Dict, lookup, adjust, lookup-adjust, Each-lookup, lookup-erase_if_kept}
use pkcs11hsmsim.Base.Dict.Unique.{lookup-erase_if, Unique-erase_if, Unique-adjust, Each-adjust_at}
use pkcs11hsmsim.Result.{ok, err, slot_id_invalid}
use pkcs11hsmsim.Core.State.{Slot, Session, Runtime, in_slot, read_only_in_slot}
use pkcs11hsmsim.Core.Invariant.{IsValid, SessionOk, SlotOk, login_ok, is_session_of}
use pkcs11hsmsim.Core.Keeping.{sessions_ok-adjust, objects_ok-adjust, objects_ok-erase_if}
use pkcs11hsmsim.Sessions.{close_all_sessions, session_object_in, logged_out}

module _ (sessions : Dict Session) (slot_id : ℕ) where
  login_ok-erase_slot :
      (id : ℕ) (user : Option ℕ)
      → id ≢ slot_id
      → login_ok sessions id user ≡ true
      → login_ok (erase_if (in_slot slot_id) sessions) id user ≡ true
  login_ok-erase_slot id none ne e = refl
  login_ok-erase_slot id (some user) ne e = ground (
    arith,
    any_of-erase_if (in_slot slot_id) (in_slot id) sessions (λ x q. ground arith),
    any_of-erase_if (in_slot slot_id) (read_only_in_slot id) sessions (λ x q. ground arith),
  )

  is_session_of-erase_slot :
      (h id : ℕ)
      → (id == slot_id) ≡ false
      → is_session_of sessions h id ≡ true
      → is_session_of (erase_if (in_slot slot_id) sessions) h id ≡ true
  is_session_of-erase_slot h id ne e = elim (Option-cases (lookup h sessions)) [
    | inl missing ↦ ground arith
    | inr (s, found) ↦ ground (arith, lookup-erase_if_kept h s (in_slot slot_id) sessions found)
  ]

-- The state that a successful `CloseAllSessions` leaves.
unfoldable pub all_closed : ℕ → Runtime → Runtime
all_closed slot_id r = record r {
  sessions = erase_if (in_slot slot_id) r.sessions;
  objects = erase_if (session_object_in slot_id) r.objects;
  slots = adjust slot_id logged_out r.slots;
}

all_closed-IsValid :
    (slot_id : ℕ) (r : Runtime) {slot : Slot}
    → IsValid r
    → lookup slot_id r.slots ≡ some slot
    → IsValid (all_closed slot_id r)
unfolding all_closed
all_closed-IsValid slot_id r {slot} v there =
    let sessions = erase_if (in_slot slot_id) r.sessions in
    let objects = erase_if (session_object_in slot_id) r.objects in
    let old = Each-lookup (SlotOk r.sessions) slot_id slot r.slots v.slots_ok there in
    record {
      first_handles = v.first_handles;
      unique_slots = Unique-adjust slot_id logged_out r.slots v.unique_slots;
      unique_objects = Unique-erase_if (session_object_in slot_id) r.objects v.unique_objects;
      unique_sessions = Unique-erase_if (in_slot slot_id) r.sessions v.unique_sessions;
      sessions_ok = sessions_ok-adjust slot_id logged_out r.slots r.next_session_handle sessions (
          Each-erase_if (SessionOk r.next_session_handle r.slots) (in_slot slot_id) r.sessions
            v.sessions_ok);
      objects_ok =
          objects_ok-adjust slot_id logged_out r.slots r.next_object_handle sessions objects (
            objects_ok-erase_if (session_object_in slot_id) r.next_object_handle r.slots r.sessions
              sessions r.objects
              (λ k o stays owned alive.
                is_session_of-erase_slot r.sessions slot_id o.owner_session o.slot_id (ground arith)
                  alive)
              v.objects_ok);
      slots_ok =
          Each-adjust_at (SlotOk r.sessions) (SlotOk sessions) slot_id slot logged_out r.slots
            v.unique_slots there
            (λ j w ne k. (k.0, login_ok-erase_slot r.sessions slot_id j w.logged_in_user ne k.1))
            (old.0, refl) v.slots_ok;
    }

pub close_all_sessions_lem :
    (slot_id : ℕ) (r : Runtime)
    → close_all_sessions slot_id r ≡ elim (lookup slot_id r.slots) [
      | none ↦ (err slot_id_invalid, r)
      | some slot ↦ (ok tt, all_closed slot_id r)
    ]
unfolding close_all_sessions all_closed
close_all_sessions_lem slot_id r = ground arith

pub close_all_sessions-IsValid :
    (slot_id : ℕ) (r : Runtime) → IsValid r → IsValid (close_all_sessions slot_id r).1
close_all_sessions-IsValid slot_id r v = elim (Option-cases (lookup slot_id r.slots)) [
  | inl missing ↦ rw (close_all_sessions_lem slot_id r) (rw missing v)
  | inr (slot, there) ↦
      rw (close_all_sessions_lem slot_id r) (rw there (all_closed-IsValid slot_id r v there))
]

-- Closing all sessions of a known slot of a well-formed registry leaves no session of the slot, no
-- session object in it and nobody logged in. The other slots with their logins, the sessions and objects
-- of other slots, and token objects, are found as before, no session or object comes in, and nothing else
-- of the registry changes.
pub close_all_sessions_empties :
    (slot_id : ℕ) (r : Runtime) {slot : Slot}
    → IsValid r
    → lookup slot_id r.slots ≡ some slot
    → (any_of (in_slot slot_id) (close_all_sessions slot_id r).1.sessions ≡ false)
      × (any_of (session_object_in slot_id) (close_all_sessions slot_id r).1.objects ≡ false)
      × ((id : ℕ)
          → lookup id (close_all_sessions slot_id r).1.slots ≡ (
              if slot_id == id
              then some (record slot { logged_in_user = none })
              else lookup id r.slots))
      × ((h : ℕ)
          → lookup h (close_all_sessions slot_id r).1.sessions ≡ elim (lookup h r.sessions) [
            | none ↦ none
            | some s ↦ if s.slot_id == slot_id then none else some s
          ])
      × ((k : ℕ)
          → lookup k (close_all_sessions slot_id r).1.objects ≡ elim (lookup k r.objects) [
            | none ↦ none
            | some o ↦ if o.slot_id == slot_id && not (o.owner_session == 0) then none else some o
          ])
      × ((close_all_sessions slot_id r).1 ≡ record r {
        slots = (close_all_sessions slot_id r).1.slots;
        sessions = (close_all_sessions slot_id r).1.sessions;
        objects = (close_all_sessions slot_id r).1.objects;
      })
unfolding all_closed
close_all_sessions_empties slot_id r {slot} v there = rw (close_all_sessions_lem slot_id r) (
    rw there (
      any_of-erase_if_self (in_slot slot_id) r.sessions,
      any_of-erase_if_self (session_object_in slot_id) r.objects,
      λ id. ground (arith, there, lookup-adjust id slot_id logged_out r.slots),
      λ h. lookup-erase_if h (in_slot slot_id) r.sessions v.unique_sessions,
      λ k. lookup-erase_if k (session_object_in slot_id) r.objects v.unique_objects,
      refl,
    ))
