-- ===== src/Sessions/Closing.antt =====
-- CloseSession.
use pkcs11hsmsim.Base.{
  ℕ, ◌≡◌, ◌∙◌, refl, true, Option, none, some, arith, ◌==◌, any_of, any_of-erase_if-false, Each,
  erase_if, if◌then◌else◌, inl, inr, Bool-cases, Option-cases, ◌≢◌,
}
use pkcs11hsmsim.Base.Dict.{
  Dict, lookup, adjust, erase, lookup-erase, lookup-adjust, Each-lookup, Each-erase,
}
use pkcs11hsmsim.Base.Dict.Unique.{
  Unique, Unique-erase, Unique-erase_if, Unique-adjust, Each-found, Each-adjust_at, any_of-erase,
  lookup-erase_if,
}
use pkcs11hsmsim.Result.{ok, err, session_handle_invalid}
use pkcs11hsmsim.Core.State.{Slot, Session, Runtime, in_slot, read_only_in_slot}
use pkcs11hsmsim.Core.Invariant.{IsValid, SessionOk, ObjectOk, SlotOk, login_ok}
use pkcs11hsmsim.Core.Lookups.{session_slot-found}
use pkcs11hsmsim.Core.Keeping.{sessions_ok-adjust, objects_ok-adjust, objects_ok-erase_if}
use pkcs11hsmsim.Sessions.{close_session, owned_by, logged_out}

module _ (sessions : Dict Session) (h : ℕ) (s : Session) (u : Unique sessions)
    (found : lookup h sessions ≡ some s) where
  -- The logins of the other slots do not see that the session is gone.
  login_ok-erase_other :
      (id : ℕ) (user : Option ℕ)
      → id ≢ s.slot_id
      → login_ok sessions id user ≡ true
      → login_ok (erase h sessions) id user ≡ true
  login_ok-erase_other id none ne e = refl
  login_ok-erase_other id (some user) ne e = ground (
    arith,
    any_of-erase (in_slot id) h s sessions u found,
    any_of-erase (read_only_in_slot id) h s sessions u found,
  )

  -- The login of the session's slot stays well formed while another session is there.
  login_ok-erase :
      (user : Option ℕ)
      → any_of (in_slot s.slot_id) (erase h sessions) ≡ true
      → login_ok sessions s.slot_id user ≡ true
      → login_ok (erase h sessions) s.slot_id user ≡ true
  unfolding erase
  login_ok-erase none more e = refl
  login_ok-erase (some user) more e = ground (
    arith,
    any_of-erase_if-false (λ (x : ℕ × Session). x.0 == h) (read_only_in_slot s.slot_id) sessions,
  )

  slots_ok-erase :
      (slots : Dict Slot) {slot : Slot}
      → Unique slots
      → lookup s.slot_id slots ≡ some slot
      → any_of (in_slot s.slot_id) (erase h sessions) ≡ true
      → Each (SlotOk sessions) slots
      → Each (SlotOk (erase h sessions)) slots
  slots_ok-erase slots {slot} us there more each =
      let old = Each-lookup (SlotOk sessions) s.slot_id slot slots each there in
      Each-found (SlotOk sessions) (SlotOk (erase h sessions)) s.slot_id slot slots us there
        (λ j w ne k. (k.0, login_ok-erase_other j w.logged_in_user ne k.1))
        (old.0, login_ok-erase slot.logged_in_user more old.1) each

  slots_ok-erase_last :
      (slots : Dict Slot) {slot : Slot}
      → Unique slots
      → lookup s.slot_id slots ≡ some slot
      → Each (SlotOk sessions) slots
      → Each (SlotOk (erase h sessions)) (adjust s.slot_id logged_out slots)
  slots_ok-erase_last slots {slot} us there each =
      let old = Each-lookup (SlotOk sessions) s.slot_id slot slots each there in
      Each-adjust_at (SlotOk sessions) (SlotOk (erase h sessions)) s.slot_id slot logged_out slots
        us there (λ j w ne k. (k.0, login_ok-erase_other j w.logged_in_user ne k.1)) (old.0, refl)
        each

-- The state after the session and its objects are gone.
unfoldable pub without_session : ℕ → Runtime → Runtime
without_session h r = record r {
  sessions = erase h r.sessions;
  objects = erase_if (owned_by h) r.objects;
}

-- The state that a successful `CloseSession` leaves.
unfoldable pub closed : ℕ → ℕ → Runtime → Runtime
unfolding without_session
closed h slot_id r =
    let left = without_session h r in
    if any_of (in_slot slot_id) left.sessions
    then left
    else record left { slots = adjust slot_id logged_out left.slots }

module _ (h : ℕ) (r : Runtime) {s : Session} (v : IsValid r)
    (found : lookup h r.sessions ≡ some s) where
  objects_left :
      Each
        (ObjectOk r.next_object_handle r.slots (erase h r.sessions))
        (erase_if (owned_by h) r.objects)
  objects_left =
      objects_ok-erase_if (owned_by h) r.next_object_handle r.slots r.sessions (erase h r.sessions)
        r.objects
        (λ k o stays owned alive. ground (arith, lookup-erase o.owner_session h r.sessions))
        v.objects_ok

  closed-IsValid : IsValid (closed h s.slot_id r)
  unfolding closed without_session
  closed-IsValid =
      let (slot, there, _, _) = session_slot-found h r v found in
      let sessions = erase h r.sessions in
      let objects = erase_if (owned_by h) r.objects in
      let sessions_left : Each (SessionOk r.next_session_handle r.slots) sessions =
        Each-erase (SessionOk r.next_session_handle r.slots) h r.sessions v.sessions_ok in
      elim (Bool-cases (any_of (in_slot s.slot_id) sessions)) [
        | inl more ↦ rw more (record {
          first_handles = v.first_handles;
          unique_slots = v.unique_slots;
          unique_objects = Unique-erase_if (owned_by h) r.objects v.unique_objects;
          unique_sessions = Unique-erase h r.sessions v.unique_sessions;
          sessions_ok = sessions_left;
          objects_ok = objects_left;
          slots_ok =
              slots_ok-erase r.sessions h s v.unique_sessions found r.slots v.unique_slots there
                more v.slots_ok;
        })
        | inr last ↦ rw last (record {
          first_handles = v.first_handles;
          unique_slots = Unique-adjust s.slot_id logged_out r.slots v.unique_slots;
          unique_objects = Unique-erase_if (owned_by h) r.objects v.unique_objects;
          unique_sessions = Unique-erase h r.sessions v.unique_sessions;
          sessions_ok =
              sessions_ok-adjust s.slot_id logged_out r.slots r.next_session_handle sessions
                sessions_left;
          objects_ok =
              objects_ok-adjust s.slot_id logged_out r.slots r.next_object_handle sessions objects
                objects_left;
          slots_ok =
              slots_ok-erase_last r.sessions h s v.unique_sessions found r.slots v.unique_slots
                there v.slots_ok;
        })
      ]

  -- In a well-formed registry the slot is there, so `at` does not throw.
  close_session-found : close_session h r ≡ (ok tt, closed h s.slot_id r)
  unfolding close_session closed without_session
  close_session-found = let (slot, there, _, _) = session_slot-found h r v found in ground arith

-- In a well-formed registry, `CloseSession` refuses an unknown handle and changes nothing. A known
-- one is closed, and the slot's login ends with its last session.
pub close_session_lem :
    (h : ℕ) (r : Runtime)
    → IsValid r
    → close_session h r ≡ elim (lookup h r.sessions) [
      | none ↦ (err session_handle_invalid, r)
      | some s ↦ (ok tt, closed h s.slot_id r)
    ]
unfolding close_session
close_session_lem h r v = elim (Option-cases (lookup h r.sessions)) [
  | inl missing ↦ ground arith
  | inr (s, found) ↦ close_session-found h r v found ∙ rw found refl
]

pub close_session-IsValid : (h : ℕ) (r : Runtime) → IsValid r → IsValid (close_session h r).1
close_session-IsValid h r v = elim (Option-cases (lookup h r.sessions)) [
  | inl missing ↦ rw (close_session_lem h r v) (rw missing v)
  | inr (s, found) ↦ rw (close_session-found h r v found) (closed-IsValid h r v found)
]

-- Closing a known session of a well-formed registry removes that session and the objects that it
-- owns; every other session and object is found as before.
pub close_session_removes :
    (h : ℕ) (r : Runtime) {s : Session}
    → IsValid r
    → lookup h r.sessions ≡ some s
    → ((j : ℕ)
        → lookup j (close_session h r).1.sessions ≡ (if h == j then none else lookup j r.sessions))
      × ((k : ℕ)
          → lookup k (close_session h r).1.objects ≡ elim (lookup k r.objects) [
            | none ↦ none
            | some o ↦ if o.owner_session == h then none else some o
          ])
unfolding closed without_session
close_session_removes h r {s} v found = rw (close_session-found h r v found) (
  λ j. ground (arith, lookup-erase j h r.sessions),
  λ k. ground (arith, lookup-erase_if k (owned_by h) r.objects v.unique_objects),
)

-- The login of the closed session's slot ends exactly when no other session of the slot is left.
pub close_session_login :
    (h : ℕ) (r : Runtime) {s : Session} {slot : Slot}
    → IsValid r
    → lookup h r.sessions ≡ some s
    → lookup s.slot_id r.slots ≡ some slot
    → lookup s.slot_id (close_session h r).1.slots
      ≡ some (if any_of (in_slot s.slot_id) (erase h r.sessions) then slot else logged_out slot)
unfolding closed without_session
close_session_login h r {s} {slot} v found there =
    rw (close_session-found h r v found)
      (ground (arith, lookup-adjust s.slot_id s.slot_id logged_out r.slots))
