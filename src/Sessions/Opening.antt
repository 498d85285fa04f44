-- ===== src/Sessions/Opening.antt =====
-- OpenSession.
use pkcs11hsmsim.Base.{
  ℕ, ◌+◌, ◌≡◌, ◌<◌, refl, Bool, true, false, not, ◌&&◌, ◌||◌, Option, none, some, arith, Each,
  Each-map, holds, inl, inr, Bool-cases, Option-cases,
}
use pkcs11hsmsim.Base.Dict.{Dict, lookup, emplace, Each-emplace, Each-lookup}
use pkcs11hsmsim.Base.Dict.Unique.{Unique, Unique-emplace, Each-found}
use pkcs11hsmsim.Base.Dict.Scans.{any_of-emplace-true, any_of-emplace-false, lookup-emplace_kept}
use pkcs11hsmsim.Ck.{ulong_mod, is_rw, is_serial, cku_so}
use pkcs11hsmsim.Result.{Refused, Refused-state, ok}
use pkcs11hsmsim.Core.State.{Slot, Session, Runtime, in_slot, read_only_in_slot, no_session}
use pkcs11hsmsim.Core.Invariant.{IsValid, SessionOk, ObjectOk, SlotOk, login_ok, is_session_of}
use pkcs11hsmsim.Sessions.{open_session}

module _ (sessions : Dict Session) (h : ℕ) (s : Session) where
  -- A session that is added keeps the owners of objects alive.
  is_session_of-emplace :
      (k slot_id : ℕ)
      → is_session_of sessions k slot_id ≡ true
      → is_session_of (emplace h s sessions) k slot_id ≡ true
  is_session_of-emplace k slot_id e = elim (Option-cases (lookup k sessions)) [
    | inl missing ↦ ground arith
    | inr (w, found) ↦ ground (arith, lookup-emplace_kept k h s w sessions found)
  ]

  -- A login stays well formed, unless a read-only session joins the security officer.
  login_ok-emplace :
      (id : ℕ) (user : Option ℕ)
      → read_only_in_slot id (h, s) && holds user cku_so ≡ false
      → login_ok sessions id user ≡ true
      → login_ok (emplace h s sessions) id user ≡ true
  login_ok-emplace id none apart e = refl
  login_ok-emplace id (some user) apart e = ground (
    arith,
    any_of-emplace-true (in_slot id) h s sessions,
    any_of-emplace-false (read_only_in_slot id) h s sessions,
  )

  slots_ok-emplace :
      (slots : Dict Slot) {slot : Slot}
      → Unique slots
      → lookup s.slot_id slots ≡ some slot
      → not (is_rw s.flags) && holds slot.logged_in_user cku_so ≡ false
      → Each (SlotOk sessions) slots
      → Each (SlotOk (emplace h s sessions)) slots
  slots_ok-emplace slots {slot} u found apart each =
      Each-found (SlotOk sessions) (SlotOk (emplace h s sessions)) s.slot_id slot slots u found
        (λ j w ne old. (old.0, login_ok-emplace j w.logged_in_user (ground arith) old.1))
        (let old = Each-lookup (SlotOk sessions) s.slot_id slot slots each found in
          (old.0, login_ok-emplace s.slot_id slot.logged_in_user (ground arith) old.1))
        each

-- The state that a successful `OpenSession` leaves.
unfoldable pub opened : ℕ → ℕ → Runtime → Runtime
opened slot_id flags r =
    let h = r.next_session_handle in
    record r {
      next_session_handle = h + 1;
      sessions =
          emplace h (record no_session { handle = h; slot_id = slot_id; flags = flags }) r.sessions;
    }

opened-IsValid :
    (slot_id flags : ℕ) (r : Runtime) {slot : Slot}
    → IsValid r
    → lookup slot_id r.slots ≡ some slot
    → not (is_rw flags) && holds slot.logged_in_user cku_so ≡ false
    → IsValid (opened slot_id flags r)
unfolding opened
opened-IsValid slot_id flags r {slot} v found apart =
    let h = r.next_session_handle in
    let s : Session = record no_session { handle = h; slot_id = slot_id; flags = flags } in
    record {
      first_handles = (omega arith, v.first_handles.1);
      unique_slots = v.unique_slots;
      unique_objects = v.unique_objects;
      unique_sessions = Unique-emplace h s r.sessions v.unique_sessions;
      sessions_ok =
          Each-emplace (SessionOk (h + 1) r.slots) h s r.sessions
            (refl, v.first_handles.0, omega arith, rw found)
            (Each-map (SessionOk h r.slots) (SessionOk (h + 1) r.slots) r.sessions
              (λ e k. (k.0, k.1, omega arith, k.3)) v.sessions_ok);
      objects_ok =
          Each-map (ObjectOk r.next_object_handle r.slots r.sessions)
            (ObjectOk r.next_object_handle r.slots (emplace h s r.sessions)) r.objects
            (λ e k.
              ground (arith, is_session_of-emplace r.sessions h s e.1.owner_session e.1.slot_id))
            v.objects_ok;
      slots_ok = slots_ok-emplace r.sessions h s r.slots v.unique_slots found apart v.slots_ok;
    }

-- A session may be opened: the slot exists, the handle can be returned, the session is serial, and
-- it is read-write if the security officer is logged in.
unfoldable pub may_open : ℕ → ℕ → Bool → Runtime → Bool
may_open slot_id flags has_out r = elim (lookup slot_id r.slots) [
  | none ↦ false
  | some slot ↦
      has_out && is_serial flags && (is_rw flags || not (holds slot.logged_in_user cku_so))
]

-- While session handles do not wrap, `OpenSession` succeeds exactly when the session may be opened;
-- it then returns the next handle and adds that session, and otherwise changes nothing.
pub open_session_lem :
    (slot_id flags : ℕ) (has_out : Bool) (r : Runtime)
    → r.next_session_handle + 1 < ulong_mod
    → (may_open slot_id flags has_out r ≡ true
        → open_session slot_id flags has_out r ≡ (ok r.next_session_handle, opened slot_id flags r))
      × (may_open slot_id flags has_out r ≡ false
          → Refused (open_session slot_id flags has_out r) r)
unfolding open_session opened may_open
open_session_lem slot_id flags has_out r bound = (λ h. ground arith, λ h. ground arith)

may_open-found :
    (slot_id flags : ℕ) (has_out : Bool) (r : Runtime)
    → may_open slot_id flags has_out r ≡ true
    → (slot : Slot) × (lookup slot_id r.slots ≡ some slot)
      × (not (is_rw flags) && holds slot.logged_in_user cku_so ≡ false)
unfolding may_open
may_open-found slot_id flags has_out r h = elim (Option-cases (lookup slot_id r.slots)) [
  | inl missing ↦ ground arith
  | inr (slot, found) ↦ (slot, found, ground arith)
]

-- `OpenSession` keeps the registry well formed while session handles do not wrap.
pub open_session-IsValid :
    (slot_id flags : ℕ) (has_out : Bool) (r : Runtime)
    → IsValid r
    → r.next_session_handle + 1 < ulong_mod
    → IsValid (open_session slot_id flags has_out r).1
open_session-IsValid slot_id flags has_out r v bound =
    let opens = open_session_lem slot_id flags has_out r bound in
    elim (Bool-cases (may_open slot_id flags has_out r)) [
      | inl yes_open ↦
          let (slot, found, apart) = may_open-found slot_id flags has_out r yes_open in
          rw (opens.0 yes_open) (opened-IsValid slot_id flags r v found apart)
      | inr not_open ↦
          rw (Refused-state (open_session slot_id flags has_out r) r (opens.1 not_open)) v
    ]
