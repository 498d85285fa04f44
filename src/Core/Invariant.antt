-- ===== src/Core/Invariant.antt =====
-- The well-formedness of the registry that every handler relies on and keeps.
use pkcs11hsmsim.Base.{
  ℕ, ◌<◌, ◌≡◌, Bool, true, false, not, ◌&&◌, ◌||◌, Option, none, some, ◌==◌, any_of, Each,
}
use pkcs11hsmsim.Base.Dict.{Dict, lookup, contains}
use pkcs11hsmsim.Base.Dict.Unique.{Unique}
use pkcs11hsmsim.Ck.{cku_so, cku_user}
use pkcs11hsmsim.Core.State.{Slot, Object, Session, Runtime, in_slot, read_only_in_slot}

-- A session is stored under its handle, which has been given out, and its slot exists.
abbrev pub SessionOk : ℕ → Dict Slot → ℕ × Session → Type 0
SessionOk next slots (h, s) =
    (s.handle ≡ h) × (0 < h) × (h < next) × (contains s.slot_id slots ≡ true)

-- The session exists and belongs to the slot.
abbrev pub is_session_of : Dict Session → ℕ → ℕ → Bool
is_session_of sessions h slot_id = elim (lookup h sessions) [
  | none ↦ false
  | some s ↦ s.slot_id == slot_id
]

-- A session object has a live owner in its own slot.
abbrev pub ObjectOk : ℕ → Dict Slot → Dict Session → ℕ × Object → Type 0
ObjectOk next slots sessions (k, o) =
    (o.handle ≡ k)
    × (0 < k)
    × (k < next)
    × (contains o.slot_id slots ≡ true)
    × (o.owner_session == 0 || is_session_of sessions o.owner_session o.slot_id ≡ true)

-- Somebody is logged in only while the slot has a session, and the security officer only while
-- it has no read-only session.
abbrev pub login_ok : Dict Session → ℕ → Option ℕ → Bool
login_ok sessions id none = true
login_ok sessions id (some user) =
    (user == cku_so || user == cku_user)
    && any_of (in_slot id) sessions
    && (not (user == cku_so) || not (any_of (read_only_in_slot id) sessions))

abbrev pub SlotOk : Dict Session → ℕ × Slot → Type 0
SlotOk sessions (id, slot) = (slot.id ≡ id) × (login_ok sessions id slot.logged_in_user ≡ true)

pub record IsValid (r : Runtime) : Type 0 where
  pub first_handles : (0 < r.next_session_handle) × (0 < r.next_object_handle)
  pub unique_slots : Unique r.slots
  pub unique_objects : Unique r.objects
  pub unique_sessions : Unique r.sessions
  pub sessions_ok : Each (SessionOk r.next_session_handle r.slots) r.sessions
  pub objects_ok : Each (ObjectOk r.next_object_handle r.slots r.sessions) r.objects
  pub slots_ok : Each (SlotOk r.sessions) r.slots
