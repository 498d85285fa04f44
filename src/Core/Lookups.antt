-- ===== src/Core/Lookups.antt =====
-- Lookups in a well-formed registry: the slot of a session is there, so `at` never throws, and an
-- object is found only through a session of its own slot.
use pkcs11hsmsim.Base.{ℕ, ◌≡◌, refl, some, inl, inr, arith, Option-cases}
use pkcs11hsmsim.Base.Dict.{lookup, Each-lookup}
use pkcs11hsmsim.Result.{ok}
use pkcs11hsmsim.Core.State.{Slot, Session, Runtime}
use pkcs11hsmsim.Core.Invariant.{IsValid, SessionOk, SlotOk}
use pkcs11hsmsim.Core.{session_slot}

-- In a well-formed registry `sessionSlot` of a live session finds the slot under its own id.
pub session_slot-found :
    (h : ℕ) (r : Runtime) {s : Session}
    → IsValid r
    → lookup h r.sessions ≡ some s
    → (slot : Slot) × (lookup s.slot_id r.slots ≡ some slot)
      × (slot.id ≡ s.slot_id)
      × (session_slot h r ≡ ok slot)
unfolding session_slot
session_slot-found h r {s} v found =
    let k =
      Each-lookup (SessionOk r.next_session_handle r.slots) h s r.sessions v.sessions_ok found in
    elim (Option-cases (lookup s.slot_id r.slots)) [
      | inl missing ↦ ground arith
      | inr (slot, there) ↦
          let here = Each-lookup (SlotOk r.sessions) s.slot_id slot r.slots v.slots_ok there in
          (slot, there, here.0, rw (found, session_slot) (rw there refl))
    ]
