-- ===== src/Core/Keeping.antt =====
-- The parts of the invariant that survive a change of one slot, or a loss of sessions and objects.
use pkcs11hsmsim.Base.{
  ℕ, ◌≡◌, ◌∙◌, Bool, true, false, arith, ◌==◌, Each, Each-map, Each-erase_if_map, erase_if,
}
use pkcs11hsmsim.Base.Dict.{Dict, adjust}
use pkcs11hsmsim.Base.Dict.Unique.{contains-adjust}
use pkcs11hsmsim.Core.State.{Slot, Object, Session}
use pkcs11hsmsim.Core.Invariant.{SessionOk, ObjectOk, is_session_of}

module _ (k : ℕ) (f : Slot → Slot) (slots : Dict Slot) where
  pub sessions_ok-adjust :
      (next : ℕ) (sessions : Dict Session)
      → Each (SessionOk next slots) sessions
      → Each (SessionOk next (adjust k f slots)) sessions
  sessions_ok-adjust next sessions =
      Each-map (SessionOk next slots) (SessionOk next (adjust k f slots)) sessions
        λ e h. (h.0, h.1, h.2, contains-adjust e.1.slot_id k f slots ∙ h.3)

  pub objects_ok-adjust :
      (next : ℕ) (sessions : Dict Session) (objects : Dict Object)
      → Each (ObjectOk next slots sessions) objects
      → Each (ObjectOk next (adjust k f slots) sessions) objects
  objects_ok-adjust next sessions objects =
      Each-map (ObjectOk next slots sessions) (ObjectOk next (adjust k f slots) sessions) objects
        λ e h. (h.0, h.1, h.2, contains-adjust e.1.slot_id k f slots ∙ h.3, h.4)

-- Objects stay well formed if those that stay keep their owners.
pub objects_ok-erase_if :
    (p : ℕ × Object → Bool) (next : ℕ) (slots : Dict Slot) (sessions sessions' : Dict Session)
    (objects : Dict Object)
    → ((k : ℕ) (o : Object)
        → p (k, o) ≡ false
        → (o.owner_session == 0) ≡ false
        → is_session_of sessions o.owner_session o.slot_id ≡ true
        → is_session_of sessions' o.owner_session o.slot_id ≡ true)
    → Each (ObjectOk next slots sessions) objects
    → Each (ObjectOk next slots sessions') (erase_if p objects)
objects_ok-erase_if p next slots sessions sessions' objects keep =
    Each-erase_if_map (ObjectOk next slots sessions) (ObjectOk next slots sessions') p objects
      λ e stays h. (h.0, h.1, h.2, h.3, ground (arith, keep e.0 e.1 stays))
