-- ===== src/Core/Placing.antt =====
-- Changes that add an object: the counter of handles moves on, and an object is stored under a handle
-- that has been given out.
use pkcs11hsmsim.Base.{
  ℕ, ◌≤◌, ◌<◌, ◌≡◌, Bool, true, ◌||◌, none, some, arith, Each-map, ◌==◌, erase_if, inl, inr,
  Option-cases,
}
use pkcs11hsmsim.Base.Dict.{lookup, emplace, Each-emplace, Each-lookup, adjust}
use pkcs11hsmsim.Base.Dict.Unique.{Unique-emplace, Unique-erase_if, Unique-adjust, Each-adjust_at}
use pkcs11hsmsim.Core.State.{Slot, Object, Session, Runtime}
use pkcs11hsmsim.Core.{session_slot}
use pkcs11hsmsim.Result.{ok}
use pkcs11hsmsim.Core.Invariant.{IsValid, SessionOk, ObjectOk, SlotOk}
use pkcs11hsmsim.Core.Keeping.{objects_ok-erase_if}

pub moved_on-IsValid :
    (n : ℕ) (r : Runtime)
    → r.next_object_handle ≤ n
    → IsValid r
    → IsValid (record r { next_object_handle = n })
moved_on-IsValid n r more v = record {
  first_handles = (v.first_handles.0, omega (arith, v.first_handles.1));
  unique_slots = v.unique_slots;
  unique_objects = v.unique_objects;
  unique_sessions = v.unique_sessions;
  sessions_ok = v.sessions_ok;
  objects_ok =
      Each-map (ObjectOk r.next_object_handle r.slots r.sessions) (ObjectOk n r.slots r.sessions)
        r.objects (λ e old. (old.0, old.1, omega (arith, old.2), old.3, old.4)) v.objects_ok;
  slots_ok = v.slots_ok;
}

pub placed-IsValid :
    (k : ℕ) (o : Object) (r : Runtime)
    → ObjectOk r.next_object_handle r.slots r.sessions (k, o)
    → IsValid r
    → IsValid (record r { objects = emplace k o r.objects })
placed-IsValid k o r good v = record {
  first_handles = v.first_handles;
  unique_slots = v.unique_slots;
  unique_objects = Unique-emplace k o r.objects v.unique_objects;
  unique_sessions = v.unique_sessions;
  sessions_ok = v.sessions_ok;
  objects_ok =
      Each-emplace (ObjectOk r.next_object_handle r.slots r.sessions) k o r.objects good
        v.objects_ok;
  slots_ok = v.slots_ok;
}

pub dropped-IsValid :
    (p : ℕ × Object → Bool) (r : Runtime)
    → IsValid r
    → IsValid (record r { objects = erase_if p r.objects })
dropped-IsValid p r v = record {
  first_handles = v.first_handles;
  unique_slots = v.unique_slots;
  unique_objects = Unique-erase_if p r.objects v.unique_objects;
  unique_sessions = v.unique_sessions;
  sessions_ok = v.sessions_ok;
  objects_ok =
      objects_ok-erase_if p r.next_object_handle r.slots r.sessions r.sessions r.objects
        (λ k o stays owned there. there) v.objects_ok;
  slots_ok = v.slots_ok;
}

-- No object has the next handle.
pub next-free : (r : Runtime) → IsValid r → lookup r.next_object_handle r.objects ≡ none
next-free r v = elim (Option-cases (lookup r.next_object_handle r.objects)) [
  | inl missing ↦ missing
  | inr (o, found) ↦
      let old =
        Each-lookup (ObjectOk r.next_object_handle r.slots r.sessions) r.next_object_handle o
          r.objects v.objects_ok found in
      absurd (omega (arith, old.2))
]

-- An object in the slot of a live session, that belongs to the token or to the session.
pub in_session-ObjectOk :
    (k h : ℕ) (o : Object) (r : Runtime) {s : Session}
    → IsValid r
    → lookup h r.sessions ≡ some s
    → o.handle ≡ k
    → 0 < k
    → k < r.next_object_handle
    → o.slot_id ≡ s.slot_id
    → (o.owner_session == 0 || o.owner_session == h) ≡ true
    → ObjectOk r.next_object_handle r.slots r.sessions (k, o)
in_session-ObjectOk k h o r {s} v found handle positive given slot owner =
    let old =
      Each-lookup (SessionOk r.next_session_handle r.slots) h s r.sessions v.sessions_ok found in
    (handle, positive, given, rw slot old.3, ground (arith, found, slot, owner))

-- An object is changed where it stands, its owner included.
pub changed-IsValid :
    (k : ℕ) (o : Object) (f : Object → Object) (r : Runtime)
    → lookup k r.objects ≡ some o
    → ObjectOk r.next_object_handle r.slots r.sessions (k, f o)
    → IsValid r
    → IsValid (record r { objects = adjust k f r.objects })
changed-IsValid k o f r found good v =
    let P = ObjectOk r.next_object_handle r.slots r.sessions in
    record {
      first_handles = v.first_handles;
      unique_slots = v.unique_slots;
      unique_objects = Unique-adjust k f r.objects v.unique_objects;
      unique_sessions = v.unique_sessions;
      sessions_ok = v.sessions_ok;
      objects_ok =
          Each-adjust_at P P k o f r.objects v.unique_objects found (λ j w ne p. p) good
            v.objects_ok;
      slots_ok = v.slots_ok;
    }

pub session_slot-placed :
    (h : ℕ) (r : Runtime) {s : Session} {slot : Slot}
    → IsValid r
    → lookup h r.sessions ≡ some s
    → session_slot h r ≡ ok slot
    → slot.id ≡ s.slot_id
unfolding session_slot
session_slot-placed h r {s} {slot} v found slot_found =
    elim (Option-cases (lookup s.slot_id r.slots)) [
      | inl missing ↦ absurd (ground (arith, found, missing, slot_found))
      | inr (slot', there) ↦
          let old = Each-lookup (SlotOk r.sessions) s.slot_id slot' r.slots v.slots_ok there in
          ground (arith, found, there, slot_found, old)
    ]
