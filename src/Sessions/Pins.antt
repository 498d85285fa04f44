-- ===== src/Sessions/Pins.antt =====
-- InitPIN and SetPIN.
use pkcs11hsmsim.Base.{
  ℕ, ◌≡◌, ◌∙◌, refl, sym, Bool, true, false, not, ◌&&◌, ◌||◌, none, some, arith, inl, inr,
  Bool-cases, Option-cases, Array, contents, holds, is_bad, value_or, Bytes, bytes_eq, ap,
}
use pkcs11hsmsim.Base.Dict.{lookup, adjust, lookup-adjust, Each-adjust}
use pkcs11hsmsim.Base.Dict.Unique.{Unique-adjust}
use pkcs11hsmsim.Ck.{cku_so, cku_user, is_rw}
use pkcs11hsmsim.Result.{ok, is_ok}
use pkcs11hsmsim.Disk.{file}
use pkcs11hsmsim.Core.State.{Slot, Session, Runtime}
use pkcs11hsmsim.Core.{session_slot}
use pkcs11hsmsim.Core.Invariant.{IsValid, SlotOk}
use pkcs11hsmsim.Core.Keeping.{sessions_ok-adjust, objects_ok-adjust}
use pkcs11hsmsim.Core.Lookups.{session_slot-found}
use pkcs11hsmsim.Slots.Pin.{store_pin, set_pin_of, pin_path}
use pkcs11hsmsim.Slots.Pin.Storing.{Rest, store_pin-Rest, store_pin-slots, store_pin-file}
use pkcs11hsmsim.Sessions.{init_pin, set_pin, authenticate}
use pkcs11hsmsim.Sessions.LoggingIn.{accepts, authenticate-accepts}

-- The registry with the slots replaced stays well formed if a PIN is all that changes.
pinned-IsValid :
    (id user : ℕ) (value : Bytes) (r : Runtime)
    → IsValid r
    → IsValid (record r { slots = adjust id (set_pin_of user value) r.slots })
pinned-IsValid id user value r v =
    let f = set_pin_of user value in
    record {
      first_handles = v.first_handles;
      unique_slots = Unique-adjust id f r.slots v.unique_slots;
      unique_objects = v.unique_objects;
      unique_sessions = v.unique_sessions;
      sessions_ok = sessions_ok-adjust id f r.slots r.next_session_handle r.sessions v.sessions_ok;
      objects_ok =
          objects_ok-adjust id f r.slots r.next_object_handle r.sessions r.objects v.objects_ok;
      slots_ok = Each-adjust (SlotOk r.sessions) id f r.slots (λ slot old. ground arith) v.slots_ok;
    }

-- The invariant reads no file and none of the other fields.
IsValid-Rest : (r r' : Runtime) → Rest r r' → IsValid (record r { slots = r'.slots }) → IsValid r'
IsValid-Rest r r' same v = record {
  first_handles = rw (same.next_object_handle, same.next_session_handle) v.first_handles;
  unique_slots = v.unique_slots;
  unique_objects = rw (same.objects) v.unique_objects;
  unique_sessions = rw (same.sessions) v.unique_sessions;
  sessions_ok = rw (same.next_session_handle, same.sessions) v.sessions_ok;
  objects_ok = rw (same.next_object_handle, same.objects, same.sessions) v.objects_ok;
  slots_ok = rw (same.sessions) v.slots_ok;
}

store_pin-IsValid :
    (slot : Slot) (user : ℕ) (pin : Array ℕ) (r : Runtime)
    → IsValid r
    → IsValid (store_pin slot user pin r).1
store_pin-IsValid slot user pin r v =
    IsValid-Rest r (store_pin slot user pin r).1 (store_pin-Rest slot user pin r) (
      rw (store_pin-slots slot user pin r)
        (elim (Bool-cases (is_ok (store_pin slot user pin r).0)) [
          | inl done ↦ rw done (pinned-IsValid slot.id user (contents pin) r v)
          | inr failed ↦ rw failed v
        ]))

-- The user whose PIN `SetPIN` changes.
abbrev pub pin_user : Slot → ℕ
pin_user slot = value_or slot.logged_in_user cku_user

abbrev may_set : Slot → Session → Array ℕ → Array ℕ → Bool
may_set slot s old_pin new_pin =
    is_rw s.flags
    && not (is_bad old_pin || is_bad new_pin)
    && is_ok (authenticate slot (pin_user slot) old_pin)

-- `SetPIN` either stops before the PIN file or stores the new PIN.
set_pin_cases :
    (h : ℕ) (old_pin new_pin : Array ℕ) (r : Runtime) {s : Session} {slot : Slot}
    → lookup h r.sessions ≡ some s
    → session_slot h r ≡ ok slot
    → (may_set slot s old_pin new_pin ≡ true
        → set_pin h old_pin new_pin r ≡ store_pin slot (pin_user slot) new_pin r)
      × (may_set slot s old_pin new_pin ≡ false
          → (is_ok (set_pin h old_pin new_pin r).0 ≡ false) × ((set_pin h old_pin new_pin r).1 ≡ r))
unfolding set_pin
set_pin_cases h old_pin new_pin r found e = rw (found, e) (λ k. ground arith, λ k. ground arith)

set_pin_unknown :
    (h : ℕ) (old_pin new_pin : Array ℕ) (r : Runtime)
    → lookup h r.sessions ≡ none
    → (set_pin h old_pin new_pin r).1 ≡ r
unfolding set_pin
set_pin_unknown h old_pin new_pin r missing = ground arith

init_pin_cases :
    (h : ℕ) (pin : Array ℕ) (r : Runtime) {s : Session} {slot : Slot}
    → lookup h r.sessions ≡ some s
    → session_slot h r ≡ ok slot
    → let allowed = is_rw s.flags && holds slot.logged_in_user cku_so in
      (allowed ≡ true → init_pin h pin r ≡ store_pin slot cku_user pin r)
      × (allowed ≡ false → (is_ok (init_pin h pin r).0 ≡ false) × ((init_pin h pin r).1 ≡ r))
unfolding init_pin
init_pin_cases h pin r found e = rw (found, e) (λ k. ground arith, λ k. ground arith)

init_pin_unknown :
    (h : ℕ) (pin : Array ℕ) (r : Runtime) → lookup h r.sessions ≡ none → (init_pin h pin r).1 ≡ r
unfolding init_pin
init_pin_unknown h pin r missing = ground arith

pub set_pin-IsValid :
    (h : ℕ) (old_pin new_pin : Array ℕ) (r : Runtime)
    → IsValid r
    → IsValid (set_pin h old_pin new_pin r).1
set_pin-IsValid h old_pin new_pin r v = elim (Option-cases (lookup h r.sessions)) [
  | inl missing ↦ rw (set_pin_unknown h old_pin new_pin r missing) v
  | inr (s, found) ↦
      let (slot, there, here, e) = session_slot-found h r v found in
      let cases = set_pin_cases h old_pin new_pin r found e in
      elim (Bool-cases (may_set slot s old_pin new_pin)) [
        | inl allowed ↦ rw (cases.0 allowed) (store_pin-IsValid slot (pin_user slot) new_pin r v)
        | inr denied ↦ rw ((cases.1 denied).1) v
      ]
]

pub init_pin-IsValid :
    (h : ℕ) (pin : Array ℕ) (r : Runtime) → IsValid r → IsValid (init_pin h pin r).1
init_pin-IsValid h pin r v = elim (Option-cases (lookup h r.sessions)) [
  | inl missing ↦ rw (init_pin_unknown h pin r missing) v
  | inr (s, found) ↦
      let (slot, there, here, e) = session_slot-found h r v found in
      let cases = init_pin_cases h pin r found e in
      elim (Bool-cases (is_rw s.flags && holds slot.logged_in_user cku_so)) [
        | inl allowed ↦ rw (cases.0 allowed) (store_pin-IsValid slot cku_user pin r v)
        | inr denied ↦ rw ((cases.1 denied).1) v
      ]
]

-- After a PIN is set for a user of a slot, the slot accepts exactly that PIN from that user.
accepts-set_pin_of :
    (user : ℕ) (new_pin pin : Array ℕ) (slot : Slot)
    → accepts (set_pin_of user (contents new_pin) slot) user pin
      ≡ bytes_eq (contents pin) (contents new_pin)
unfolding accepts
accepts-set_pin_of user new_pin pin slot = ground arith

-- After `storePin` has stored a PIN, the slot accepts exactly that PIN from its user.
store_pin-accepts :
    (slot : Slot) (user : ℕ) (new_pin pin : Array ℕ) (r : Runtime) {id : ℕ} {slot' : Slot}
    → (store_pin slot user new_pin r).0 ≡ ok tt
    → slot.id ≡ id
    → lookup id r.slots ≡ some slot
    → lookup id (store_pin slot user new_pin r).1.slots ≡ some slot'
    → accepts slot' user pin ≡ bytes_eq (contents pin) (contents new_pin)
store_pin-accepts slot user new_pin pin r {id} {slot'} done here there now =
    let f = set_pin_of user (contents new_pin) in
    let e : slot' ≡ f slot =
      ground
        (arith, now, store_pin-slots slot user new_pin r, lookup-adjust id slot.id f r.slots) in
    rw e (accepts-set_pin_of user new_pin pin slot)

module _ (h : ℕ) (old_pin new_pin : Array ℕ) (r : Runtime) {s : Session} {slot : Slot}
    (v : IsValid r) (found : lookup h r.sessions ≡ some s)
    (there : lookup s.slot_id r.slots ≡ some slot) where
  session_slot-here : (session_slot h r ≡ ok slot) × (slot.id ≡ s.slot_id)
  session_slot-here = let (slot', there', here, e) = session_slot-found h r v found in ground arith

  -- A `SetPIN` that succeeds was made in a read-write session with the old PIN of the user who is
  -- logged in, or else of the normal user. It has stored the new PIN in that user's PIN file, and
  -- from then on the slot accepts exactly the new PIN from that user.
  pub set_pin_replaces :
      (set_pin h old_pin new_pin r).0 ≡ ok tt
      → (is_rw s.flags ≡ true)
        × (accepts slot (pin_user slot) old_pin ≡ true)
        × (file (pin_path slot (pin_user slot)) (set_pin h old_pin new_pin r).1.disk
            ≡ some (contents new_pin))
        × ((pin : Array ℕ) (slot' : Slot)
            → lookup s.slot_id (set_pin h old_pin new_pin r).1.slots ≡ some slot'
            → accepts slot' (pin_user slot) pin ≡ bytes_eq (contents pin) (contents new_pin))
  set_pin_replaces done =
      let user = pin_user slot in
      let cases = set_pin_cases h old_pin new_pin r found session_slot-here.0 in
      elim (Bool-cases (may_set slot s old_pin new_pin)) [
        | inl allowed ↦
            let e = cases.0 allowed in
            let ends : (store_pin slot user new_pin r).0 ≡ ok tt = sym (ap (λ x. x.0) e) ∙ done in
            (
              ground arith,
              ground (arith, authenticate-accepts slot user old_pin),
              rw e (store_pin-file slot user new_pin r ∙ rw ends refl),
              λ pin slot' now.
                  store_pin-accepts slot user new_pin pin r ends session_slot-here.1 there
                    (rw e at now),
            )
        | inr denied ↦ absurd (ground (arith, cases.1 denied))
      ]

  -- A `SetPIN` that fails leaves the PINs in memory and the PIN file as they were.
  pub set_pin_atomic :
      is_ok (set_pin h old_pin new_pin r).0 ≡ false
      → ((set_pin h old_pin new_pin r).1.slots ≡ r.slots)
        × (file (pin_path slot (pin_user slot)) (set_pin h old_pin new_pin r).1.disk
            ≡ file (pin_path slot (pin_user slot)) r.disk)
  set_pin_atomic failed =
      let user = pin_user slot in
      let cases = set_pin_cases h old_pin new_pin r found session_slot-here.0 in
      elim (Bool-cases (may_set slot s old_pin new_pin)) [
        | inl allowed ↦
            let e = cases.0 allowed in
            let ends : is_ok (store_pin slot user new_pin r).0 ≡ false =
              sym (ap (λ x. is_ok x.0) e) ∙ failed in
            rw e (
              store_pin-slots slot user new_pin r ∙ rw ends refl,
              store_pin-file slot user new_pin r ∙ rw ends refl,
            )
        | inr denied ↦ rw ((cases.1 denied).1) (refl, refl)
      ]
