-- ===== src/Sessions/LoggingIn.antt =====
-- Login.
use pkcs11hsmsim.Base.{
  ℕ, ◌≡◌, refl, Bool, true, false, not, ◌&&◌, ◌||◌, Option, none, some, arith, ◌==◌, any_of, inl,
  inr, Bool-cases, Option-cases, Bytes, length, bytes_eq, [], ◌∷◌, Array, contents, is_bad, is_some,
  null, items,
}
use pkcs11hsmsim.Base.Dict.{lookup, adjust, Each-lookup, lookup-any_of}
use pkcs11hsmsim.Base.Dict.Unique.{Unique-adjust, Each-adjust_at}
use pkcs11hsmsim.Ck.{cku_so, cku_user, is_rw}
use pkcs11hsmsim.Result.{ok, is_ok, Refused, Refused-state, err, session_handle_invalid}
use pkcs11hsmsim.Core.State.{Slot, Session, Runtime, in_slot, read_only_in_slot}
use pkcs11hsmsim.Core.{session_slot, requires_login}
use pkcs11hsmsim.Core.Invariant.{IsValid, SlotOk}
use pkcs11hsmsim.Core.Keeping.{sessions_ok-adjust, objects_ok-adjust}
use pkcs11hsmsim.Core.Lookups.{session_slot-found}
use pkcs11hsmsim.Slots.Pin.{check_pin}
use pkcs11hsmsim.Sessions.{login, login_conflict, authenticate, expected_pin}

-- The typed PIN is the configured one, or the flat layout has no PIN at all.
unfoldable pub accepts : Slot → ℕ → Array ℕ → Bool
accepts slot user pin =
    (slot.legacy_layout && not (is_some slot.user_pin) && not (is_some slot.so_pin))
    || elim (expected_pin slot user) [ none ↦ false | some value ↦ bytes_eq (contents pin) value ]

bytes_eq-length : (xs ys : Bytes) → bytes_eq xs ys ≡ true → length xs ≡ length ys
unfolding bytes_eq
bytes_eq-length [] [] e = refl
bytes_eq-length [] (y ∷ ys) e = cc
bytes_eq-length (x ∷ xs) [] e = cc
bytes_eq-length (x ∷ xs) (y ∷ ys) e = ground (arith, bytes_eq-length xs ys)

check_pin-accepts :
    (expected : Option Bytes) (pin : Array ℕ)
    → is_bad pin ≡ false
    → is_ok (check_pin expected pin)
      ≡ elim expected [ none ↦ false | some value ↦ bytes_eq (contents pin) value ]
unfolding check_pin
check_pin-accepts none pin good = ground arith
check_pin-accepts (some value) (null n) good = ground (arith, bytes_eq-length [] value)
check_pin-accepts (some value) (items xs) good = ground (arith, bytes_eq-length xs value)

-- For a PIN that is passed properly, the check in `Login` and `SetPIN` passes exactly when the slot
-- accepts the PIN.
pub authenticate-accepts :
    (slot : Slot) (user : ℕ) (pin : Array ℕ)
    → is_bad pin ≡ false
    → is_ok (authenticate slot user pin) ≡ accepts slot user pin
unfolding authenticate accepts requires_login
authenticate-accepts slot user pin good =
    ground (arith, check_pin-accepts (expected_pin slot user) pin good)

-- What `Login` asks for: a known user type, a proper and accepted PIN, nobody logged in, and for the
-- security officer a read-write session and no read-only session of the slot.
unfoldable pub may_login : Slot → Session → ℕ → Array ℕ → Runtime → Bool
unfolding accepts
may_login slot s user pin r =
    (user == cku_user || user == cku_so)
    && not (is_bad pin)
    && not (is_some slot.logged_in_user)
    && (not (user == cku_so)
        || (is_rw s.flags && not (any_of (read_only_in_slot s.slot_id) r.sessions)))
    && accepts slot user pin

abbrev pub set_user : ℕ → Slot → Slot
set_user user slot = record slot { logged_in_user = some user }

unfoldable pub logged_in : ℕ → ℕ → Runtime → Runtime
logged_in slot_id user r = record r { slots = adjust slot_id (set_user user) r.slots }

module _ (h user : ℕ) (pin : Array ℕ) (r : Runtime) {s : Session} {slot : Slot} (v : IsValid r)
    (found : lookup h r.sessions ≡ some s) (there : lookup s.slot_id r.slots ≡ some slot) where
  session_slot-there : (session_slot h r ≡ ok slot) × (slot.id ≡ s.slot_id)
  session_slot-there = let (slot', there', here, e) = session_slot-found h r v found in ground arith

  -- In a well-formed registry, `Login` in a live session succeeds exactly when the session may log
  -- in: the slot then has this user logged in and nothing else changes. Otherwise nothing changes.
  pub login_lem :
      (may_login slot s user pin r ≡ true
        → login h user pin r ≡ (ok tt, logged_in s.slot_id user r))
      × (may_login slot s user pin r ≡ false → Refused (login h user pin r) r)
  unfolding login may_login logged_in login_conflict
  login_lem = (
    λ yes_login.
        rw (found, session_slot-there.0)
          (ground (arith, session_slot-there, authenticate-accepts slot user pin)),
    λ not_login.
        rw (found, session_slot-there.0)
          (ground (arith, session_slot-there, authenticate-accepts slot user pin)),
  )

  logged_in-IsValid : may_login slot s user pin r ≡ true → IsValid (logged_in s.slot_id user r)
  unfolding logged_in may_login
  logged_in-IsValid yes_login =
      let old = Each-lookup (SlotOk r.sessions) s.slot_id slot r.slots v.slots_ok there in
      let id = s.slot_id in
      record {
        first_handles = v.first_handles;
        unique_slots = Unique-adjust id (set_user user) r.slots v.unique_slots;
        unique_objects = v.unique_objects;
        unique_sessions = v.unique_sessions;
        sessions_ok =
            sessions_ok-adjust id (set_user user) r.slots r.next_session_handle r.sessions
              v.sessions_ok;
        objects_ok =
            objects_ok-adjust id (set_user user) r.slots r.next_object_handle r.sessions r.objects
              v.objects_ok;
        slots_ok =
            Each-adjust_at (SlotOk r.sessions) (SlotOk r.sessions) id slot (set_user user) r.slots
              v.unique_slots there (λ j w ne k. k)
              (old.0, ground (arith, lookup-any_of h (in_slot id) r.sessions found)) v.slots_ok;
      }

-- A call in a session that does not exist is refused.
pub login_unknown :
    (h user : ℕ) (pin : Array ℕ) (r : Runtime)
    → lookup h r.sessions ≡ none
    → login h user pin r ≡ (err session_handle_invalid, r)
unfolding login
login_unknown h user pin r missing = ground arith

pub login-IsValid :
    (h user : ℕ) (pin : Array ℕ) (r : Runtime) → IsValid r → IsValid (login h user pin r).1
login-IsValid h user pin r v = elim (Option-cases (lookup h r.sessions)) [
  | inl missing ↦ rw (login_unknown h user pin r missing) v
  | inr (s, found) ↦
      let (slot, there, here, e) = session_slot-found h r v found in
      let outcome = login_lem h user pin r v found there in
      elim (Bool-cases (may_login slot s user pin r)) [
        | inl yes_login ↦
            rw (outcome.0 yes_login) (logged_in-IsValid h user pin r v found there yes_login)
        | inr not_login ↦ rw (Refused-state (login h user pin r) r (outcome.1 not_login)) v
      ]
]
