-- ===== src/Sessions.antt =====
-- src/pkcs11/sessions.cpp: opening and closing sessions, login and PIN management. An output
-- pointer is a flag that says whether it is non-null; what is written through it is the result.
pub mod Opening
pub mod Closing
pub mod ClosingAll
pub mod LoggingIn
pub mod LoggingOut
pub mod Pins
pub mod Access
pub mod Refining
pub mod Moving
mod Tests
use pkcs11hsmsim.Base.{
  ℕ, ◌+◌, ◌%◌, Bool, false, not, ◌&&◌, ◌||◌, Option, none, some, [], Bytes, ◌==◌, any_of, erase_if,
  Array, is_bad, if◌then◌else◌, value_or, holds, is_some,
}
use pkcs11hsmsim.Base.Dict.{erase, emplace, adjust, update_all}
use pkcs11hsmsim.Ck.{
  ulong_mod, is_rw, is_serial, cku_so, cku_user, cks_rw_so_functions, cks_rw_user_functions,
  cks_ro_user_functions, cks_rw_public_session, cks_ro_public_session,
}
use pkcs11hsmsim.Result.{
  Result, ok, err, general_error, slot_id_invalid, arguments_bad, session_parallel_not_supported,
  session_read_write_so_exists, session_handle_invalid, user_type_invalid, user_already_logged_in,
  user_another_already_logged_in, session_read_only, session_read_only_exists, user_not_logged_in,
  Exec, pure, gets, lift, need, refuse_if, modify, ◌>>=◌, ◌>>◌,
}
use pkcs11hsmsim.Core.State.{
  Slot, Object, Session, Runtime, no_session, no_operation, in_slot, read_only_in_slot,
}
use pkcs11hsmsim.Core.{find_session, find_slot, session_slot, is_protected_object, requires_login}
use pkcs11hsmsim.Slots.Pin.{check_pin, store_pin}

abbrev pub logged_out : Slot → Slot
logged_out slot = record slot { logged_in_user = none }

unfoldable pub open_session : ℕ → ℕ → Bool → Exec Runtime ℕ
open_session slot_id flags has_out = do
  r ← gets (λ r. r)
  slot ← need (find_slot slot_id r) slot_id_invalid
  refuse_if (not has_out) arguments_bad
  refuse_if (not (is_serial flags)) session_parallel_not_supported
  refuse_if (not (is_rw flags) && holds slot.logged_in_user cku_so) session_read_write_so_exists
  let handle = r.next_session_handle
  let session = record no_session { handle = handle; slot_id = slot_id; flags = flags }
  modify (λ r. record r {
    next_session_handle = (r.next_session_handle + 1) % ulong_mod;
    sessions = emplace handle session r.sessions;
  })
  pure handle

abbrev pub owned_by : ℕ → ℕ × Object → Bool
owned_by h e = e.1.owner_session == h

-- The token is logged out when its last session is gone; `at` throws on a missing slot.
unfoldable pub reset_login_if_last : ℕ → Exec Runtime (Unit {0})
reset_login_if_last slot_id r =
    if any_of (in_slot slot_id) r.sessions then (ok tt, r) else elim (find_slot slot_id r) [
      | none ↦ (err general_error, r)
      | some slot ↦ (ok tt, record r { slots = adjust slot_id logged_out r.slots })
    ]

unfoldable pub close_session : ℕ → Exec Runtime (Unit {0})
unfolding reset_login_if_last
close_session h = do
  r ← gets (λ r. r)
  session ← need (find_session h r) session_handle_invalid
  modify
      (λ r. record r { sessions = erase h r.sessions; objects = erase_if (owned_by h) r.objects })
  reset_login_if_last session.slot_id

abbrev pub session_object_in : ℕ → ℕ × Object → Bool
session_object_in id e = e.1.slot_id == id && not (e.1.owner_session == 0)

unfoldable pub close_all_sessions : ℕ → Exec Runtime (Unit {0})
close_all_sessions slot_id = do
  r ← gets (λ r. r)
  slot ← need (find_slot slot_id r) slot_id_invalid
  modify (λ r. record r {
    sessions = erase_if (in_slot slot_id) r.sessions;
    objects = erase_if (session_object_in slot_id) r.objects;
    slots = adjust slot_id logged_out r.slots;
  })

pub record SessionInfo : Type 0 where
  pub slot_id : ℕ
  pub state : ℕ
  pub flags : ℕ
  pub device_error : ℕ

unfoldable pub session_state : Slot → Session → ℕ
session_state slot session =
    if holds slot.logged_in_user cku_so
    then cks_rw_so_functions
    else if holds slot.logged_in_user cku_user
    then (if is_rw session.flags then cks_rw_user_functions else cks_ro_user_functions)
    else if is_rw session.flags
    then cks_rw_public_session
    else cks_ro_public_session

unfoldable pub get_session_info : ℕ → Bool → Exec Runtime SessionInfo
unfolding session_state session_slot
get_session_info h has_out = do
  r ← gets (λ r. r)
  session ← need (find_session h r) session_handle_invalid
  refuse_if (not has_out) arguments_bad
  slot ← lift (session_slot h r)
  pure (record {
    slot_id = session.slot_id;
    state = session_state slot session;
    flags = session.flags;
    device_error = 0;
  })

-- The PIN that `Login` and `SetPIN` compare with.
abbrev pub expected_pin : Slot → ℕ → Option Bytes
expected_pin slot user = if user == cku_so then slot.so_pin else slot.user_pin

-- The flat layout without any PIN accepts every PIN.
unfoldable pub authenticate : Slot → ℕ → Array ℕ → Result (Unit {0})
unfolding requires_login check_pin
authenticate slot user pin =
    if slot.legacy_layout && not (requires_login slot) && not (is_some (expected_pin slot user))
    then ok tt
    else check_pin (expected_pin slot user) pin

-- The refusals of `Login` that precede the check of the PIN.
unfoldable pub login_conflict : Slot → Session → ℕ → Runtime → Result (Unit {0})
login_conflict slot session user r = elim slot.logged_in_user [
  | some current ↦
      err (if current == user then user_already_logged_in else user_another_already_logged_in)
  | none ↦
      if user == cku_so
      then (if not (is_rw session.flags)
          then err session_read_only
          else if any_of (read_only_in_slot slot.id) r.sessions
          then err session_read_only_exists
          else ok tt)
      else ok tt
]

unfoldable pub login : ℕ → ℕ → Array ℕ → Exec Runtime (Unit {0})
unfolding authenticate login_conflict session_slot
login h user pin = do
  r ← gets (λ r. r)
  session ← need (find_session h r) session_handle_invalid
  refuse_if (not (user == cku_user) && not (user == cku_so)) user_type_invalid
  refuse_if (is_bad pin) arguments_bad
  slot ← lift (session_slot h r)
  lift (login_conflict slot session user r)
  lift (authenticate slot user pin)
  modify (λ r. record r {
    slots = adjust session.slot_id (λ s. record s { logged_in_user = some user }) r.slots;
  })

abbrev pub abandon : ℕ → Session → Session
abandon id s =
    if s.slot_id == id
    then record s { operation = no_operation; search_active = false; matches = [] }
    else s

abbrev pub protected_session_object_in : ℕ → ℕ × Object → Bool
protected_session_object_in id e =
    e.1.slot_id == id && not (e.1.owner_session == 0) && is_protected_object e.1

unfoldable pub logout : ℕ → Exec Runtime (Unit {0})
unfolding session_slot is_protected_object
logout h = do
  r ← gets (λ r. r)
  session ← need (find_session h r) session_handle_invalid
  slot ← lift (session_slot h r)
  refuse_if (not (is_some slot.logged_in_user)) user_not_logged_in
  modify (λ r. record r {
    slots = adjust session.slot_id logged_out r.slots;
    sessions = update_all (abandon slot.id) r.sessions;
    objects = erase_if (protected_session_object_in slot.id) r.objects;
  })

unfoldable pub init_pin : ℕ → Array ℕ → Exec Runtime (Unit {0})
unfolding session_slot store_pin
init_pin h pin = do
  r ← gets (λ r. r)
  session ← need (find_session h r) session_handle_invalid
  refuse_if (not (is_rw session.flags)) session_read_only
  slot ← lift (session_slot h r)
  refuse_if (not (holds slot.logged_in_user cku_so)) user_not_logged_in
  store_pin slot cku_user pin

unfoldable pub set_pin : ℕ → Array ℕ → Array ℕ → Exec Runtime (Unit {0})
unfolding session_slot store_pin authenticate
set_pin h old_pin new_pin = do
  r ← gets (λ r. r)
  session ← need (find_session h r) session_handle_invalid
  refuse_if (not (is_rw session.flags)) session_read_only
  refuse_if (is_bad old_pin || is_bad new_pin) arguments_bad
  slot ← lift (session_slot h r)
  let user = value_or slot.logged_in_user cku_user
  lift (authenticate slot user old_pin)
  store_pin slot user new_pin
