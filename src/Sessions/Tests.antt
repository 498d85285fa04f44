-- ===== src/Sessions/Tests.antt =====
-- Sessions at concrete registries.
use pkcs11hsmsim.Base.{ℕ, ◌≡◌, refl, true, false, none, some, arith, Array, items, any_of, bytes_eq}
use pkcs11hsmsim.Base.Text.{codes}
use pkcs11hsmsim.Base.Dict.{lookup}
use pkcs11hsmsim.Ck.{cku_user}
use pkcs11hsmsim.Result.{ok, err, user_not_logged_in}
use pkcs11hsmsim.Disk.{file, exists, file_in, write_file, rename}
use pkcs11hsmsim.Core.State.{in_slot}
use pkcs11hsmsim.Core.{require_user_login, requires_login}
use pkcs11hsmsim.Core.Examples.{
  office, office-IsValid, front_slot, back_slot, writer, back_session, reader_session,
}
use pkcs11hsmsim.Slots.Pin.{pin_path}
use pkcs11hsmsim.Sessions.Access.{Does, closing, called}
use pkcs11hsmsim.Sessions.Refining.{called-Does}
use pkcs11hsmsim.Sessions.{
  open_session, close_session, close_all_sessions, login, logout, set_pin,
  protected_session_object_in,
}
use pkcs11hsmsim.Sessions.Opening.{opened, may_open, open_session_lem}
use pkcs11hsmsim.Sessions.Closing.{close_session_removes}
use pkcs11hsmsim.Sessions.ClosingAll.{close_all_sessions_empties}
use pkcs11hsmsim.Sessions.LoggingIn.{may_login, logged_in, login_lem}
use pkcs11hsmsim.Sessions.LoggingOut.{logout_abandons, logout_locks}
use pkcs11hsmsim.Sessions.Pins.{set_pin_replaces, set_pin_atomic}

abbrev user_pin : Array ℕ
user_pin = items (codes "1234")

abbrev new_pin : Array ℕ
new_pin = items (codes "4321")

-- The user logs in to slot 2 through session 2.
login_lem_example : login 2 cku_user user_pin office ≡ (ok tt, logged_in 2 cku_user office)
unfolding lookup may_login any_of bytes_eq
login_lem_example =
    (login_lem 2 cku_user user_pin office {s = back_session} {slot = back_slot} office-IsValid refl
        refl).0
      refl

-- A read-only session of slot 1, where the user is logged in.
open_session_lem_example : open_session 1 4 true office ≡ (ok 4, opened 1 4 office)
unfolding lookup may_open
open_session_lem_example = (open_session_lem 1 4 true office (omega arith)).0 refl

-- Session 1 goes with its key; session 3 of the same slot keeps the user logged in.
close_session_removes_example : lookup 1 (close_session 1 office).1.sessions ≡ none
unfolding lookup
close_session_removes_example =
    (close_session_removes 1 office {s = writer} office-IsValid refl).0 1

close_all_sessions_empties_example :
    any_of (in_slot 1) (close_all_sessions 1 office).1.sessions ≡ false
unfolding lookup
close_all_sessions_empties_example =
    (close_all_sessions_empties 1 office {slot = front_slot} office-IsValid refl).0

-- Session 3 logs out while session 1 owns a sensitive key.
logout_abandons_example : any_of (protected_session_object_in 1) (logout 3 office).1.objects ≡ false
unfolding lookup
logout_abandons_example =
    (logout_abandons 3 office {s = reader_session} {slot = front_slot} office-IsValid refl refl
      refl).1

logout_locks_example : require_user_login 1 (logout 3 office).1 ≡ err user_not_logged_in
unfolding lookup requires_login
logout_locks_example =
    logout_locks 3 office {s = reader_session} {slot = front_slot} office-IsValid refl refl refl 1
      writer refl refl refl

-- The user of slot 1 replaces the PIN.
set_pin_replaces_example :
    file (pin_path front_slot cku_user) (set_pin 1 user_pin new_pin office).1.disk
    ≡ some (codes "4321")
unfolding lookup set_pin bytes_eq any_of exists file_in write_file rename
set_pin_replaces_example =
    (set_pin_replaces 1 user_pin new_pin office {s = writer} {slot = front_slot} office-IsValid refl
      refl refl).2

-- The old PIN is wrong.
set_pin_atomic_example : (set_pin 1 new_pin new_pin office).1.slots ≡ office.slots
unfolding lookup set_pin bytes_eq
set_pin_atomic_example =
    (set_pin_atomic 1 new_pin new_pin office {s = writer} {slot = front_slot} office-IsValid refl
      refl refl).0

called-Does_example : Does 1 (closing 1) office (called (closing 1) office)
called-Does_example = called-Does 1 office office-IsValid (closing 1) (ground arith)
