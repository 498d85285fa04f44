-- ===== src/Core.antt =====
-- src/core/runtime.cpp: lookups in the registry and the access rules. A pointer to a session, slot
-- or object is the key under which the registry stores it.
pub mod State
pub mod Invariant
pub mod Lookups
pub mod Keeping
pub mod Examples
pub mod Moves
pub mod Placing
use pkcs11hsmsim.Base.{
  Bool, not, ◌||◌, ◌&&◌, Option, none, some, if◌then◌else◌, ◌==◌, is_some, holds, ℕ,
}
use pkcs11hsmsim.Base.Dict.{lookup}
use pkcs11hsmsim.Ck.{cko_private_key, cko_secret_key, cka_private, cku_user}
use pkcs11hsmsim.Result.{
  Rv, Result, ok, err, general_error, cryptoki_not_initialized, user_not_logged_in,
}
use pkcs11hsmsim.Policy.Values.{policy_value}
use State.{Slot, Object, Session, Runtime}

unfoldable pub requires_login : Slot → Bool
requires_login s = not s.legacy_layout || is_some s.user_pin || is_some s.so_pin

unfoldable pub initialization_status : Runtime → Result (Unit {0})
initialization_status r = if r.initialized then ok tt else err cryptoki_not_initialized

abbrev pub find_session : ℕ → Runtime → Option Session
find_session h r = lookup h r.sessions

abbrev pub find_slot : ℕ → Runtime → Option Slot
find_slot id r = lookup id r.slots

-- `at` throws where the key is missing, which the boundary reports as CKR_GENERAL_ERROR.
unfoldable pub session_slot : ℕ → Runtime → Result Slot
session_slot h r = elim (find_session h r) [
  | none ↦ err general_error
  | some s ↦ elim (find_slot s.slot_id r) [ none ↦ err general_error | some slot ↦ ok slot ]
]

unfoldable pub find_object : ℕ → ℕ → Runtime → Option Object
find_object h k r = elim (find_session h r) [
  | none ↦ none
  | some s ↦ elim (lookup k r.objects) [
    | none ↦ none
    | some o ↦ if o.slot_id == s.slot_id then some o else none
  ]
]

unfoldable pub is_protected_object : Object → Bool
unfolding policy_value
is_protected_object o =
    o.object_class == cko_private_key
    || o.object_class == cko_secret_key
    || policy_value o cka_private

-- The login test of `requireUserLogin`, on the slot.
unfoldable pub is_user_access : Slot → Bool
unfolding requires_login
is_user_access s = not (requires_login s) || holds s.logged_in_user cku_user

unfoldable pub require_user_login : ℕ → Runtime → Result (Unit {0})
unfolding session_slot is_user_access
require_user_login h r = elim (session_slot h r) [
  | err e ↦ err e
  | ok slot ↦ if is_user_access slot then ok tt else err user_not_logged_in
]

unfoldable pub object_access_status : ℕ → Object → Runtime → Result (Unit {0})
unfolding is_protected_object require_user_login
object_access_status h o r = if is_protected_object o then require_user_login h r else ok tt
