-- ===== src/Sessions/Refining.antt =====
-- The calls on sessions and logins do to each token what its access allows.
use pkcs11hsmsim.Base.{ℕ, ◌+◌, ◌<◌, arith, inl, inr, Bool-cases, Option-cases}
use pkcs11hsmsim.Base.Dict.{lookup}
use pkcs11hsmsim.Ck.{ulong_mod}
use pkcs11hsmsim.Core.State.{Runtime}
use pkcs11hsmsim.Core.Invariant.{IsValid}
use pkcs11hsmsim.Core.Lookups.{session_slot-found}
use pkcs11hsmsim.Sessions.{open_session, login}
use pkcs11hsmsim.Sessions.Opening.{may_open, open_session_lem}
use pkcs11hsmsim.Sessions.Closing.{close_session_lem}
use pkcs11hsmsim.Sessions.ClosingAll.{close_all_sessions_lem}
use pkcs11hsmsim.Sessions.LoggingIn.{may_login, login_lem, login_unknown}
use pkcs11hsmsim.Sessions.LoggingOut.{logout-there, logout_unknown}
use pkcs11hsmsim.Sessions.Access.{
  AccessCall, opening, closing, closing_all, logging_in, logging_out, called, Does,
}
use pkcs11hsmsim.Sessions.Moving.{
  opened-Does, closed-Does, all_closed-Does, logged_in-Does, left_by_logout-Does, refused,
  Refused-Does,
}

module _ (slot_id : ℕ) (r : Runtime) (v : IsValid r) where
  -- In a well-formed registry, while session handles do not wrap: a call on sessions and logins that
  -- succeeds does to its own token what `Moves` says of this call, and no other token sees anything of
  -- it; one that fails is not seen by any token. A session is opened under a new handle, and never
  -- read-only beside the security officer; a closed session is gone, and the login with the token's last
  -- one; a login needs an open session and an empty place, and that of the security officer no read-only
  -- session.
  pub called-Does :
      (call : AccessCall)
      → r.next_session_handle + 1 < ulong_mod
      → Does slot_id call r (called call r)
  unfolding called
  called-Does (opening id flags has_out) room =
      let outcome = open_session_lem id flags has_out r room in
      elim (Bool-cases (may_open id flags has_out r)) [
        | inl allowed ↦ rw (outcome.0 allowed) (opened-Does slot_id r v id flags has_out allowed)
        | inr denied ↦
            Refused-Does slot_id (opening id flags has_out) (open_session id flags has_out r) r
              (outcome.1 denied)
      ]
  called-Does (closing h) room = elim (Option-cases (lookup h r.sessions)) [
    | inl missing ↦ rw (close_session_lem h r v) (rw missing (refused slot_id (closing h) r))
    | inr (s, found) ↦ rw (close_session_lem h r v) (rw found (closed-Does slot_id r v h found))
  ]
  called-Does (closing_all id) room = elim (Option-cases (lookup id r.slots)) [
    | inl missing ↦
        rw (close_all_sessions_lem id r) (rw missing (refused slot_id (closing_all id) r))
    | inr (slot, there) ↦
        rw (close_all_sessions_lem id r) (rw there (all_closed-Does slot_id r v id))
  ]
  called-Does (logging_in h user pin) room = elim (Option-cases (lookup h r.sessions)) [
    | inl missing ↦
        rw (login_unknown h user pin r missing) (refused slot_id (logging_in h user pin) r)
    | inr (s, found) ↦
        let (slot, there, here, e) = session_slot-found h r v found in
        let outcome = login_lem h user pin r v found there in
        elim (Bool-cases (may_login slot s user pin r)) [
          | inl allowed ↦
              rw (outcome.0 allowed) (logged_in-Does slot_id r v h user pin found there allowed)
          | inr denied ↦
              Refused-Does slot_id (logging_in h user pin) (login h user pin r) r (outcome.1 denied)
        ]
  ]
  called-Does (logging_out h) room = elim (Option-cases (lookup h r.sessions)) [
    | inl missing ↦ rw (logout_unknown h r missing) (refused slot_id (logging_out h) r)
    | inr (s, found) ↦
        let (slot, there, here, e) = session_slot-found h r v found in
        elim (Option-cases slot.logged_in_user) [
          | inl nobody ↦
              rw (logout-there h r v found there) (rw nobody (refused slot_id (logging_out h) r))
          | inr (user, somebody) ↦ rw (logout-there h r v found there) (
              rw somebody (
                left_by_logout-Does slot_id r v h found there
                  (λ none_there. ground (arith, somebody, none_there))))
        ]
  ]
