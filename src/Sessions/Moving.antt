-- ===== src/Sessions/Moving.antt =====
-- What each call on sessions and logins does to the access of a token.
use pkcs11hsmsim.Base.{
  ℕ, ◌≡◌, ◌≢◌, refl, Bool, true, false, none, some, [], ◌∷◌, Array, arith, ◌==◌, any_of,
  if◌then◌else◌, inl, inr, Bool-cases, Option-cases,
}
use pkcs11hsmsim.Base.Dict.{
  Dict, lookup, erase, lookup-emplace_new, lookup-adjust, lookup-update_all, lookup-erase,
  lookup-any_of, Each-lookup,
}
use pkcs11hsmsim.Base.Dict.Unique.{Unique, Unique-erase, lookup-erase_if}
use pkcs11hsmsim.Result.{Result, ok, err, Refused}
use pkcs11hsmsim.Core.State.{Slot, Session, Runtime, in_slot, read_only_in_slot, no_session}
use pkcs11hsmsim.Core.Invariant.{IsValid, SessionOk}
use pkcs11hsmsim.Sessions.{logged_out, abandon}
use pkcs11hsmsim.Sessions.Opening.{opened, may_open}
use pkcs11hsmsim.Sessions.Closing.{closed, without_session}
use pkcs11hsmsim.Sessions.ClosingAll.{all_closed}
use pkcs11hsmsim.Sessions.LoggingIn.{may_login, logged_in, set_user}
use pkcs11hsmsim.Sessions.LoggingOut.{left_by_logout}
use pkcs11hsmsim.Sessions.Access.{
  access, opens, closes, closes_last, empties, logs_in, logs_out, AccessCall, opening, closing,
  closing_all, logging_in, logging_out, outcome, concerns, Does,
}

any_of-found {ℓ} :
    {V : Type ℓ} (p : ℕ × V → Bool) (d : Dict V)
    → Unique d
    → any_of p d ≡ true
    → (k : ℕ) × (v : V) × (lookup k d ≡ some v) × (p (k, v) ≡ true)
unfolding any_of lookup
any_of-found p [] u h = absurd (ground arith)
any_of-found p ((k, v) ∷ d) u h = elim (Bool-cases (p (k, v))) [
  | inl here ↦ (k, v, ground arith, here)
  | inr other ↦
      let (j, w, found, holds_there) = any_of-found p d u.1 (ground (arith, h, other)) in
      (j, w, ground (arith, found, u.0), holds_there)
]

pub refused : (slot_id : ℕ) (call : AccessCall) (r : Runtime) → Does slot_id call r (false, r)
refused slot_id call r = (
  (λ mine done. absurd (ground arith)),
  (λ other. (refl, λ j. refl)),
  λ failed. (refl, λ j. refl),
)

pub Refused-Does :
    {A : Type 0} (slot_id : ℕ) (call : AccessCall) (x : Result A × Runtime) (r : Runtime)
    → Refused x r
    → Does slot_id call r (outcome x)
Refused-Does slot_id call (ok a, r') r h = absurd h
Refused-Does slot_id call (err e, r') r h = rw h (refused slot_id call r)

module _ (slot_id : ℕ) (r : Runtime) (v : IsValid r) where
  next-new : lookup r.next_session_handle r.sessions ≡ none
  next-new = elim (Option-cases (lookup r.next_session_handle r.sessions)) [
    | inl missing ↦ missing
    | inr (s, found) ↦
        let old =
          Each-lookup (SessionOk r.next_session_handle r.slots) r.next_session_handle s r.sessions
            v.sessions_ok found in
        absurd (omega (arith, old.2))
  ]

  pub opened-Does :
      (id flags : ℕ) (has_out : Bool)
      → may_open id flags has_out r ≡ true
      → Does slot_id (opening id flags has_out) r (true, opened id flags r)
  unfolding access opened may_open concerns
  opened-Does id flags has_out allowed =
      let h = r.next_session_handle in
      let added : (j : ℕ)
          → lookup j (opened id flags r).sessions ≡ (
              if h == j
              then some (record no_session { handle = h; slot_id = id; flags = flags })
              else lookup j r.sessions) =
        λ j.
          lookup-emplace_new j h (record no_session { handle = h; slot_id = id; flags = flags })
            r.sessions next-new in
      (
        λ here done.
            opens id flags h has_out (ground (arith, next-new))
              (λ read_only. ground (arith, here, allowed, read_only)) refl
              (λ j. ground (arith, here, next-new, added j)),
        λ other. (refl, λ j. ground (arith, other, next-new, added j)),
        λ failed. absurd (ground arith),
      )

  pub closed-Does :
      (h : ℕ) {s : Session}
      → lookup h r.sessions ≡ some s
      → Does slot_id (closing h) r (true, closed h s.slot_id r)
  unfolding access closed without_session concerns
  closed-Does h {s} found =
      let gone : (j : ℕ)
          → lookup j (erase h r.sessions) ≡ (if h == j then none else lookup j r.sessions) =
        λ j. lookup-erase j h r.sessions in
      let out = lookup-adjust slot_id s.slot_id logged_out r.slots in
      elim (Bool-cases (any_of (in_slot s.slot_id) (erase h r.sessions))) [
        | inl more ↦ (
          λ mine done.
              let (k, t, there, same) =
                any_of-found (in_slot s.slot_id) (erase h r.sessions)
                  (Unique-erase h r.sessions v.unique_sessions) more in
              closes h k (ground (arith, found, mine))
                (ground (arith, more, there, same, mine, found)) (ground (arith, more))
                (λ j. ground (arith, more, gone j)),
          λ other. (ground (arith, more), λ j. ground (arith, more, gone j, other, found)),
          λ failed. absurd (ground arith),
        )
        | inr last ↦
            let none_left : (j : ℕ) (t : Session)
                → lookup j (erase h r.sessions) ≡ some t
                → (t.slot_id == s.slot_id) ≡ false =
              λ j t there. elim (Bool-cases (t.slot_id == s.slot_id)) [
                | inl same ↦ absurd (
                    ground (
                      arith,
                      last,
                      lookup-any_of j (in_slot s.slot_id) (erase h r.sessions) there same,
                    ))
                | inr apart ↦ apart
              ] in
            let left : (j : ℕ)
                → s.slot_id ≡ slot_id
                → (access slot_id (closed h s.slot_id r)).session j ≡ none =
              λ j mine. elim (Option-cases (lookup j (erase h r.sessions))) [
                | inl missing ↦ ground (arith, last, missing)
                | inr (t, there) ↦ ground (arith, last, there, mine, none_left j t there)
              ] in
            (
              λ mine done.
                  let here : s.slot_id ≡ slot_id = ground (arith, found, mine) in
                  closes_last h (ground (arith, found, here))
                    (λ j apart. ground (arith, left j here, gone j, apart, last))
                    (ground (arith, last, here, out)) (λ j. left j here),
              λ other. (
                ground (arith, last, other, found, out),
                λ j. ground (arith, last, gone j, other, found),
              ),
              λ failed. absurd (ground arith),
            )
      ]

  pub all_closed-Does : (id : ℕ) → Does slot_id (closing_all id) r (true, all_closed id r)
  unfolding access all_closed concerns
  all_closed-Does id =
      let gone = λ (j : ℕ). lookup-erase_if j (in_slot id) r.sessions v.unique_sessions in
      let slot = lookup-adjust slot_id id logged_out r.slots in
      (
        λ here done. empties id (ground (arith, here, slot)) (λ j. ground (arith, here, gone j)),
        λ other. (ground (arith, other, slot), λ j. ground (arith, other, gone j)),
        λ failed. absurd (ground arith),
      )

  pub logged_in-Does :
      (h user : ℕ) (pin : Array ℕ) {s : Session} {slot : Slot}
      → lookup h r.sessions ≡ some s
      → lookup s.slot_id r.slots ≡ some slot
      → may_login slot s user pin r ≡ true
      → Does slot_id (logging_in h user pin) r (true, logged_in s.slot_id user r)
  unfolding access logged_in may_login concerns
  logged_in-Does h user pin {s} {slot} found there allowed =
      let changed = lookup-adjust slot_id s.slot_id (set_user user) r.slots in
      (
        λ mine done.
            let here : s.slot_id ≡ slot_id = ground (arith, found, mine) in
            logs_in h user pin (ground (arith, here, there, allowed)) (ground (arith, here, found))
              (λ officer j. elim (Option-cases (lookup j r.sessions)) [
                | inl missing ↦ ground (arith, missing)
                | inr (t, live) ↦ ground (
                  arith,
                  live,
                  here,
                  officer,
                  allowed,
                  lookup-any_of j (read_only_in_slot s.slot_id) r.sessions live,
                )
              ])
              (ground (arith, here, there, changed)) (λ j. refl),
        λ other. (ground (arith, other, found, changed), λ j. refl),
        λ failed. absurd (ground arith),
      )

  pub left_by_logout-Does :
      (h : ℕ) {s : Session} {slot : Slot}
      → lookup h r.sessions ≡ some s
      → lookup s.slot_id r.slots ≡ some slot
      → slot.logged_in_user ≢ none
      → Does slot_id (logging_out h) r (true, left_by_logout s.slot_id r)
  unfolding access left_by_logout concerns
  left_by_logout-Does h {s} {slot} found there inside =
      let changed = lookup-adjust slot_id s.slot_id logged_out r.slots in
      let left = λ (j : ℕ). lookup-update_all j (abandon s.slot_id) r.sessions in
      (
        λ mine done.
            let here : s.slot_id ≡ slot_id = ground (arith, found, mine) in
            logs_out h (ground (arith, here, there, inside)) (ground (arith, here, found))
              (ground (arith, here, changed)) (λ j. ground (arith, left j)),
        λ other. (ground (arith, other, found, changed), λ j. ground (arith, left j)),
        λ failed. absurd (ground arith),
      )
