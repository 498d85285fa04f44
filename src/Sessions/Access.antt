-- ===== src/Sessions/Access.antt =====
-- The sessions and logins of src/pkcs11/sessions.cpp as one token sees them, without objects, files and
-- PINs: who is logged in to it, and its open sessions.
use pkcs11hsmsim.Base.{
  ℕ, ◌≡◌, ◌≢◌, Bool, true, false, Option, none, some, Array, ◌==◌, if◌then◌else◌,
}
use pkcs11hsmsim.Base.Dict.{lookup}
use pkcs11hsmsim.Ck.{is_rw, cku_so}
use pkcs11hsmsim.Result.{Result, is_ok}
use pkcs11hsmsim.Core.State.{Runtime}
use pkcs11hsmsim.Sessions.{open_session, close_session, close_all_sessions, login, logout}

-- An open session is read-write or not.
pub record Access : Type 0 where
  pub user : Option ℕ
  pub session : ℕ → Option Bool

unfoldable pub access : ℕ → Runtime → Access
access slot_id r = record {
  user = elim (lookup slot_id r.slots) [ none ↦ none | some slot ↦ slot.logged_in_user ];
  session = λ h. elim (lookup h r.sessions) [
    | none ↦ none
    | some s ↦ if s.slot_id == slot_id then some (is_rw s.flags) else none
  ];
}

-- The calls on sessions and logins.
pub data AccessCall : Type 0 where
  opening : (slot_id flags : ℕ) (has_out : Bool) → AccessCall
  closing : (h : ℕ) → AccessCall
  closing_all : (slot_id : ℕ) → AccessCall
  logging_in : (h user : ℕ) (pin : Array ℕ) → AccessCall
  logging_out : (h : ℕ) → AccessCall

-- Whether a call succeeds, and the registry that it leaves.
abbrev pub outcome : {A : Type 0} → Result A × Runtime → Bool × Runtime
outcome (x, r) = (is_ok x, r)

unfoldable pub called : AccessCall → Runtime → Bool × Runtime
called (opening slot_id flags has_out) r = outcome (open_session slot_id flags has_out r)
called (closing h) r = outcome (close_session h r)
called (closing_all slot_id) r = outcome (close_all_sessions slot_id r)
called (logging_in h user pin) r = outcome (login h user pin r)
called (logging_out h) r = outcome (logout h r)

-- The session is open in the token.
abbrev pub is_open_in : ℕ → ℕ → Runtime → Bool
is_open_in slot_id h r = elim (lookup h r.sessions) [ none ↦ false | some s ↦ s.slot_id == slot_id ]

-- The token is the one that the call names, or that its session is open in.
unfoldable pub concerns : ℕ → AccessCall → Runtime → Bool
concerns slot_id (opening id flags has_out) r = id == slot_id
concerns slot_id (closing h) r = is_open_in slot_id h r
concerns slot_id (closing_all id) r = id == slot_id
concerns slot_id (logging_in h user pin) r = is_open_in slot_id h r
concerns slot_id (logging_out h) r = is_open_in slot_id h r

abbrev pub Same : Access → Access → Type 0
Same a b = (b.user ≡ a.user) × ((j : ℕ) → b.session j ≡ a.session j)

-- What a call that succeeds does to the access of its token.
pub data Moves (a b : Access) : AccessCall → Type 0 where
  -- The security officer never gets a read-only session beside the own one.
  opens :
      (slot_id flags h : ℕ) (has_out : Bool)
      → a.session h ≡ none
      → (is_rw flags ≡ false → a.user ≢ some cku_so)
      → b.user ≡ a.user
      → ((j : ℕ) → b.session j ≡ (if h == j then some (is_rw flags) else a.session j))
      → Moves a b (opening slot_id flags has_out)
  -- The login outlives a session only while another one is open.
  closes :
      (h other : ℕ)
      → a.session h ≢ none
      → b.session other ≢ none
      → b.user ≡ a.user
      → ((j : ℕ) → b.session j ≡ (if h == j then none else a.session j))
      → Moves a b (closing h)
  closes_last :
      (h : ℕ)
      → a.session h ≢ none
      → ((j : ℕ) → (h == j) ≡ false → a.session j ≡ none)
      → b.user ≡ none
      → ((j : ℕ) → b.session j ≡ none)
      → Moves a b (closing h)
  empties :
      (slot_id : ℕ)
      → b.user ≡ none
      → ((j : ℕ) → b.session j ≡ none)
      → Moves a b (closing_all slot_id)
  logs_in :
      (h user : ℕ) (pin : Array ℕ)
      → a.user ≡ none
      → a.session h ≢ none
      → (user ≡ cku_so → (j : ℕ) → a.session j ≢ some false)
      → b.user ≡ some user
      → ((j : ℕ) → b.session j ≡ a.session j)
      → Moves a b (logging_in h user pin)
  logs_out :
      (h : ℕ)
      → a.user ≢ none
      → a.session h ≢ none
      → b.user ≡ none
      → ((j : ℕ) → b.session j ≡ a.session j)
      → Moves a b (logging_out h)

-- A call that succeeds moves its token and leaves the others; one that fails leaves all.
abbrev pub Does : ℕ → AccessCall → Runtime → Bool × Runtime → Type 0
Does slot_id call r (done, r') =
    (concerns slot_id call r ≡ true
      → done ≡ true
      → Moves (access slot_id r) (access slot_id r') call)
    × (concerns slot_id call r ≡ false → Same (access slot_id r) (access slot_id r'))
    × (done ≡ false → Same (access slot_id r) (access slot_id r'))
