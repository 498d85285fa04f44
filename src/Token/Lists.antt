-- ===== src/Token/Lists.antt =====
-- GetSlotList and GetTokenInfo.
use pkcs11hsmsim.Base.{
  ℕ, ◌≤◌, ◌<◌, ◌≡◌, refl, true, false, none, some, [], ◌∷◌, length, arith, any_of,
}
use pkcs11hsmsim.Base.Dict.{Dict, lookup, contains, Each-lookup}
use pkcs11hsmsim.Result.{ok, err, buffer_too_small}
use pkcs11hsmsim.Core.State.{Slot, Session, Runtime, in_slot}
use pkcs11hsmsim.Core.{initialization_status}
use pkcs11hsmsim.Core.Invariant.{IsValid, SlotOk}
use pkcs11hsmsim.Policy.Values.{one_of}
use pkcs11hsmsim.Token.{
  keys, get_slot_list, TokenInfo, get_token_info, count_sessions, count_rw_sessions,
}

one_of-keys : (slots : Dict Slot) (id : ℕ) → one_of (keys slots) id ≡ contains id slots
unfolding one_of keys lookup
one_of-keys [] id = refl
one_of-keys ((j, slot) ∷ slots) id = ground (arith, one_of-keys slots id)

length-keys : (slots : Dict Slot) → length (keys slots) ≡ length slots
unfolding keys
length-keys [] = refl
length-keys ((j, slot) ∷ slots) = omega (arith, length-keys slots)

-- A call of `GetSlotList` without a buffer tells a count, and the next call with a buffer of at least
-- that many numbers fills exactly that many, which are the numbers of the slots; a smaller buffer is
-- refused with the same count and nothing written.
pub get_slot_list-fills :
    (capacity : ℕ) (r : Runtime)
    → r.initialized ≡ true
    → ((get_slot_list false true 0 r).status ≡ ok tt)
      × ((get_slot_list false true 0 r).count ≤ capacity
          → ((get_slot_list true true capacity r).status ≡ ok tt)
            × (length (get_slot_list true true capacity r).written
                ≡ (get_slot_list false true 0 r).count)
            × ((id : ℕ)
                → one_of (get_slot_list true true capacity r).written id ≡ contains id r.slots))
      × (capacity < (get_slot_list false true 0 r).count
          → ((get_slot_list true true capacity r).status ≡ err buffer_too_small)
            × ((get_slot_list true true capacity r).count ≡ (get_slot_list false true 0 r).count)
            × ((get_slot_list true true capacity r).written ≡ []))
unfolding get_slot_list initialization_status
get_slot_list-fills capacity r on = (
  refl,
  λ enough. (
    ground arith,
    ground (arith, length-keys r.slots),
    λ id. ground (arith, one_of-keys r.slots id),
  ),
  λ short. (ground arith, ground arith, ground arith),
)

count_sessions-zero :
    (slot_id : ℕ) (sessions : Dict Session)
    → count_sessions slot_id sessions ≡ 0
    → any_of (in_slot slot_id) sessions ≡ false
unfolding count_sessions any_of
count_sessions-zero slot_id [] none_left = refl
count_sessions-zero slot_id ((h, s) ∷ sessions) none_left =
    ground (arith, count_sessions-zero slot_id sessions)

count_rw_sessions-le :
    (slot_id : ℕ) (sessions : Dict Session)
    → count_rw_sessions slot_id sessions ≤ count_sessions slot_id sessions
unfolding count_sessions count_rw_sessions
count_rw_sessions-le slot_id [] = omega arith
count_rw_sessions-le slot_id ((h, s) ∷ sessions) =
    ground (arith, count_rw_sessions-le slot_id sessions)

-- In a well-formed registry `GetTokenInfo` tells of a token at most as many read-write sessions as
-- sessions, and where it tells of none, nobody is logged in to the token.
pub get_token_info-sessions :
    (slot_id : ℕ) (r : Runtime) {slot : Slot} {info : TokenInfo}
    → IsValid r
    → lookup slot_id r.slots ≡ some slot
    → get_token_info slot_id true r ≡ ok info
    → (info.rw_session_count ≤ info.session_count)
      × (info.session_count ≡ 0 → slot.logged_in_user ≡ none)
unfolding get_token_info initialization_status
get_token_info-sessions slot_id r {slot} {info} v there told =
    let old = Each-lookup (SlotOk r.sessions) slot_id slot r.slots v.slots_ok there in
    let counts : (info.session_count ≡ count_sessions slot_id r.sessions)
        × (info.rw_session_count ≡ count_rw_sessions slot_id r.sessions) =
      ground arith in
    (
      omega (arith, counts.0, counts.1, count_rw_sessions-le slot_id r.sessions),
      λ zero_told. ground (arith, counts.0, count_sessions-zero slot_id r.sessions, old.1),
    )
