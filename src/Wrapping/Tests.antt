-- ===== src/Wrapping/Tests.antt =====
-- Examples: a carrier that puts eight bytes in front, an AES key that wraps and a key that is wrapped.
use pkcs11hsmsim.Base.{
  length, zero, suc, ℕ, ◌≤◌, ◌≡◌, refl, true, false, none, some, [], ◌∷◌, ◌++◌, Bytes, null, items,
  arith, replicate, drop, any_of, length-append, if◌then◌else◌,
}
use pkcs11hsmsim.Base.Dict.{lookup}
use pkcs11hsmsim.Ck.{cko_secret_key, ckk_aes, cka_extractable, cka_sensitive, ckm_aes_key_wrap}
use pkcs11hsmsim.Result.{ok, err, buffer_too_small}
use pkcs11hsmsim.Openssl.{KeyCarrier}
use pkcs11hsmsim.Core.{find_object, require_user_login}
use pkcs11hsmsim.Core.State.{Object, Runtime, no_object}
use pkcs11hsmsim.Core.Invariant.{IsValid}
use pkcs11hsmsim.Core.Examples.{office, office-IsValid, mute, scribe}
use pkcs11hsmsim.Policy.Values.{policy_value, default_policy, one_of}
use pkcs11hsmsim.Signatures.{Mechanism}
use pkcs11hsmsim.Wrapping.{aes_key_wrap, run_wrap, wrap_status, serialize_key, wrap_key, wrappable}
use pkcs11hsmsim.Wrapping.Protocol.{Shrinks, Wraps, aes_key_wrap-query, aes_key_wrap-inverse}
use pkcs11hsmsim.Wrapping.Unwrapping.{unwrap_key}
use pkcs11hsmsim.Wrapping.Unwrapping.Calling.{
  WrapAllowed, wrap_key-WrapAllowed, UnwrapCall, unwrap_key-UnwrapCall,
}

abbrev front : Bytes
front = replicate 8 166

abbrev mover : KeyCarrier
mover = record {
  pkcs8 = λ key. none;
  parse_pkcs8 = λ bytes. none;
  has_cipher = λ padded key. true;
  wrap = λ padded key raw. if padded then none else some (front ++ raw);
  unwrap = λ padded key c. if padded then none else some (drop 8 c);
}

length-drop : (n : ℕ) (xs : Bytes) → length (drop n xs) ≤ length xs
length-drop zero xs = omega arith
length-drop (suc n) [] = omega arith
length-drop (suc n) (x ∷ xs) = omega (arith, length-drop n xs)

mover-Wraps : Wraps mover
mover-Wraps = record {
  size = λ padded key raw c made. ground (arith, made, length-append front raw);
  inverse = λ padded key raw c made. ground (arith, made);
}

abbrev wrapping : Mechanism
wrapping = record { mechanism = ckm_aes_key_wrap; parameter = null 0 }

abbrev carrier_key : Object
carrier_key = record no_object {
  handle = 2;
  slot_id = 1;
  object_class = cko_secret_key;
  key_type = ckk_aes;
  secret_value = replicate 16 3;
  owner_session = 1;
}

abbrev cargo : Object
cargo = record carrier_key {
  handle = 1;
  secret_value = replicate 16 5;
  policy = (cka_sensitive, false) ∷ (cka_extractable, true) ∷ [];
}

abbrev dock : Runtime
dock = record office { objects = (1, cargo) ∷ (2, carrier_key) ∷ [] }

dock-IsValid : IsValid dock
unfolding lookup any_of
dock-IsValid = record {
  first_handles = office-IsValid.first_handles;
  unique_slots = office-IsValid.unique_slots;
  unique_objects = ground arith;
  unique_sessions = office-IsValid.unique_sessions;
  sessions_ok = office-IsValid.sessions_ok;
  objects_ok = ground arith;
  slots_ok = office-IsValid.slots_ok;
}

mover-Shrinks : Shrinks mover
mover-Shrinks padded key raw c made = ground (arith, made, length-drop 8 c)

aes_key_wrap-query_example :
    aes_key_wrap mover false (some wrapping) carrier_key (replicate 16 5) true 20
    ≡ record { status = err buffer_too_small; length = 24; written = [] }
unfolding aes_key_wrap run_wrap wrap_status
aes_key_wrap-query_example =
    (aes_key_wrap-query mover mover-Wraps mover-Shrinks false (some wrapping) carrier_key
        (replicate 16 5) 0 24 20 refl).0
      (ground arith)

aes_key_wrap-inverse_example :
    aes_key_wrap mover true (some wrapping) carrier_key (front ++ replicate 16 5) true 24
    ≡ record { status = ok tt; length = 16; written = replicate 16 5 }
unfolding aes_key_wrap run_wrap wrap_status
aes_key_wrap-inverse_example =
    aes_key_wrap-inverse mover mover-Wraps carrier_key (replicate 16 5) (front ++ replicate 16 5)
      (some wrapping) 24 refl (ground arith)

wrap_key-WrapAllowed_example :
    (wrapping_key : Object) × (key : Object) × (room : ℕ) × WrapAllowed 1 2 1 dock wrapping_key key
    × (record { status = ok tt; length = 24; written = front ++ replicate 16 5 }
        ≡ aes_key_wrap mover false (some wrapping) wrapping_key (serialize_key mover key) true room)
unfolding wrap_key wrappable aes_key_wrap run_wrap wrap_status lookup find_object require_user_login
    policy_value default_policy one_of serialize_key any_of
wrap_key-WrapAllowed_example =
    wrap_key-WrapAllowed mover 1 (some wrapping) 2 1 true (some 30) dock refl

unwrap_key-UnwrapCall_example :
    UnwrapCall mute scribe mover 1 (some wrapping) 2 dock (front ++ replicate 16 5) (
      unwrap_key mute scribe mover 1
        (some wrapping)
        2
        (items (front ++ replicate 16 5))
        (items [])
        true
        dock)
unwrap_key-UnwrapCall_example =
    unwrap_key-UnwrapCall mute scribe mover 1 (some wrapping) 2 dock (front ++ replicate 16 5)
      (items []) true dock-IsValid (ground arith)
