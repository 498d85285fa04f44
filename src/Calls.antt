-- ===== src/Calls.antt =====
-- src/pkcs11/boundary.hpp and src/pkcs11/entry_points.cpp: the exported calls that change the
-- registry, one after the other, since each holds the one lock.
pub mod Signing
pub mod Making
pub mod Keeping
mod Tests
use pkcs11hsmsim.Base.{
  ℕ, ◌+◌, ◌<◌, Bool, true, false, not, ◌&&◌, Option, none, some, List, [], Bytes, Array, items,
  if◌then◌else◌,
}
use pkcs11hsmsim.Ck.{ulong_mod}
use pkcs11hsmsim.Result.{
  Result, ok, err, cryptoki_not_initialized, function_not_supported, arguments_bad, Exec, reject,
  gets, refuse_if, modify, ◌>>=◌, ◌>>◌,
}
use pkcs11hsmsim.Openssl.{KeyReader, KeyWriter, KeyMaker, KeyCarrier}
use pkcs11hsmsim.Generation.{generate_key}
use pkcs11hsmsim.Generation.Pairs.{generate_key_pair}
use pkcs11hsmsim.Derivation.{DeriveMechanism, derive_key}
use pkcs11hsmsim.Wrapping.Unwrapping.{unwrap_key}
use pkcs11hsmsim.Signatures.Execution.{Engine}
use pkcs11hsmsim.Signatures.Finishing.{sign, sign_final, verify, verify_final}
use pkcs11hsmsim.Core.State.{Runtime}
use pkcs11hsmsim.Template.{Template}
use pkcs11hsmsim.Token.{finalize}
use pkcs11hsmsim.Mechanisms.{Digest}
use pkcs11hsmsim.Signatures.{Mechanism, initialize_signature, append_signature_data}
use pkcs11hsmsim.Sessions.{
  open_session, close_session, close_all_sessions, login, logout, init_pin, set_pin,
}
use pkcs11hsmsim.Objects.{destroy_object, find_objects_init, find_objects, find_objects_final}
use pkcs11hsmsim.Attributes.Setting.{set_attribute_value}

-- `invoke`: the lock and the test for initialization; what a handler throws is already an error.
unfoldable pub invoke : {A : Type 0} → Bool → Exec Runtime A → Exec Runtime A
invoke needs_initialization handler r =
    if needs_initialization && not r.initialized
    then (err cryptoki_not_initialized, r)
    else handler r

-- What every function of src/pkcs11/unsupported.cpp does.
unfoldable pub unsupported_operation : Exec Runtime (Unit {0})
unsupported_operation = invoke true (reject function_not_supported)

-- Two more object handles can be given out.
abbrev pub HandlesLeft : Runtime → Type 0
HandlesLeft r = r.next_object_handle + 2 < ulong_mod

-- One exported call and the registry that it leaves. Handles do not wrap around.
pub data Step (reader : KeyReader) : Runtime → Runtime → Type 0 where
  opens :
      (slot_id flags : ℕ) (has_out : Bool) (r : Runtime)
      → r.next_session_handle + 1 < ulong_mod
      → Step reader r (invoke true (open_session slot_id flags has_out) r).1
  closes : (h : ℕ) (r : Runtime) → Step reader r (invoke true (close_session h) r).1
  closes_all :
      (slot_id : ℕ) (r : Runtime) → Step reader r (invoke true (close_all_sessions slot_id) r).1
  logs_in :
      (h user : ℕ) (pin : Array ℕ) (r : Runtime)
      → Step reader r (invoke true (login h user pin) r).1
  logs_out : (h : ℕ) (r : Runtime) → Step reader r (invoke true (logout h) r).1
  inits_pin :
      (h : ℕ) (pin : Array ℕ) (r : Runtime) → Step reader r (invoke true (init_pin h pin) r).1
  sets_pin :
      (h : ℕ) (old_pin new_pin : Array ℕ) (r : Runtime)
      → Step reader r (invoke true (set_pin h old_pin new_pin) r).1
  destroys : (h k : ℕ) (r : Runtime) → Step reader r (invoke true (destroy_object h k) r).1
  sets_attributes :
      (h k : ℕ) (attributes : Template) (r : Runtime)
      → Step reader r (invoke true (set_attribute_value h k attributes) r).1
  starts_search :
      (h : ℕ) (attributes : Template) (r : Runtime)
      → Step reader r (invoke true (find_objects_init reader h attributes) r).1
  pages_search :
      (h : ℕ) (has_objects : Bool) (capacity : ℕ) (has_count : Bool) (r : Runtime)
      → Step reader r (invoke true (find_objects h has_objects capacity has_count) r).1
  starts_signature :
      (digest_size : Digest → ℕ) (h : ℕ) (mechanism : Option Mechanism) (k : ℕ) (verify : Bool)
      (r : Runtime)
      → Step reader r
          (invoke true (initialize_signature reader digest_size h mechanism k verify) r).1
  appends_message :
      (h : ℕ) (input : Array ℕ) (verify : Bool) (r : Runtime)
      → Step reader r (invoke true (append_signature_data h input verify) r).1
  ends_search : (h : ℕ) (r : Runtime) → Step reader r (invoke true (find_objects_final h) r).1
  finalizes :
      (has_reserved : Bool) (r : Runtime) → Step reader r (invoke false (finalize has_reserved) r).1
  fails : (r : Runtime) → Step reader r (unsupported_operation r).1
  generates_key :
      (random : ℕ → Option Bytes) (h : ℕ) (mechanism : Option ℕ) (attributes : Template)
      (has_handle : Bool) (r : Runtime)
      → HandlesLeft r
      → Step reader r (invoke true (generate_key random h mechanism attributes has_handle) r).1
  generates_pair :
      (writer : KeyWriter) (maker : KeyMaker) (h : ℕ) (mechanism : Option ℕ)
      (public_template private_template : Template) (has_public has_private : Bool) (r : Runtime)
      → HandlesLeft r
      → Step reader r
          (invoke true
            (generate_key_pair reader writer maker h mechanism public_template private_template
              has_public has_private)
            r).1
  derives :
      (encrypt : Bytes → Bytes → Option Bytes) (h : ℕ) (mechanism : DeriveMechanism) (base : ℕ)
      (attributes : Template) (has_handle : Bool) (r : Runtime)
      → HandlesLeft r
      → Step reader r
          (invoke true (derive_key encrypt h (some mechanism) base attributes has_handle) r).1
  unwraps :
      (writer : KeyWriter) (carrier : KeyCarrier) (h : ℕ) (mechanism : Option Mechanism)
      (wrapping : ℕ) (bytes : Bytes) (attributes : Template) (has_handle : Bool) (r : Runtime)
      → HandlesLeft r
      → Step reader r
          (invoke true
            (unwrap_key reader writer carrier h mechanism wrapping
              (items bytes)
              attributes
              has_handle)
            r).1
  signs :
      (engine : Engine) (h : ℕ) (input : Array ℕ) (has_signature : Bool) (capacity : Option ℕ)
      (r : Runtime)
      → Step reader r
          (invoke true (λ r. (sign reader engine h input has_signature capacity r).result) r).1
  signs_final :
      (engine : Engine) (h : ℕ) (has_signature : Bool) (capacity : Option ℕ) (r : Runtime)
      → Step reader r
          (invoke true (λ r. (sign_final reader engine h has_signature capacity r).result) r).1
  verifies :
      (engine : Engine) (h : ℕ) (input signature : Array ℕ) (r : Runtime)
      → Step reader r (invoke true (verify reader engine h input signature) r).1
  verifies_final :
      (engine : Engine) (h : ℕ) (signature : Array ℕ) (r : Runtime)
      → Step reader r (invoke true (verify_final reader engine h signature) r).1

-- Any number of calls, in any order, on any handles.
pub data Reaches (reader : KeyReader) : Runtime → Runtime → Type 0 where
  here : (r : Runtime) → Reaches reader r r
  after : (r s t : Runtime) → Reaches reader r s → Step reader s t → Reaches reader r t
