-- ===== src/Calls/Making.antt =====
-- The calls that make keys keep the registry well formed.
use pkcs11hsmsim.Base.{ℕ, ◌+◌, ◌<◌, Bool, Option, some, Bytes, items, arith}
use pkcs11hsmsim.Ck.{ulong_mod}
use pkcs11hsmsim.Result.{Result, ok, err}
use pkcs11hsmsim.Openssl.{KeyReader, KeyWriter, KeyMaker, KeyCarrier}
use pkcs11hsmsim.Core.State.{Object, Runtime}
use pkcs11hsmsim.Core.Invariant.{IsValid}
use pkcs11hsmsim.Signatures.{Mechanism}
use pkcs11hsmsim.Template.{Template}
use pkcs11hsmsim.KeyStore.Created.{Creation}
use pkcs11hsmsim.Generation.{generate_key}
use pkcs11hsmsim.Generation.Making.{GeneratedKey, generate_key-Creation}
use pkcs11hsmsim.Generation.Pairs.{generate_key_pair}
use pkcs11hsmsim.Generation.Pairs.Keeping.{PairGeneration}
use pkcs11hsmsim.Generation.Pairs.Making.{Drawn, generate_key_pair-PairGeneration}
use pkcs11hsmsim.Derivation.{DeriveMechanism, derive_key}
use pkcs11hsmsim.Derivation.Making.{DerivedKey, derive_key-Creation}
use pkcs11hsmsim.Wrapping.Unwrapping.{unwrap_key}
use pkcs11hsmsim.Wrapping.Unwrapping.Making.{Unwrapped}
use pkcs11hsmsim.Wrapping.Unwrapping.Calling.{UnwrapCall, unwrap_key-UnwrapCall}

Creation-IsValid :
    (P : Object → Type 0) (r : Runtime) (x : Result ℕ × Runtime) → Creation P r x → IsValid x.1
unfolding Creation
Creation-IsValid P r (ok k, r') (o, p, created, valid) = valid
Creation-IsValid P r (err e, r') (failed, valid) = valid

module _ (r : Runtime) (v : IsValid r) (room : r.next_object_handle + 2 < ulong_mod) where
  pub generate_key-IsValid :
      (random : ℕ → Option Bytes) (h : ℕ) (mechanism : Option ℕ) (attributes : Template)
      (has_handle : Bool)
      → IsValid (generate_key random h mechanism attributes has_handle r).1
  generate_key-IsValid random h mechanism attributes has_handle =
      Creation-IsValid (GeneratedKey random h mechanism attributes r) r
        (generate_key random h mechanism attributes has_handle r)
        (generate_key-Creation random h mechanism attributes r (omega (arith, room)) v has_handle)

  pub derive_key-IsValid :
      (encrypt : Bytes → Bytes → Option Bytes) (h : ℕ) (mechanism : DeriveMechanism) (base : ℕ)
      (attributes : Template) (has_handle : Bool)
      → IsValid (derive_key encrypt h (some mechanism) base attributes has_handle r).1
  derive_key-IsValid encrypt h mechanism base attributes has_handle =
      Creation-IsValid (DerivedKey encrypt h base mechanism attributes r) r
        (derive_key encrypt h (some mechanism) base attributes has_handle r)
        (derive_key-Creation encrypt h base mechanism attributes r (omega (arith, room)) v
          has_handle)

  module _ (reader : KeyReader) (writer : KeyWriter) where
    PairGeneration-IsValid :
        (h : ℕ) (public_template private_template : Template) (Made : ℕ → Type 0)
        (x : Result (ℕ × ℕ) × Runtime)
        → PairGeneration reader writer h public_template private_template Made r x
        → IsValid x.1
    unfolding PairGeneration
    PairGeneration-IsValid h public_template private_template Made (ok (k, k'), r')
          (private, public, made, next, pair, valid) =
        valid
    PairGeneration-IsValid h public_template private_template Made (err e, r') (new, same, valid) =
        valid

    pub generate_key_pair-IsValid :
        (maker : KeyMaker) (h : ℕ) (mechanism : Option ℕ)
        (public_template private_template : Template) (has_public has_private : Bool)
        → IsValid
            (generate_key_pair reader writer maker h mechanism public_template private_template
              has_public has_private r).1
    generate_key_pair-IsValid maker h mechanism public_template private_template has_public
          has_private =
        PairGeneration-IsValid h public_template private_template
          (Drawn maker mechanism public_template)
          (generate_key_pair reader writer maker h mechanism public_template private_template
            has_public has_private r)
          (generate_key_pair-PairGeneration reader writer h public_template private_template r maker
            mechanism has_public has_private v room)

    UnwrapCall-IsValid :
        (carrier : KeyCarrier) (h : ℕ) (mechanism : Option Mechanism) (wrapping : ℕ) (bytes : Bytes)
        (x : Result ℕ × Runtime)
        → UnwrapCall reader writer carrier h mechanism wrapping r bytes x
        → IsValid x.1
    unfolding UnwrapCall Unwrapped
    UnwrapCall-IsValid carrier h mechanism wrapping bytes (ok k, r')
          (raw, session, allowed, (o, holds, next, there, valid)) =
        valid
    UnwrapCall-IsValid carrier h mechanism wrapping bytes (err e, r') (new, same, valid) = valid

    pub unwrap_key-IsValid :
        (carrier : KeyCarrier) (h : ℕ) (mechanism : Option Mechanism) (wrapping : ℕ) (bytes : Bytes)
        (attributes : Template) (has_handle : Bool)
        → IsValid
            (unwrap_key reader writer carrier h mechanism wrapping
              (items bytes)
              attributes
              has_handle
              r).1
    unwrap_key-IsValid carrier h mechanism wrapping bytes attributes has_handle =
        UnwrapCall-IsValid carrier h mechanism wrapping bytes
          (unwrap_key reader writer carrier h mechanism wrapping (items bytes) attributes has_handle
            r)
          (unwrap_key-UnwrapCall reader writer carrier h mechanism wrapping r bytes attributes
            has_handle v room)
