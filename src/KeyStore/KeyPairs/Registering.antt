-- ===== src/KeyStore/KeyPairs/Registering.antt =====
-- registerKeyPair: which objects it adds, and that it keeps the registry well formed.
use pkcs11hsmsim.Base.{ℕ, ◌+◌, ◌%◌, ◌<◌, ◌≡◌, refl, true, none, some, Bytes, arith}
use pkcs11hsmsim.Base.Text.{join}
use pkcs11hsmsim.Base.Dict.{emplace, contains}
use pkcs11hsmsim.Ck.{cko_private_key, cko_public_key, ulong_mod}
use pkcs11hsmsim.Result.{ok, err, general_error}
use pkcs11hsmsim.Openssl.{KeyReader, KeyWriter}
use pkcs11hsmsim.Core.State.{Object, Runtime}
use pkcs11hsmsim.Core.Invariant.{IsValid}
use pkcs11hsmsim.Core.Placing.{moved_on-IsValid, placed-IsValid}
use pkcs11hsmsim.KeyStore.Saving.{next_handle, add_object}
use pkcs11hsmsim.KeyStore.KeyPairs.{
  pair_object, register_public, register_certificate, register_key_pair,
}

-- With the object registered under the next handle.
abbrev pub joined : Object → Runtime → Runtime
joined o r = record r {
  next_object_handle = (r.next_object_handle + 1) % ulong_mod;
  objects = emplace o.handle o r.objects;
}

pub joined-IsValid :
    (o : Object) (r : Runtime)
    → r.next_object_handle + 1 < ulong_mod
    → o.handle ≡ r.next_object_handle
    → o.owner_session ≡ 0
    → contains o.slot_id r.slots ≡ true
    → IsValid r
    → IsValid (joined o r)
joined-IsValid o r room handle owner slot v =
    let next = (r.next_object_handle + 1) % ulong_mod in
    let given : 0 < o.handle = omega (arith, handle, v.first_handles.1) in
    let below : o.handle < next = omega (arith, handle, room) in
    placed-IsValid o.handle o (record r { next_object_handle = next })
      (refl, given, below, slot, rw owner refl) (moved_on-IsValid next r (omega (arith, room)) v)

module _ (reader : KeyReader) (writer : KeyWriter) (slot_id : ℕ) (label folder name id : Bytes)
    (key : ℕ) (r : Runtime) where
  abbrev pub private_part : Object
  private_part =
      pair_object reader writer r.next_object_handle slot_id cko_private_key label id
        (join folder name) key key

  abbrev pub public_part : ℕ → Object
  public_part part =
      pair_object reader writer ((r.next_object_handle + 1) % ulong_mod) slot_id cko_public_key
        label id (join folder name) key part

  -- Without a certificate.
  pub register_key_pair-both :
      (part : ℕ)
      → writer.digest name ≡ some id
      → writer.public_part key ≡ some part
      → register_key_pair reader writer slot_id label folder name key none r
        ≡ (ok tt, joined (public_part part) (joined private_part r))
  unfolding register_key_pair register_public register_certificate next_handle add_object
  register_key_pair-both part digested made = ground (arith, made, digested)

  pub register_key_pair-private :
      writer.digest name ≡ some id
      → writer.public_part key ≡ none
      → register_key_pair reader writer slot_id label folder name key none r
        ≡ (ok tt, joined private_part r)
  unfolding register_key_pair register_public register_certificate next_handle add_object
  register_key_pair-private digested missing = ground (arith, missing, digested)

  pub register_key_pair-undigested :
      writer.digest name ≡ none
      → register_key_pair reader writer slot_id label folder name key none r
        ≡ (err general_error, r)
  unfolding register_key_pair
  register_key_pair-undigested missing = ground (arith, missing)
