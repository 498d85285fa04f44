-- ===== src/Wrapping/Unwrapping/Calling.antt =====
-- UnwrapKey as a call, and the permissions that WrapKey and UnwrapKey ask for.
use pkcs11hsmsim.Base.{
  ℕ, ◌+◌, ◌<◌, ◌≡◌, refl, Bool, true, false, not, ◌||◌, Option, none, some, Bytes, arith, items,
  is_bad, inl, inr, Option-cases,
}
use pkcs11hsmsim.Base.Dict.{lookup}
use pkcs11hsmsim.Ck.{ulong_mod, cka_wrap, cka_unwrap, cka_extractable}
use pkcs11hsmsim.Result.{
  Rv, Result, Result-cases, ok, err, outcome-lift, outcome-need, outcome-refuse_if,
  session_handle_invalid, arguments_bad, key_handle_invalid, key_function_not_permitted,
}
use pkcs11hsmsim.Openssl.{KeyReader, KeyWriter, KeyCarrier}
use pkcs11hsmsim.Core.State.{Object, Session, Runtime}
use pkcs11hsmsim.Core.{find_object, require_user_login}
use pkcs11hsmsim.Core.Invariant.{IsValid}
use pkcs11hsmsim.Signatures.{Mechanism}
use pkcs11hsmsim.Template.{Template}
use pkcs11hsmsim.Policy.Values.{policy_value}
use pkcs11hsmsim.Policy.Creation.{validate_creation_template}
use pkcs11hsmsim.KeyStore.KeyPairs.Outcome.{NoneAdded, NoneAdded-map}
use pkcs11hsmsim.Wrapping.{Output, wrap_key, wrappable, serialize_key, aes_key_wrap}
use pkcs11hsmsim.Wrapping.Unwrapping.{unwrap_key, unwrapped_bytes, unwrap_raw}
use pkcs11hsmsim.Wrapping.Unwrapping.Making.{Unwrapped, unwrap_raw-Unwrapped}

-- Both keys are in the session's slot, the user has access, the wrapping key may wrap and the other may be
-- extracted.
pub record WrapAllowed (h wrapping k : ℕ) (r : Runtime) (wrapping_key key : Object) : Type 0 where
  pub wrapping_found : find_object h wrapping r ≡ some wrapping_key
  pub key_found : find_object h k r ≡ some key
  pub access : require_user_login h r ≡ ok tt
  pub may_wrap : policy_value wrapping_key cka_wrap ≡ true
  pub extractable : policy_value key cka_extractable ≡ true

wrappable-WrapAllowed :
    (carrier : KeyCarrier) (h wrapping k : ℕ) (r : Runtime) {w : Object} {raw : Bytes}
    → wrappable carrier h wrapping k r ≡ ok (w, raw)
    → (key : Object) × WrapAllowed h wrapping k r w key × (raw ≡ serialize_key carrier key)
unfolding wrappable
wrappable-WrapAllowed carrier h wrapping k r {w} {raw} done =
    elim (Option-cases (find_object h wrapping r)) [
      | inl missing ↦ absurd (ground (arith, missing, done))
      | inr (w', there) ↦ elim (Option-cases (find_object h k r)) [
        | inl missing ↦ absurd (ground (arith, there, missing, done))
        | inr (key, key_there) ↦ (
          key,
          record {
            wrapping_found = ground (arith, there, key_there, done);
            key_found = key_there;
            access = ground (arith, there, key_there, done);
            may_wrap = ground (arith, there, key_there, done);
            extractable = ground (arith, there, key_there, done);
          },
          ground (arith, there, key_there, done),
        )
      ]
    ]

-- WrapKey gives out the bytes of a key, or their length, only where it is allowed, and what it gives out is
-- what aesKeyWrap makes of the key's bytes.
pub wrap_key-WrapAllowed :
    (carrier : KeyCarrier) (h : ℕ) (mechanism : Option Mechanism) (wrapping k : ℕ)
    (has_output : Bool) (capacity : Option ℕ) (r : Runtime) {status : Result (Unit {0})}
    {out : Output}
    → wrap_key carrier h mechanism wrapping k has_output capacity r ≡ (status, some out)
    → (wrapping_key : Object) × (key : Object) × (room : ℕ) × WrapAllowed h wrapping k r
        wrapping_key key
      × (out
          ≡ aes_key_wrap carrier false mechanism wrapping_key
              (serialize_key carrier key)
              has_output
              room)
unfolding wrap_key
wrap_key-WrapAllowed carrier h mechanism wrapping k has_output none r done = absurd (ground arith)
wrap_key-WrapAllowed carrier h mechanism wrapping k has_output (some room) r {status} {out} done =
    elim (Result-cases (wrappable carrier h wrapping k r)) [
      | inr (fault, e) ↦ absurd (ground (arith, e, done))
      | inl ((w, raw), e) ↦
          let (key, allowed, same) = wrappable-WrapAllowed carrier h wrapping k r e in
          let result : out ≡ aes_key_wrap carrier false mechanism w raw has_output room =
            ground (arith, e, done) in
          (w, key, room, allowed, rw (← same) result)
    ]

module _ (reader : KeyReader) (writer : KeyWriter) (carrier : KeyCarrier) (h : ℕ)
    (mechanism : Option Mechanism) (wrapping : ℕ) (r : Runtime) where
  -- What UnwrapKey has passed, and the bytes that it takes for the key.
  pub record UnwrapAllowed (bytes raw : Bytes) (session : Session) : Type 0 where
    pub wrapping_key : Object
    pub session_found : lookup h r.sessions ≡ some session
    pub wrapping_found : find_object h wrapping r ≡ some wrapping_key
    pub access : require_user_login h r ≡ ok tt
    pub may_unwrap : policy_value wrapping_key cka_unwrap ≡ true
    pub unwrapped : unwrapped_bytes reader writer carrier mechanism wrapping_key bytes ≡ ok raw

  -- The private key that the unwrapped bytes mean.
  abbrev pub Parsed : Bytes → ℕ → Type 0
  Parsed bytes key =
      (raw : Bytes) × (session : Session) × UnwrapAllowed bytes raw session
      × (carrier.parse_pkcs8 raw ≡ some key)

  unfoldable pub UnwrapCall : Bytes → Result ℕ × Runtime → Type 0
  UnwrapCall bytes (ok k, r') =
      (raw : Bytes) × (session : Session) × UnwrapAllowed bytes raw session
      × Unwrapped reader writer carrier h raw session r (ok k, r')
  UnwrapCall bytes (err e, r') =
      NoneAdded writer (Parsed bytes) r r'
      × (r' ≡ record r {
        next_object_handle = r'.next_object_handle;
        objects = r'.objects;
        disk = r'.disk;
      })
      × IsValid r'

  Unwrapped-UnwrapCall :
      (bytes raw : Bytes) (session : Session) (x : Result ℕ × Runtime)
      → UnwrapAllowed bytes raw session
      → Unwrapped reader writer carrier h raw session r x
      → UnwrapCall bytes x
  unfolding Unwrapped UnwrapCall
  Unwrapped-UnwrapCall bytes raw session (ok k, r') allowed made = (raw, session, allowed, made)
  Unwrapped-UnwrapCall bytes raw session (err e, r') allowed (none_added, same, valid) = (
    NoneAdded-map writer (λ key. carrier.parse_pkcs8 raw ≡ some key) (Parsed bytes) r r'
        (λ key parsed. (raw, session, allowed, parsed)) none_added,
    same,
    valid,
  )

  -- While handles do not wrap around, in a valid registry: UnwrapKey needs a key that may unwrap and a user
  -- that has access; the key that it makes comes in under the next handle, in the session's slot, and holds
  -- the bytes that were unwrapped, as an AES key or as a private key; the registry stays well formed, and
  -- after an error there is no new object, unless OpenSSL cannot make the public part of the
  -- private key that was unwrapped: then the private object of this key alone has come in.
  pub unwrap_key-UnwrapCall :
      (bytes : Bytes) (attributes : Template) (has_handle : Bool)
      → IsValid r
      → r.next_object_handle + 2 < ulong_mod
      → UnwrapCall bytes (
          unwrap_key reader writer carrier h mechanism wrapping
            (items bytes)
            attributes
            has_handle
            r)
  unfolding unwrap_key UnwrapCall
  unwrap_key-UnwrapCall bytes attributes has_handle v room =
      let Q = UnwrapCall bytes in
      let failed : (e : Rv) → Q (err e, r) = λ e. (inl (λ j w there. there), refl, v) in
      outcome-need Q (lookup h r.sessions) session_handle_invalid _ r
        (failed session_handle_invalid)
        (λ session found.
          outcome-refuse_if Q (not has_handle || is_bad attributes) arguments_bad _ r
            (failed arguments_bad)
            (λ _.
              outcome-need Q (find_object h wrapping r) key_handle_invalid _ r
                (failed key_handle_invalid)
                (λ key there.
                  outcome-lift Q (require_user_login h r) _ r (λ e _. failed e)
                    (λ _ access.
                      outcome-refuse_if Q (not (policy_value key cka_unwrap))
                        key_function_not_permitted _ r (failed key_function_not_permitted)
                        (λ allowed.
                          outcome-lift Q (validate_creation_template attributes) _ r
                            (λ e _. failed e)
                            (λ _ _.
                              outcome-lift Q
                                (unwrapped_bytes reader writer carrier mechanism key bytes) _ r
                                (λ e _. failed e)
                                (λ raw unwrapped.
                                  Unwrapped-UnwrapCall bytes raw session
                                    (unwrap_raw reader writer carrier h attributes raw r)
                                    (record {
                                      wrapping_key = key;
                                      session_found = found;
                                      wrapping_found = there;
                                      access = access;
                                      may_unwrap = ground (arith, allowed);
                                      unwrapped = unwrapped;
                                    })
                                    (unwrap_raw-Unwrapped reader writer carrier h raw session r
                                      attributes v found room))))))))
