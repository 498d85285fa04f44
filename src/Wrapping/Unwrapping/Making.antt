-- ===== src/Wrapping/Unwrapping/Making.antt =====
-- UnwrapKey: the key that it makes, or an error.
use pkcs11hsmsim.Base.{
  ℕ, ◌+◌, ◌<◌, ◌≡◌, refl, ap, sym, Bool, true, not, ◌||◌, some, Bytes, arith, ◌==◌, length,
  value_or, ◌⊎◌, inl, inr, Bool-cases,
}
use pkcs11hsmsim.Base.Dict.{lookup}
use pkcs11hsmsim.Ck.{ulong_mod, cko_private_key, cko_secret_key, cka_class, cka_id, cka_value_len}
use pkcs11hsmsim.Result.{
  Rv, Result, ok, err, outcome-lift, outcome-need, outcome-refuse_if, outcome-when,
  template_inconsistent, data_invalid, key_size_range,
}
use pkcs11hsmsim.Openssl.{KeyReader, KeyWriter, KeyCarrier}
use pkcs11hsmsim.Disk.{Disk}
use pkcs11hsmsim.Core.State.{Slot, Object, Session, Runtime}
use pkcs11hsmsim.Core.{session_slot}
use pkcs11hsmsim.Core.Invariant.{IsValid}
use pkcs11hsmsim.Core.Moves.{moved-IsValid}
use pkcs11hsmsim.Core.Placing.{session_slot-placed}
use pkcs11hsmsim.Mechanisms.{key_type}
use pkcs11hsmsim.Template.{Template, template_unsigned, template_string}
use pkcs11hsmsim.Policy.Creation.{apply_creation_template}
use pkcs11hsmsim.Policy.Creation.Application.{
  apply_creation_template_lem, apply_creation_template-others,
}
use pkcs11hsmsim.KeyStore.Saving.{next_handle}
use pkcs11hsmsim.KeyStore.Created.{
  Creation, counted, unchanged-Creation, counted-Creation, publish_secret-Creation,
}
use pkcs11hsmsim.KeyStore.KeyPairs.{save_key_pair}
use pkcs11hsmsim.KeyStore.KeyPairs.Saved.{save_key_pair-disk}
use pkcs11hsmsim.KeyStore.KeyPairs.Publishing.{publish_pair, pair_path}
use pkcs11hsmsim.KeyStore.KeyPairs.Outcome.{NoneAdded, NoneAdded-map, PairOutcome}
use pkcs11hsmsim.KeyStore.KeyPairs.Atomic.{publish_pair-Outcome}
use pkcs11hsmsim.Generation.{is_aes_size}
use pkcs11hsmsim.Generation.Pairs.{policy_object, settle_private}
use pkcs11hsmsim.Wrapping.Unwrapping.{
  unwrapped_key, unwrapped_label, unwrap_secret, settle_unwrapped, keep_unwrapped, unwrap_private,
  unwrap_raw,
}

module _ (reader : KeyReader) (writer : KeyWriter) (carrier : KeyCarrier) (h : ℕ) (raw : Bytes)
    (session : Session) (r : Runtime) where
  -- A key of the session's slot that holds the bytes.
  pub record Holds (o : Object) : Type 0 where
    pub place : o.slot_id ≡ session.slot_id
    pub owner : o.owner_session == 0 || o.owner_session == h ≡ true
    pub value :
        ((o.object_class ≡ cko_secret_key)
          × (o.secret_value ≡ raw)
          × (is_aes_size (length raw) ≡ true))
        ⊎ ((o.object_class ≡ cko_private_key) × (o.asymmetric_key ≡ carrier.parse_pkcs8 raw))

  -- From the bytes on: after an error there is no new object, unless OpenSSL cannot make the public part
  -- of the private key that the bytes mean.
  unfoldable pub Unwrapped : Result ℕ × Runtime → Type 0
  Unwrapped (ok k, r') =
      (o : Object) × Holds o
      × (k ≡ r.next_object_handle)
      × (lookup k r'.objects ≡ some o)
      × IsValid r'
  Unwrapped (err e, r') =
      NoneAdded writer (λ key. carrier.parse_pkcs8 raw ≡ some key) r r'
      × (r' ≡ record r {
        next_object_handle = r'.next_object_handle;
        objects = r'.objects;
        disk = r'.disk;
      })
      × IsValid r'

  pub unchanged-Unwrapped : (e : Rv) → IsValid r → Unwrapped (err e, r)
  unfolding Unwrapped
  unchanged-Unwrapped e v = (inl (λ j w there. there), refl, v)

  Creation-Unwrapped : (x : Result ℕ × Runtime) → Creation Holds r x → Unwrapped x
  unfolding Creation Unwrapped
  Creation-Unwrapped (ok k, r') (o, holds, created, valid) =
      (o, holds, created.handle, created.there, valid)
  Creation-Unwrapped (err e, r') (failed, valid) = (inl failed.nothing_new, failed.same, valid)

  module _ (attributes : Template) (v : IsValid r)
      (found : lookup h r.sessions ≡ some session) where
    unwrap_secret-Creation :
        r.next_object_handle + 1 < ulong_mod → Creation Holds r (unwrap_secret h attributes raw r)
    unfolding unwrap_secret next_handle unwrapped_key
    unwrap_secret-Creation room =
        let Q = Creation Holds r in
        let base = counted r in
        let failed : (e : Rv) → Q (err e, base) = λ e. counted-Creation Holds r v room e in
        outcome-refuse_if Q (not (is_aes_size (length raw))) key_size_range _ r
          (unchanged-Creation Holds r v key_size_range)
          (λ sized.
            outcome-lift Q (session_slot h base) _ base (λ e _. failed e)
              (λ slot slot_found.
                let plain = unwrapped_key r.next_object_handle slot.directory attributes raw in
                outcome-lift Q (apply_creation_template plain h attributes true base) _ base
                  (λ e _. failed e)
                  (λ o done.
                    let a = apply_creation_template_lem plain h attributes true base found done in
                    let same = apply_creation_template-others plain h attributes true base done in
                    let owner : o.owner_session == 0 || o.owner_session == h ≡ true =
                      ground (arith, a.6) in
                    outcome-refuse_if Q
                      (not (
                        value_or (template_unsigned attributes cka_value_len) (length raw)
                        == length raw))
                      template_inconsistent _ base (failed template_inconsistent)
                      (λ _.
                        publish_secret-Creation Holds r v room (o.owner_session == 0) o h found
                          (ap (λ x. x.handle) same) a.5 refl owner
                          (record {
                            place = a.5;
                            owner = owner;
                            value = inl (a.10, a.8, ground (arith, sized));
                          })))))

    module _ (room : r.next_object_handle + 2 < ulong_mod) (key type : ℕ) {policy : Object}
        (parsed : carrier.parse_pkcs8 raw ≡ some key)
        (applied : apply_creation_template (policy_object cko_private_key type) h attributes true r
          ≡ ok policy) where
      abbrev stored : Bool
      stored = policy.owner_session == 0

      abbrev label : Bytes
      label = unwrapped_label attributes

      abbrev id_of : Bytes → Bytes
      id_of own = template_string attributes cka_id own

      owned : policy.owner_session == 0 || policy.owner_session == h ≡ true
      owned =
          let a =
            apply_creation_template_lem (policy_object cko_private_key type) h attributes true r
              found applied in
          ground (arith, a.6)

      PairOutcome-Unwrapped :
          (slot : Slot) (d : Disk) (x : Result ℕ × Runtime)
          → slot.id ≡ session.slot_id
          → PairOutcome reader writer slot label key stored id_of
              (settle_private policy)
              (settle_unwrapped policy)
              (record r { disk = d })
              x
          → Unwrapped x
      unfolding PairOutcome Unwrapped
      PairOutcome-Unwrapped slot d (err e, r') placed (nothing_new, same, valid) = (
        NoneAdded-map writer (λ k. k ≡ key) (λ k. carrier.parse_pkcs8 raw ≡ some k) r r'
            (λ k e. rw e parsed) nothing_new,
        same,
        valid,
      )
      PairOutcome-Unwrapped slot d (ok k, r') placed (id, part, digested, made, pair, kept, valid) =
          (
            _,
            record { place = placed; owner = owned; value = inr (refl, sym parsed) },
            pair.handle,
            pair.there_private,
            valid,
          )

      published :
          (slot : Slot) (d : Disk)
          → session_slot h r ≡ ok slot
          → Unwrapped (
              publish_pair reader writer slot label key stored id_of
                (settle_private policy)
                (settle_unwrapped policy)
                (record r { disk = d }))
      published slot d slot_found =
          let base = record r { disk = d } in
          let placed = session_slot-placed h r v found slot_found in
          PairOutcome-Unwrapped slot d
            (publish_pair reader writer slot label key stored id_of (settle_private policy)
              (settle_unwrapped policy) base)
            placed
            (publish_pair-Outcome reader writer slot label key stored id_of (settle_private policy)
              (settle_unwrapped policy) base (moved-IsValid d r v) room h found placed
              (λ o. (refl, refl, owned, λ e. ground (arith, e)))
              (λ id o. (refl, refl, owned, λ e. ground (arith, e))))

      keep_unwrapped-Unwrapped :
          Unwrapped (keep_unwrapped reader writer carrier h attributes key policy r)
      unfolding keep_unwrapped Unwrapped
      keep_unwrapped-Unwrapped =
          outcome-lift Unwrapped (session_slot h r) _ r (λ e _. unchanged-Unwrapped e v)
            (λ slot slot_found.
              let save = save_key_pair reader writer slot (pair_path slot label) key label in
              let base = (save r).1 in
              let unchanged =
                save_key_pair-disk reader writer slot (pair_path slot label) key label r in
              outcome-when Unwrapped stored save
                (publish_pair reader writer slot label key stored id_of (settle_private policy)
                  (settle_unwrapped policy))
                r (λ _. published slot r.disk slot_found)
                (λ _ e refused.
                  rw unchanged (inl (λ j w there. there), refl, moved-IsValid base.disk r v))
                (λ _ done. rw unchanged (published slot base.disk slot_found)))

    pub unwrap_raw-Unwrapped :
        r.next_object_handle + 2 < ulong_mod
        → Unwrapped (unwrap_raw reader writer carrier h attributes raw r)
    unfolding unwrap_raw unwrap_private
    unwrap_raw-Unwrapped room =
        let cls = value_or (template_unsigned attributes cka_class) cko_secret_key in
        let failed : (e : Rv) → Unwrapped (err e, r) = λ e. unchanged-Unwrapped e v in
        let secret =
          Creation-Unwrapped (unwrap_secret h attributes raw r)
            (unwrap_secret-Creation (omega (arith, room))) in
        let private : Unwrapped (unwrap_private reader writer carrier h attributes raw r) =
          outcome-need Unwrapped (carrier.parse_pkcs8 raw) data_invalid _ r (failed data_invalid)
            (λ key parsed.
              let type = key_type reader key in
              outcome-lift Unwrapped
                (apply_creation_template (policy_object cko_private_key type) h attributes true r) _
                r (λ e _. failed e)
                (λ policy applied. keep_unwrapped-Unwrapped room key type parsed applied)) in
        elim (Bool-cases (cls == cko_secret_key)) [
          | inl is_secret ↦ rw is_secret secret
          | inr other ↦ rw other (
              outcome-refuse_if Unwrapped (not (cls == cko_private_key)) template_inconsistent
                (unwrap_private reader writer carrier h attributes raw) r
                (failed template_inconsistent) (λ _. private))
        ]
