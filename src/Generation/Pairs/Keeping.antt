-- ===== src/Generation/Pairs/Keeping.antt =====
-- GenerateKeyPair: what it makes of the key that OpenSSL has generated.
use pkcs11hsmsim.Base.{
  inl, ℕ, ◌+◌, ◌%◌, ◌<◌, ◌≡◌, refl, Bool, true, none, some, Bytes, arith, ◌==◌, if◌then◌else◌,
}
use pkcs11hsmsim.Base.Dict.{lookup}
use pkcs11hsmsim.Ck.{ulong_mod, is_rw, cko_private_key, cko_public_key, cka_id}
use pkcs11hsmsim.Result.{
  Rv, Result, ok, err, continue, pure, outcome-lift, outcome-when, ◌>>=◌, ◌>>◌,
}
use pkcs11hsmsim.Openssl.{KeyReader, KeyWriter}
use pkcs11hsmsim.Disk.{Disk, file}
use pkcs11hsmsim.Core.State.{Slot, Object, Session, Runtime}
use pkcs11hsmsim.Core.{session_slot, require_user_login}
use pkcs11hsmsim.Core.Invariant.{IsValid}
use pkcs11hsmsim.Core.Moves.{moved-IsValid}
use pkcs11hsmsim.Template.{Template, template_string}
use pkcs11hsmsim.Policy.Creation.{is_token_template, apply_creation_template}
use pkcs11hsmsim.Policy.Creation.Application.{apply_creation_template_lem}
use pkcs11hsmsim.KeyStore.KeyPairs.{save_key_pair}
use pkcs11hsmsim.KeyStore.KeyPairs.Saved.{save_key_pair-disk, save_key_pair-done}
use pkcs11hsmsim.KeyStore.KeyPairs.Publishing.{publish_pair, pair_path}
use pkcs11hsmsim.KeyStore.KeyPairs.Outcome.{
  NoneAdded, NoneAdded-map, PairOutcome, PairMade, Keeps, private_object, public_object,
}
use pkcs11hsmsim.KeyStore.KeyPairs.Settling.{with_id}
use pkcs11hsmsim.Core.Placing.{session_slot-placed}
use pkcs11hsmsim.KeyStore.KeyPairs.Atomic.{publish_pair-Outcome}
use pkcs11hsmsim.Generation.Pairs.{
  keep_pair, policy_object, pair_label, common_id, settle_private, settle_public,
}

-- What a key pair that was generated in the session is, and what the call has passed.
pub record GeneratedPair (reader : KeyReader) (writer : KeyWriter) (h : ℕ)
    (public_template private_template : Template) (Made : ℕ → Type 0) (r r' : Runtime)
    (private public : Object) : Type 0 where
  pub session : Session
  pub slot : Slot
  pub key : ℕ
  pub part : ℕ
  pub session_found : lookup h r.sessions ≡ some session
  pub slot_found : session_slot h r ≡ ok slot
  pub access : require_user_login h r ≡ ok tt
  pub same_token : is_token_template public_template true ≡ is_token_template private_template true
  pub writable : is_token_template private_template true ≡ true → is_rw session.flags ≡ true
  pub classes : (private.object_class ≡ cko_private_key) × (public.object_class ≡ cko_public_key)
  pub keys : (private.asymmetric_key ≡ some key) × (public.asymmetric_key ≡ some part)
  pub made : Made key
  pub related : writer.public_part key ≡ some part
  pub places : (private.slot_id ≡ session.slot_id) × (public.slot_id ≡ session.slot_id)
  pub owners :
      (private.owner_session ≡ (if is_token_template private_template true then 0 else h))
      × (public.owner_session ≡ private.owner_session)
  pub paths : public.path ≡ private.path
  pub public_id : public.id ≡ template_string public_template cka_id private.id
  pub saved :
      (private.owner_session == 0) ≡ true
      → (der : Bytes) × (writer.encode_p12 slot.p12_password private.label key ≡ some der)
        × (file private.path r.disk ≡ none)
        × (file private.path r'.disk ≡ some der)

module _ (reader : KeyReader) (writer : KeyWriter) (h : ℕ)
    (public_template private_template : Template) (Made : ℕ → Type 0) (r : Runtime) where
  -- A call as a whole: after an error there is no new object, unless OpenSSL cannot make the public part
  -- of the key that was made.
  unfoldable pub PairGeneration : Result (ℕ × ℕ) × Runtime → Type 0
  PairGeneration (ok (k, k'), r') =
      (private : Object) × (public : Object) × GeneratedPair reader writer h public_template
        private_template Made r r' private public
      × (k' ≡ k + 1)
      × PairMade private public k r r'
      × IsValid r'
  PairGeneration (err e, r') =
      NoneAdded writer Made r r'
      × (r' ≡ record r {
        next_object_handle = r'.next_object_handle;
        objects = r'.objects;
        disk = r'.disk;
      })
      × IsValid r'

  pub unchanged-PairGeneration : (e : Rv) → IsValid r → PairGeneration (err e, r)
  unfolding PairGeneration
  unchanged-PairGeneration e v = (inl (λ j w there. there), refl, v)

  module _ (v : IsValid r) (room : r.next_object_handle + 2 < ulong_mod) {session : Session}
      (found : lookup h r.sessions ≡ some session) (type key : ℕ) (made_key : Made key)
      {public_policy private_policy : Object}
      (same_token : is_token_template public_template true
        ≡ is_token_template private_template true)
      (public_applied : apply_creation_template
          (policy_object cko_public_key type)
          h
          public_template
          true
          r
        ≡ ok public_policy)
      (private_applied : apply_creation_template
          (policy_object cko_private_key type)
          h
          private_template
          true
          r
        ≡ ok private_policy) where
    abbrev label : Bytes
    label = pair_label public_template private_template

    abbrev stored : Bool
    stored = private_policy.owner_session == 0

    abbrev id_of : Bytes → Bytes
    id_of = common_id public_template private_template

    abbrev g : Bytes → Object → Object
    g = settle_public public_policy private_policy public_template label

    settle_private-Keeps : (o : Object) → Keeps stored h o (settle_private private_policy o)
    settle_private-Keeps o =
        let a =
          apply_creation_template_lem (policy_object cko_private_key type) h private_template true r
            found private_applied in
        (refl, refl, ground (arith, a.6), λ e. ground (arith, e))

    settle_public-Keeps : (id : Bytes) (o : Object) → Keeps stored h o (g id o)
    settle_public-Keeps id o =
        let a =
          apply_creation_template_lem (policy_object cko_public_key type) h public_template true r
            found public_applied in
        (refl, refl, ground (arith, a.6), λ e. ground (arith, e))

    module _ (slot : Slot) (slot_found : session_slot h r ≡ ok slot) where
      abbrev PairStored : Bool → Runtime → Type 0
      PairStored kept r' =
          kept ≡ true
          → (der : Bytes) × (writer.encode_p12 slot.p12_password label key ≡ some der)
            × (file (pair_path slot label) r.disk ≡ none)
            × (file (pair_path slot label) r'.disk ≡ some der)

      -- From what the publication leaves, on the disk that the key file has left.
      PairOutcome-PairGeneration :
          (d : Disk)
          → PairStored stored (record r { disk = d })
          → (x : Result ℕ × Runtime)
          → PairOutcome reader writer slot label key stored id_of
              (settle_private private_policy)
              g
              (record r { disk = d })
              x
          → PairGeneration (continue x.0 (λ k. pure (k, (k + 1) % ulong_mod)) x.1)
      unfolding PairOutcome PairGeneration
      PairOutcome-PairGeneration d saved (err e, r') (nothing_new, same, valid) = (
        NoneAdded-map writer (λ k. k ≡ key) Made r r' (λ k e. rw e made_key) nothing_new,
        same,
        valid,
      )
      PairOutcome-PairGeneration d saved (ok k, r') (id, part, digested, made, pair, kept, valid) =
          let private =
            private_object reader writer slot label key stored id_of (settle_private private_policy)
              g r id in
          let public =
            public_object reader writer slot label key stored id_of (settle_private private_policy)
              g r id part in
          let placed = session_slot-placed h r v found slot_found in
          let a =
            apply_creation_template_lem (policy_object cko_private_key type) h private_template true
              r found private_applied in
          let b =
            apply_creation_template_lem (policy_object cko_public_key type) h public_template true r
              found public_applied in
          (
            settle_private private_policy (with_id (id_of id) private),
            g (id_of id) public,
            record {
              session = session;
              slot = slot;
              key = key;
              part = part;
              session_found = found;
              slot_found = slot_found;
              access = a.3;
              same_token = same_token;
              writable = a.4;
              classes = (refl, refl);
              keys = (refl, refl);
              made = made_key;
              related = made;
              places = (placed, placed);
              owners = (a.6, ground (arith, a.6, b.6, same_token));
              paths = refl;
              public_id = refl;
              saved = λ token. ground (arith, token, saved, kept);
            },
            omega (arith, pair.handle, room),
            record {
              handle = pair.handle;
              there_private = pair.there_private;
              there_public = pair.there_public;
              others = pair.others;
              same = pair.same;
            },
            valid,
          )

      published :
          (d : Disk)
          → PairStored stored (record r { disk = d })
          → PairGeneration (
              (publish_pair reader writer slot label key stored id_of
                    (settle_private private_policy)
                    g
                  >>= λ k. pure (k, (k + 1) % ulong_mod))
                (record r { disk = d }))
      published d saved =
          let base = record r { disk = d } in
          PairOutcome-PairGeneration d saved
            (publish_pair reader writer slot label key stored id_of (settle_private private_policy)
              g base)
            (publish_pair-Outcome reader writer slot label key stored id_of
              (settle_private private_policy) g base (moved-IsValid d r v) room h found
              (session_slot-placed h r v found slot_found) settle_private-Keeps settle_public-Keeps)

      kept : PairGeneration (
          ((if stored
                then save_key_pair reader writer slot (pair_path slot label) key label
                else pure tt)
              >> (publish_pair reader writer slot label key stored id_of
                    (settle_private private_policy)
                    g
                  >>= λ k. pure (k, (k + 1) % ulong_mod)))
            r)
      unfolding PairGeneration
      kept =
          let save = save_key_pair reader writer slot (pair_path slot label) key label in
          let base = (save r).1 in
          let unchanged =
            save_key_pair-disk reader writer slot (pair_path slot label) key label r in
          outcome-when PairGeneration stored save _ r
            (λ session_pair. published r.disk (λ token. ground (arith, token, session_pair)))
            (λ _ e refused.
              rw unchanged (inl (λ j w there. there), refl, moved-IsValid base.disk r v))
            (λ token done.
              let (der, encoded, absent, text) =
                save_key_pair-done reader writer slot (pair_path slot label) key label r done in
              rw unchanged (published base.disk (λ _. (der, encoded, absent, text))))

    pub keep_pair-PairGeneration : PairGeneration (
        keep_pair reader writer h key public_policy private_policy public_template private_template
          r)
    unfolding keep_pair
    keep_pair-PairGeneration =
        outcome-lift PairGeneration (session_slot h r) _ r (λ e _. unchanged-PairGeneration e v)
          (λ slot slot_found. kept slot slot_found)
