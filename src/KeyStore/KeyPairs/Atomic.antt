-- ===== src/KeyStore/KeyPairs/Atomic.antt =====
-- The publication of a key pair: both objects, or an error.
use pkcs11hsmsim.Base.{
  ℕ, ◌+◌, ◌<◌, ◌≡◌, refl, ap, sym, ◌∙◌, Bool, true, false, none, some, [], Bytes, arith, inl, inr,
  Option-cases, Bool-cases, if◌then◌else◌, ◌==◌,
}
use pkcs11hsmsim.Base.Dict.{lookup, lookup-adjust}
use pkcs11hsmsim.Ck.{ulong_mod}
use pkcs11hsmsim.Result.{Rv, Result, err, pure, outcome->>=, ◌>>◌}
use pkcs11hsmsim.Openssl.{KeyReader, KeyWriter}
use pkcs11hsmsim.Core.State.{Slot, Object, Session, Runtime}
use pkcs11hsmsim.Core.Invariant.{IsValid}
use pkcs11hsmsim.Core.Placing.{next-free}
use pkcs11hsmsim.KeyStore.{persist_metadata, collect_metadata}
use pkcs11hsmsim.Disk.{file}
use pkcs11hsmsim.Metadata.Others.{create-key_file}
use pkcs11hsmsim.KeyStore.Kept.{persist_metadata-IsValid}
use pkcs11hsmsim.KeyStore.Published.{persist_metadata-done, persist_metadata-failed}
use pkcs11hsmsim.KeyStore.KeyPairs.Publishing.{publish_pair, pair_path, pair_folder, pair_name}
use pkcs11hsmsim.KeyStore.KeyPairs.Registering.{
  register_key_pair-both, register_key_pair-private, register_key_pair-undigested,
}
use pkcs11hsmsim.KeyStore.KeyPairs.Settling.{
  with_id, settle-done, settle-failed, half_settled, half_settled-IsValid,
}
use pkcs11hsmsim.KeyStore.KeyPairs.Outcome.{
  NoneAdded, Orphaned, Keeps, PairOutcome, private_object, next, r1, r2, r1-IsValid, lookup-r1,
  k-apart, private_there, public_there, final, final-IsValid, final-PairMade, erased-NothingNew,
}

module _ (reader : KeyReader) (writer : KeyWriter) (slot : Slot) (label : Bytes) (key : ℕ)
    (stored : Bool) (id_of : Bytes → Bytes) (f : Object → Object) (g : Bytes → Object → Object)
    (r : Runtime) (v : IsValid r) (room : r.next_object_handle + 2 < ulong_mod) (h : ℕ)
    {s : Session} (found : lookup h r.sessions ≡ some s) (placed : slot.id ≡ s.slot_id)
    (f_keeps : (o : Object) → Keeps stored h o (f o))
    (g_keeps : (id : Bytes) (o : Object) → Keeps stored h o (g id o)) where
  abbrev Q : Result ℕ × Runtime → Type 0
  Q = PairOutcome reader writer slot label key stored id_of f g r

  abbrev k : ℕ
  k = r.next_object_handle

  abbrev k' : ℕ
  k' = next reader writer slot label key stored id_of f g r v room h found placed f_keeps g_keeps

  abbrev half : Bytes → Runtime
  half = r1 reader writer slot label key stored id_of f g r v room h found placed f_keeps g_keeps

  abbrev both : Bytes → ℕ → Runtime
  both = r2 reader writer slot label key stored id_of f g r v room h found placed f_keeps g_keeps

  abbrev done : Bytes → ℕ → Runtime
  done = final reader writer slot label key stored id_of f g r v room h found placed f_keeps g_keeps

  failed :
      (id : Bytes) (part : ℕ) (e : Rv)
      → stored ≡ true
      → (persist_metadata (pair_path slot label) (done id part)).0 ≡ err e
      → Q (err e, (persist_metadata (pair_path slot label) (done id part)).1)
  unfolding PairOutcome
  failed id part e token refused =
      let path = pair_path slot label in
      let base = done id part in
      let gone = persist_metadata-failed path base refused in
      (
        inl (λ j w. rw gone (λ there.
            erased-NothingNew reader writer slot label key stored id_of f g r v room h found placed
              f_keeps g_keeps id part token j w there)),
        rw gone refl,
        persist_metadata-IsValid path base (
            final-IsValid reader writer slot label key stored id_of f g r v room h found placed
              f_keeps g_keeps id part),
      )

  module _ (id : Bytes) (part : ℕ) (digested : writer.digest (pair_name label) ≡ some id)
      (made : writer.public_part key ≡ some part) where
    persisted :
        stored ≡ true → Q ((persist_metadata (pair_path slot label) >> pure k) (done id part))
    unfolding PairOutcome
    persisted token =
        let path = pair_path slot label in
        let base = done id part in
        outcome->>= Q (persist_metadata path) (λ _. pure k) base
          (λ e refused. failed id part e token refused)
          (λ _ accepted.
            let kept = persist_metadata-done path base accepted in
            (
              id,
              part,
              digested,
              made,
              final-PairMade reader writer slot label key stored id_of f g r v room h found placed
                  f_keeps g_keeps id part (persist_metadata path base).1 kept.0,
              sym (ap (λ x. file path x.1) kept.1)
                  ∙ create-key_file path (collect_metadata path none base) false base.disk,
              persist_metadata-IsValid path base (
                  final-IsValid reader writer slot label key stored id_of f g r v room h found
                    placed f_keeps g_keeps id part),
            ))

    -- After both objects are settled.
    kept_pair : Q (
        ((if stored then persist_metadata (pair_path slot label) else pure tt) >> pure k)
          (done id part))
    unfolding PairOutcome
    kept_pair = elim (Bool-cases stored) [
      | inr session ↦ ground (
        arith,
        session,
        final-PairMade reader writer slot label key stored id_of f g r v room h found placed f_keeps
            g_keeps id part (done id part) refl,
        final-IsValid reader writer slot label key stored id_of f g r v room h found placed f_keeps
            g_keeps id part,
        digested,
        made,
      )
      | inl token ↦ ground (arith, token, persisted token)
    ]

  abbrev alone : Bytes → Object
  alone id = private_object reader writer slot label key stored id_of f g r id

  -- The public part cannot be made: the private object stays, with its id.
  module _ (id : Bytes) where
    half-IsValid : IsValid (half id)
    half-IsValid =
        r1-IsValid reader writer slot label key stored id_of f g r v room h found placed f_keeps
          g_keeps id

    half-apart : (k == k') ≡ false
    half-apart =
        k-apart reader writer slot label key stored id_of f g r v room h found placed f_keeps
          g_keeps id

    lookup-half :
        (j : ℕ)
        → lookup j (half id).objects ≡ (if k == j then some (alone id) else lookup j r.objects)
    lookup-half =
        lookup-r1 reader writer slot label key stored id_of f g r v room h found placed f_keeps
          g_keeps id

    half-there : lookup k (half id).objects ≡ some (alone id)
    half-there = ground (arith, lookup-half k)

    half-Orphaned : Orphaned key r (half_settled k k' id_of f g (half id) half-apart half-there)
    half-Orphaned =
        let change = with_id (id_of (alone id).id) in
        (
          (
            change (alone id),
            ground (arith, half-there, lookup-adjust k k change (half id).objects),
            refl,
          ),
          λ j other.
              ground (arith, other, lookup-half j, lookup-adjust j k change (half id).objects),
        )

    half_kept :
        writer.digest (pair_name label) ≡ some id
        → writer.public_part key ≡ none
        → Q (publish_pair reader writer slot label key stored id_of f g r)
    unfolding PairOutcome publish_pair
    half_kept digested missing =
        let absent : lookup k' (half id).objects ≡ none = next-free (half id) half-IsValid in
        let left : NoneAdded writer (λ made. made ≡ key) r
            (half_settled k k' id_of f g (half id) half-apart half-there) =
          inr (key, refl, missing, half-Orphaned) in
        ground (
          arith,
          missing,
          left,
          register_key_pair-private reader writer slot.id label (pair_folder slot) (pair_name label)
              id key r digested missing,
          settle-failed k k' id_of f g (half id) half-apart half-there absent,
          half_settled-IsValid k k' id_of f g (half id) half-apart half-there half-IsValid,
        )

  -- While handles do not wrap around, in a valid registry and for a live session: a key pair is published
  -- as two objects under the next two handles, or there is an error; after an error there is no new
  -- object, unless OpenSSL cannot make the public part of the key: then it is the private object alone.
  pub publish_pair-Outcome : Q (publish_pair reader writer slot label key stored id_of f g r)
  unfolding PairOutcome publish_pair
  publish_pair-Outcome = elim (Option-cases (writer.digest (pair_name label))) [
    | inl undigested ↦
        rw
          (register_key_pair-undigested reader writer slot.id label (pair_folder slot)
            (pair_name label) [] key r undigested)
          (inl (λ j w there. there), refl, v)
    | inr (id, digested) ↦ elim (Option-cases (writer.public_part key)) [
      | inl missing ↦ half_kept id digested missing
      | inr (part, made) ↦
          rw
            (register_key_pair-both reader writer slot.id label (pair_folder slot) (pair_name label)
              id key r part digested made)
            (rw
              (settle-done k k' id_of f g (both id part)
                (k-apart reader writer slot label key stored id_of f g r v room h found placed
                  f_keeps g_keeps id)
                (private_there reader writer slot label key stored id_of f g r v room h found placed
                  f_keeps g_keeps id part)
                (public_there reader writer slot label key stored id_of f g r v room h found placed
                  f_keeps g_keeps id part))
              (kept_pair id part digested made))
    ]
  ]
