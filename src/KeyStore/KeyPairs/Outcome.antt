-- ===== src/KeyStore/KeyPairs/Outcome.antt =====
-- What GenerateKeyPair and UnwrapKey leave once they have a key pair.
use pkcs11hsmsim.Base.{
  ℕ, ◌+◌, ◌%◌, ◌<◌, ◌≡◌, refl, ap, ◌∙◌, Bool, true, false, ◌||◌, some, Bytes, arith, ◌==◌, none,
  ◌⊎◌, inl, inr, erase_if, if◌then◌else◌,
}
use pkcs11hsmsim.Base.Dict.{lookup, contains, Each-lookup, lookup-emplace_new}
use pkcs11hsmsim.Base.Dict.Unique.{lookup-erase_if}
use pkcs11hsmsim.Ck.{ulong_mod}
use pkcs11hsmsim.Result.{Result, ok, err}
use pkcs11hsmsim.Disk.{file}
use pkcs11hsmsim.Disk.Laws.{bytes_eq_refl}
use pkcs11hsmsim.Openssl.{KeyReader, KeyWriter}
use pkcs11hsmsim.Core.State.{Slot, Object, Session, Runtime}
use pkcs11hsmsim.Core.Invariant.{IsValid, SessionOk}
use pkcs11hsmsim.Core.Placing.{next-free, in_session-ObjectOk}
use pkcs11hsmsim.KeyStore.{has_path}
use pkcs11hsmsim.KeyStore.Published.{NothingNew}
use pkcs11hsmsim.KeyStore.KeyPairs.Publishing.{pair_path, pair_folder, pair_name}
use pkcs11hsmsim.KeyStore.KeyPairs.Registering.{joined, joined-IsValid, private_part, public_part}
use pkcs11hsmsim.KeyStore.KeyPairs.Settling.{settled, settled-IsValid, lookup-settled, with_id}

-- Two objects have come in under the handles `k` and `k + 1`, and nothing else has changed but the
-- counter and the files.
pub record PairMade (private public : Object) (k : ℕ) (r r' : Runtime) : Type 0 where
  pub handle : k ≡ r.next_object_handle
  pub there_private : lookup k r'.objects ≡ some private
  pub there_public : lookup (k + 1) r'.objects ≡ some public
  pub others :
      (j : ℕ) → (k == j) ≡ false → (k + 1 == j) ≡ false → lookup j r'.objects ≡ lookup j r.objects
  pub same : r' ≡ record r {
    next_object_handle = r.next_object_handle + 2;
    objects = r'.objects;
    disk = r'.disk;
  }

-- The only object that has come in is the one of the key, under the next handle.
abbrev pub Orphaned : ℕ → Runtime → Runtime → Type 0
Orphaned key r r' =
    ((o : Object) × (lookup r.next_object_handle r'.objects ≡ some o)
      × (o.asymmetric_key ≡ some key))
    × ((j : ℕ) → (r.next_object_handle == j) ≡ false → lookup j r'.objects ≡ lookup j r.objects)

-- No object has come in, but where OpenSSL could not make the public part of the key that was made: then
-- it is the private object of this key.
abbrev pub NoneAdded : KeyWriter → (ℕ → Type 0) → Runtime → Runtime → Type 0
NoneAdded writer Made r r' =
    NothingNew r r' ⊎ ((key : ℕ) × Made key × (writer.public_part key ≡ none) × Orphaned key r r')

pub NoneAdded-map :
    (writer : KeyWriter) (P Q : ℕ → Type 0) (r r' : Runtime)
    → ((key : ℕ) → P key → Q key)
    → NoneAdded writer P r r'
    → NoneAdded writer Q r r'
NoneAdded-map writer P Q r r' f (inl nothing_new) = inl nothing_new
NoneAdded-map writer P Q r r' f (inr (key, p, missing, left)) = inr (key, f key p, missing, left)

-- A change of an object that leaves its handle and its slot, and its path in the token; it belongs to the
-- token or to the session afterwards.
abbrev pub Keeps : Bool → ℕ → Object → Object → Type 0
Keeps stored h o o' =
    (o'.handle ≡ o.handle)
    × (o'.slot_id ≡ o.slot_id)
    × (o'.owner_session == 0 || o'.owner_session == h ≡ true)
    × (stored ≡ true → o'.path ≡ o.path)

module _ (reader : KeyReader) (writer : KeyWriter) (slot : Slot) (label : Bytes) (key : ℕ)
    (stored : Bool) (id_of : Bytes → Bytes) (f : Object → Object) (g : Bytes → Object → Object)
    (r : Runtime) where
  abbrev pub private_object : Bytes → Object
  private_object id =
      private_part reader writer slot.id label (pair_folder slot) (pair_name label) id key r

  abbrev pub public_object : Bytes → ℕ → Object
  public_object id part =
      public_part reader writer slot.id label (pair_folder slot) (pair_name label) id key r part

  -- After a failure there is no new object, unless the public part cannot be made.
  unfoldable pub PairOutcome : Result ℕ × Runtime → Type 0
  PairOutcome (ok k, r') =
      (id : Bytes) × (part : ℕ) × (writer.digest (pair_name label) ≡ some id)
      × (writer.public_part key ≡ some part)
      × PairMade (f (with_id (id_of id) (private_object id))) (g (id_of id) (public_object id part))
          k r r'
      × (file (pair_path slot label) r'.disk ≡ file (pair_path slot label) r.disk)
      × IsValid r'
  PairOutcome (err e, r') =
      NoneAdded writer (λ made. made ≡ key) r r'
      × (r' ≡ record r {
        next_object_handle = r'.next_object_handle;
        objects = r'.objects;
        disk = r'.disk;
      })
      × IsValid r'

  module _ (v : IsValid r) (room : r.next_object_handle + 2 < ulong_mod) (h : ℕ) {s : Session}
      (found : lookup h r.sessions ≡ some s) (placed : slot.id ≡ s.slot_id)
      (f_keeps : (o : Object) → Keeps stored h o (f o))
      (g_keeps : (id : Bytes) (o : Object) → Keeps stored h o (g id o)) where
    abbrev pub next : ℕ
    next = (r.next_object_handle + 1) % ulong_mod

    pub next-suc : next ≡ r.next_object_handle + 1
    next-suc = omega (arith, room)

    slot_there : contains slot.id r.slots ≡ true
    slot_there =
        rw placed
          (Each-lookup (SessionOk r.next_session_handle r.slots) h s r.sessions v.sessions_ok
            found).3

    module _ (id : Bytes) where
      abbrev pub r1 : Runtime
      r1 = joined (private_object id) r

      pub r1-IsValid : IsValid r1
      r1-IsValid = joined-IsValid (private_object id) r (omega (arith, room)) refl refl slot_there v

      pub lookup-r1 :
          (j : ℕ)
          → lookup j r1.objects
            ≡ (if r.next_object_handle == j then some (private_object id) else lookup j r.objects)
      lookup-r1 j =
          lookup-emplace_new j r.next_object_handle (private_object id) r.objects (next-free r v)

      abbrev pub r2 : ℕ → Runtime
      r2 part = joined (public_object id part) r1

      r2-IsValid : (part : ℕ) → IsValid (r2 part)
      r2-IsValid part =
          joined-IsValid (public_object id part) r1 (omega (arith, room, next-suc)) refl refl
            slot_there r1-IsValid

      lookup-r2 :
          (part j : ℕ)
          → lookup j (r2 part).objects
            ≡ (if next == j then some (public_object id part) else lookup j r1.objects)
      lookup-r2 part j =
          lookup-emplace_new j next (public_object id part) r1.objects (next-free r1 r1-IsValid)

      pub k-apart : (r.next_object_handle == next) ≡ false
      k-apart = ground (arith, next-suc)

      module _ (part : ℕ) where
        pub private_there : lookup r.next_object_handle (r2 part).objects ≡ some (private_object id)
        private_there =
            ground
              (arith, k-apart, lookup-r2 part r.next_object_handle, lookup-r1 r.next_object_handle)

        pub public_there : lookup next (r2 part).objects ≡ some (public_object id part)
        public_there = ground (arith, lookup-r2 part next)

        abbrev pub final : Runtime
        final = settled r.next_object_handle next id_of f g (r2 part) k-apart private_there

        pub final-IsValid : IsValid final
        final-IsValid =
            let named = with_id (id_of id) (private_object id) in
            let kept = f_keeps named in
            let kept' = g_keeps (id_of id) (public_object id part) in
            let top : (next + 1) % ulong_mod ≡ r.next_object_handle + 2 =
              omega (arith, room, next-suc) in
            settled-IsValid r.next_object_handle next id_of f g (r2 part) k-apart private_there
              (r2-IsValid part) public_there
              (in_session-ObjectOk r.next_object_handle h (f named) (r2 part) (r2-IsValid part)
                found kept.0 v.first_handles.1 (omega (arith, top)) (kept.1 ∙ placed) kept.2)
              (in_session-ObjectOk next h (g (id_of id) (public_object id part)) (r2 part)
                (r2-IsValid part) found kept'.0 (omega (arith, next-suc))
                (omega (arith, top, next-suc)) (kept'.1 ∙ placed) kept'.2)

        lookup-final :
            (j : ℕ)
            → lookup j final.objects ≡ (
                if r.next_object_handle == j
                then some (f (with_id (id_of id) (private_object id)))
                else if next == j
                then some (g (id_of id) (public_object id part))
                else lookup j r.objects)
        lookup-final j = ground (
          arith,
          k-apart,
          public_there,
          lookup-settled r.next_object_handle next id_of f g (r2 part) k-apart private_there j,
          lookup-r2 part j,
          lookup-r1 j,
        )

        pub final-PairMade :
            (r' : Runtime)
            → r' ≡ record final { disk = r'.disk }
            → PairMade
                (f (with_id (id_of id) (private_object id)))
                (g (id_of id) (public_object id part))
                r.next_object_handle
                r
                r'
        final-PairMade r' same =
            let objects : r'.objects ≡ final.objects = ap (λ x. x.objects) same in
            let top : (next + 1) % ulong_mod ≡ r.next_object_handle + 2 =
              omega (arith, room, next-suc) in
            record {
              handle = refl;
              there_private = rw objects (ground (arith, lookup-final r.next_object_handle));
              there_public = rw objects (ground (arith, next-suc, k-apart, lookup-final next));
              others = λ j a b. rw objects (ground (arith, a, b, next-suc, lookup-final j));
              same = same ∙ rw (objects, top) refl;
            }

        pub erased-NothingNew :
            stored ≡ true
            → (j : ℕ) (w : Object)
            → lookup j (erase_if (has_path (pair_path slot label)) final.objects) ≡ some w
            → lookup j r.objects ≡ some w
        erased-NothingNew kept j w there =
            let p = has_path (pair_path slot label) in
            ground (
              arith,
              there,
              lookup-erase_if j p final.objects final-IsValid.unique_objects,
              lookup-final j,
              f_keeps (with_id (id_of id) (private_object id)),
              g_keeps (id_of id) (public_object id part),
              bytes_eq_refl (pair_path slot label),
              kept,
            )
