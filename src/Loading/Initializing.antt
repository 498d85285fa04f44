-- ===== src/Loading/Initializing.antt =====
-- Initialize: all token objects are loaded into a well-formed registry, or the registry is empty.
use pkcs11hsmsim.Base.{
  ◌⊎◌, inl, inr, ℕ, ◌+◌, ◌<◌, ◌≡◌, refl, sym, ◌∙◌, Bool, true, false, [], Bytes, arith, Each,
  Each-map,
}
use pkcs11hsmsim.Base.Dict.{Dict}
use pkcs11hsmsim.Base.Dict.Unique.{Unique}
use pkcs11hsmsim.Ck.{ulong_mod}
use pkcs11hsmsim.Result.{
  Result, ok, err, cryptoki_already_initialized, arguments_bad, device_error, outcome->>=,
  outcome-lift, outcome-refuse_if,
}
use pkcs11hsmsim.Openssl.{KeyReader, KeyWriter}
use pkcs11hsmsim.Core.State.{Slot, Runtime}
use pkcs11hsmsim.Core.Invariant.{IsValid, SlotOk}
use pkcs11hsmsim.Slots.Discovery.{Environment, discover_slots}
use pkcs11hsmsim.Slots.Discovery.Collecting.{FreshSlot}
use pkcs11hsmsim.Slots.Discovery.Registry.{discover_slots-FreshSlot}
use pkcs11hsmsim.Loading.Symmetric.{Loaded}
use pkcs11hsmsim.Loading.Slots.{
  room_of, load_slots-Loaded, load_object_metadata-Loaded, Each-contains,
}
use pkcs11hsmsim.Loading.{
  Storage, load_slots, load_object_metadata, load_token_objects, load_all, start, initialize,
  cleared, concluded,
}

module _ (reader : KeyReader) (writer : KeyWriter) (storage : Storage) where
  load_token_objects-Loaded :
      (r : Runtime)
      → 0 < r.next_session_handle
      → (r.sessions ≡ []) × (r.initialized ≡ false)
      → Unique r.slots
      → Each FreshSlot r.slots
      → 1 + room_of reader writer storage r.slots < ulong_mod
      → Loaded r.slots
          (1 + room_of reader writer storage r.slots)
          (load_token_objects reader writer storage r).1
  unfolding load_token_objects
  load_token_objects-Loaded r positive quiet unique fresh room =
      let limit = 1 + room_of reader writer storage r.slots in
      let base = record r { objects = []; next_object_handle = 1 } in
      let empty : Loaded r.slots 1 base = record {
        valid = record {
          first_handles = (positive, omega arith);
          unique_slots = unique;
          unique_objects = tt;
          unique_sessions = rw quiet.0 tt;
          sessions_ok = rw quiet.0 tt;
          objects_ok = tt;
          slots_ok =
              Each-map FreshSlot (SlotOk r.sessions) r.slots (λ e f. (f.0, rw f.1 refl)) fresh;
        };
        slots_same = refl;
        bounded = omega arith;
        quiet = quiet;
      } in
      let loading = load_slots reader writer storage r.slots in
      let one =
        load_slots-Loaded reader writer storage r.slots r.slots 1 base fresh (Each-contains r.slots)
          room empty in
      outcome->>= (λ x. Loaded r.slots limit x.1) loading
        (λ _. load_object_metadata reader writer storage) base (λ e _. one)
        (λ _ _.
          load_object_metadata-Loaded reader writer storage r.slots limit (loading base).1 one)

  module _ (env : Environment) (root : Bytes) (has_flat : Bool) where
    -- What Initialize leaves: the discovered slots with their objects, or neither slots nor objects.
    unfoldable pub Initialized : Runtime → Result (Unit {0}) × Runtime → Type 0
    Initialized r (ok u, r') =
        (r'.initialized ≡ true)
        × (discover_slots env r.disk root (storage.names root) has_flat ≡ ok r'.slots)
        × IsValid r'
    Initialized r (err e, r') =
        ((r' ≡ r) ⊎ ((e ≡ device_error) × (r'.slots ≡ []) × (r'.objects ≡ [])))
        × (r'.initialized ≡ r.initialized)
        × IsValid r'

    rooted-IsValid :
        (r : Runtime) (root' : Bytes) → IsValid r → IsValid (record r { storage_root = root' })
    rooted-IsValid r root' v = record {
      first_handles = v.first_handles;
      unique_slots = v.unique_slots;
      unique_objects = v.unique_objects;
      unique_sessions = v.unique_sessions;
      sessions_ok = v.sessions_ok;
      objects_ok = v.objects_ok;
      slots_ok = v.slots_ok;
    }

    cleared-IsValid :
        (r : Runtime) → IsValid r → r.sessions ≡ [] → IsValid (cleared reader writer storage r)
    cleared-IsValid r v quiet = record {
      first_handles = v.first_handles;
      unique_slots = tt;
      unique_objects = tt;
      unique_sessions = v.unique_sessions;
      sessions_ok = rw quiet tt;
      objects_ok = tt;
      slots_ok = tt;
    }

    start-failed :
        (r r' : Runtime)
        → IsValid r'
        → r.initialized ≡ false
        → (r'.sessions ≡ []) × (r'.initialized ≡ false)
        → Initialized r (err device_error, cleared reader writer storage r')
    unfolding Initialized
    start-failed r r' v off quiet =
        (inr (refl, refl, refl), quiet.1 ∙ sym off, cleared-IsValid r' v quiet.0)

    concluded-Initialized :
        (r : Runtime) (slots : Dict Slot) (limit : ℕ) (x : Result (Unit {0}) × Runtime)
        → r.initialized ≡ false
        → discover_slots env r.disk root (storage.names root) has_flat ≡ ok slots
        → Loaded slots limit x.1
        → Initialized r (concluded reader writer storage x)
    unfolding Initialized concluded
    concluded-Initialized r slots limit (ok u, r') off e l = (
      refl,
      rw l.slots_same e,
      record {
        first_handles = l.valid.first_handles;
        unique_slots = l.valid.unique_slots;
        unique_objects = l.valid.unique_objects;
        unique_sessions = l.valid.unique_sessions;
        sessions_ok = l.valid.sessions_ok;
        objects_ok = l.valid.objects_ok;
        slots_ok = l.valid.slots_ok;
      },
    )
    concluded-Initialized r slots limit (err fault, r') off e l =
        start-failed r r' l.valid off l.quiet

    module _ (r : Runtime) (v : IsValid r)
        (room : (slots : Dict Slot)
          → discover_slots env r.disk root (storage.names root) has_flat ≡ ok slots
          → 1 + room_of reader writer storage slots < ulong_mod) where
      start-Initialized :
          (r.sessions ≡ []) × (r.initialized ≡ false)
          → Initialized r
              (start reader writer storage env has_flat (record r { storage_root = root }))
      unfolding start load_all concluded
      start-Initialized quiet =
          let q = record r { storage_root = root } in
          outcome-lift (λ x. Initialized r (concluded reader writer storage x))
            (discover_slots env r.disk root (storage.names root) has_flat) _ q
            (λ e _. start-failed r q (rooted-IsValid r root v) quiet.1 quiet)
            (λ slots e.
              let found =
                discover_slots-FreshSlot env r.disk root (storage.names root) has_flat e in
              let base = record q { slots = slots } in
              let limit = 1 + room_of reader writer storage slots in
              concluded-Initialized r slots limit (load_token_objects reader writer storage base)
                quiet.1 e
                (load_token_objects-Loaded base v.first_handles.0 quiet found.0 found.1
                  (room slots e)))

      -- In a valid registry that has no sessions while it is not initialized, and while the handles suffice for
      -- all files, Initialize leaves the slots that the storage root describes with a well-formed registry, or
      -- an error, which changes nothing or is CKR_DEVICE_ERROR and leaves neither slots nor objects; an error
      -- changes nothing of whether the library is initialized.
      pub initialize-Initialized :
          (has_reserved : Bool)
          → (r.initialized ≡ false → r.sessions ≡ [])
          → Initialized r (initialize reader writer storage env root has_flat has_reserved r)
      unfolding initialize Initialized
      initialize-Initialized has_reserved quiet =
          outcome-refuse_if (Initialized r) r.initialized cryptoki_already_initialized _ r
            (inl refl, refl, v)
            (λ off.
              outcome-refuse_if (Initialized r) has_reserved arguments_bad _ r (inl refl, refl, v)
                (λ _. start-Initialized (quiet off, off)))
