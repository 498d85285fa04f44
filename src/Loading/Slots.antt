-- ===== src/Loading/Slots.antt =====
-- Loading the files of all slots, and the metadata of their objects.
use pkcs11hsmsim.Base.{
  ℕ, ◌+◌, ◌<◌, ◌≡◌, ◌∙◌, true, none, [], ◌∷◌, arith, Each, Each-map, inl, inr, Option-cases,
}
use pkcs11hsmsim.Base.Dict.{Dict, lookup, contains}
use pkcs11hsmsim.Base.Dict.Unique.{Unique}
use pkcs11hsmsim.Ck.{ulong_mod}
use pkcs11hsmsim.Result.{ok, outcome->>=, outcome-lift, Result-cases}
use pkcs11hsmsim.Openssl.{KeyReader, KeyWriter}
use pkcs11hsmsim.Disk.{Disk}
use pkcs11hsmsim.Metadata.{read}
use pkcs11hsmsim.Core.State.{Slot, Object, Runtime}
use pkcs11hsmsim.Core.Invariant.{ObjectOk}
use pkcs11hsmsim.Slots.Discovery.Collecting.{FreshSlot}
use pkcs11hsmsim.Loading.Symmetric.{Loaded, more-Loaded}
use pkcs11hsmsim.Loading.Starting.{slot_room, load_slot-Loaded}
use pkcs11hsmsim.Loading.{
  Storage, load_slot, load_slots, restored, restore_all, load_object_metadata,
}

contains-more :
    (j k : ℕ) (v : Slot) (d : Dict Slot) → contains j d ≡ true → contains j ((k, v) ∷ d) ≡ true
unfolding lookup
contains-more j k v d h = ground arith

-- Every key of a map is found in it.
pub Each-contains : (d : Dict Slot) → Each (λ e. contains e.0 d ≡ true) d
unfolding lookup
Each-contains [] = tt
Each-contains ((k, v) ∷ d) = (
  ground arith,
  Each-map (λ e. contains e.0 d ≡ true) (λ e. contains e.0 ((k, v) ∷ d) ≡ true) d
      (λ e h. contains-more e.0 k v d h) (Each-contains d),
)

module _ (reader : KeyReader) (writer : KeyWriter) (storage : Storage) where
  -- The objects that the files of the slots can make at most.
  unfoldable pub room_of : Dict Slot → ℕ
  room_of [] = 0
  room_of ((id, slot) ∷ slots) = slot_room reader writer storage [] slot + room_of slots

  pub load_slots-Loaded :
      (all slots : Dict Slot) (limit : ℕ) (r : Runtime)
      → Each FreshSlot slots
      → Each (λ e. contains e.0 all ≡ true) slots
      → limit + room_of slots < ulong_mod
      → Loaded all limit r
      → Loaded all (limit + room_of slots) (load_slots reader writer storage slots r).1
  unfolding load_slots room_of
  load_slots-Loaded all [] limit r fresh known room l =
      more-Loaded all limit (limit + 0) r (omega arith) l
  load_slots-Loaded all ((id, slot) ∷ slots) limit r fresh known room l =
      let own = slot_room reader writer storage [] slot in
      let total = limit + (own + room_of slots) in
      let first = load_slot reader writer storage id slot in
      let there : contains slot.id all ≡ true = rw fresh.0.0 known.0 in
      let one =
        load_slot-Loaded reader writer storage all id slot limit r there known.0
          (omega (arith, room)) l in
      outcome->>= (λ x. Loaded all total x.1) first _ r
        (λ e _. more-Loaded all (limit + own) total (first r).1 (omega arith) one)
        (λ _ _.
          more-Loaded all (limit + own + room_of slots) total
            (load_slots reader writer storage slots (first r).1).1 (omega arith)
            (load_slots-Loaded all slots (limit + own) (first r).1 fresh.1 known.1
              (omega (arith, room)) one))

  restored-same :
      (d : Disk) (o : Object) {o' : Object}
      → restored reader writer storage d o ≡ ok o'
      → (o'.handle ≡ o.handle) × (o'.slot_id ≡ o.slot_id) × (o'.owner_session ≡ o.owner_session)
  unfolding restored
  restored-same d o done = elim (Result-cases (read o.path d)) [
    | inr (fault, e) ↦ absurd (ground (arith, e, done))
    | inl (records, e) ↦ elim (Option-cases (lookup o.object_class records)) [
      | inl missing ↦ ground (arith, e, missing, done)
      | inr (a, found) ↦ ground (arith, e, found, done)
    ]
  ]

  -- Metadata changes no key of the map, and of no object the handle, the slot or the owner.
  restore_all-lookup :
      (d : Disk) (objects : Dict Object) (k : ℕ) {objects' : Dict Object}
      → restore_all reader writer storage d objects ≡ ok objects'
      → lookup k objects ≡ none
      → lookup k objects' ≡ none
  unfolding restore_all lookup
  restore_all-lookup d [] k done missing = ground (arith, done)
  restore_all-lookup d ((j, o) ∷ objects) k {objects'} done missing =
      elim (Result-cases (restored reader writer storage d o)) [
        | inr (fault, e) ↦ absurd (ground (arith, e, done))
        | inl (o', e) ↦ elim (Result-cases (restore_all reader writer storage d objects)) [
          | inr (fault, e') ↦ absurd (ground (arith, e, e', done))
          | inl (rest, e') ↦
              let ih = restore_all-lookup d objects k e' in
              let shape : objects' ≡ (j, o') ∷ rest = ground (arith, e, e', done) in
              rw shape (ground (arith, missing, ih))
        ]
      ]

  restore_all-ok :
      (d : Disk) (r : Runtime) (objects : Dict Object) {objects' : Dict Object}
      → restore_all reader writer storage d objects ≡ ok objects'
      → Unique objects
      → Each (ObjectOk r.next_object_handle r.slots r.sessions) objects
      → Unique objects' × Each (ObjectOk r.next_object_handle r.slots r.sessions) objects'
  unfolding restore_all
  restore_all-ok d r [] {objects'} done u each =
      let shape : objects' ≡ [] = ground (arith, done) in rw shape (tt, tt)
  restore_all-ok d r ((j, o) ∷ objects) {objects'} done u each =
      elim (Result-cases (restored reader writer storage d o)) [
        | inr (fault, e) ↦ absurd (ground (arith, e, done))
        | inl (o', e) ↦ elim (Result-cases (restore_all reader writer storage d objects)) [
          | inr (fault, e') ↦ absurd (ground (arith, e, e', done))
          | inl (rest, e') ↦
              let (u', each') = restore_all-ok d r objects e' u.1 each.1 in
              let same = restored-same d o e in
              let old = each.0 in
              let shape : objects' ≡ (j, o') ∷ rest = ground (arith, e, e', done) in
              rw shape (
                (restore_all-lookup d objects j e' u.0, u'),
                ((same.0 ∙ old.0, old.1, old.2, rw same.1 old.3, rw (same.2, same.1) old.4), each'),
              )
        ]
      ]

  pub load_object_metadata-Loaded :
      (slots : Dict Slot) (limit : ℕ) (r : Runtime)
      → Loaded slots limit r
      → Loaded slots limit (load_object_metadata reader writer storage r).1
  unfolding load_object_metadata
  load_object_metadata-Loaded slots limit r l =
      outcome-lift (λ x. Loaded slots limit x.1)
        (restore_all reader writer storage r.disk r.objects) _ r (λ e _. l)
        (λ objects done.
          let (unique, each) =
            restore_all-ok r.disk r r.objects done l.valid.unique_objects l.valid.objects_ok in
          record {
            valid = record {
              first_handles = l.valid.first_handles;
              unique_slots = l.valid.unique_slots;
              unique_objects = unique;
              unique_sessions = l.valid.unique_sessions;
              sessions_ok = l.valid.sessions_ok;
              objects_ok = each;
              slots_ok = l.valid.slots_ok;
            };
            slots_same = l.slots_same;
            bounded = l.bounded;
            quiet = l.quiet;
          })
