-- ===== src/Slots/Discovery/Collecting.antt =====
-- collectSlots: the slots that the names of the directories give.
use pkcs11hsmsim.Base.{
  ℕ, ◌≡◌, refl, ap, Bool, true, false, ◌||◌, none, some, List, [], ◌∷◌, Bytes, ◌==◌, any_of, arith,
  inl, inr, Option-cases, Each, bytes_eq, Bool-cases,
}
use pkcs11hsmsim.Base.Text.{codes, join}
use pkcs11hsmsim.Base.Dict.{Dict, lookup, contains, assign, lookup-assign}
use pkcs11hsmsim.Base.Dict.Unique.{Unique}
use pkcs11hsmsim.Result.{ok, err, Result-cases}
use pkcs11hsmsim.Disk.{Disk}
use pkcs11hsmsim.Disk.Laws.{bytes_eq_refl}
use pkcs11hsmsim.Core.State.{Slot}
use pkcs11hsmsim.Slots.Discovery.{
  Environment, load_passwords, parse_slot_id, collect_slots, new_slot, label_of,
}

-- An entry as the discovery makes it: under its own number, with nobody logged in.
abbrev pub FreshSlot : ℕ × Slot → Type 0
FreshSlot (id, slot) = (slot.id ≡ id) × (slot.logged_in_user ≡ none)

Unique-assign :
    (k : ℕ) (v : Slot) (d : Dict Slot) → lookup k d ≡ none → Unique d → Unique (assign k v d)
unfolding assign lookup
Unique-assign k v [] missing u = ground arith
Unique-assign k v ((j, w) ∷ d) missing u =
    ground (arith, Unique-assign k v d, lookup-assign j k v d)

Each-assign :
    (k : ℕ) (v : Slot) (d : Dict Slot)
    → FreshSlot (k, v)
    → Each FreshSlot d
    → Each FreshSlot (assign k v d)
unfolding assign
Each-assign k v [] here each = ground arith
Each-assign k v ((j, w) ∷ d) here each = ground (arith, Each-assign k v d here each.1)

-- Passwords are all that is loaded into a slot.
pub load_passwords-FreshSlot :
    (env : Environment) (d : Disk) (slot slot' : Slot)
    → load_passwords env d slot ≡ ok slot'
    → (slot'.id ≡ slot.id) × (slot'.logged_in_user ≡ slot.logged_in_user)
unfolding load_passwords
load_passwords-FreshSlot env d slot slot' done = ground arith

pub load_passwords-same :
    (env : Environment) (d : Disk) (slot slot' : Slot)
    → load_passwords env d slot ≡ ok slot'
    → (slot'.label ≡ slot.label)
      × (slot'.directory ≡ slot.directory)
      × (slot'.legacy_layout ≡ slot.legacy_layout)
unfolding load_passwords
load_passwords-same env d slot slot' done = ground arith

-- A slot of the layout with several: its number and its label are those of the name of a directory of the
-- storage root, and it is that directory.
pub record NamedSlot (root : Bytes) (dirs : List Bytes) (entry : ℕ × Slot) : Type 0 where
  pub name : Bytes
  pub listed : any_of (bytes_eq name) dirs ≡ true
  pub number : parse_slot_id name ≡ ok (some (entry.0))
  pub label : entry.1.label ≡ label_of name
  pub directory : entry.1.directory ≡ join root name
  pub layout : entry.1.legacy_layout ≡ false

-- The slot of the flat layout: it is the storage root.
pub record FlatSlot (root : Bytes) (slot : Slot) : Type 0 where
  pub label : slot.label ≡ codes "HSM Simulator"
  pub directory : slot.directory ≡ root
  pub layout : slot.legacy_layout ≡ true

Each-assigned :
    (P : ℕ × Slot → Type 0) (k : ℕ) (v : Slot) (d : Dict Slot)
    → P (k, v)
    → Each P d
    → Each P (assign k v d)
unfolding assign
Each-assigned P k v [] here each = (here, tt)
Each-assigned P k v ((j, w) ∷ d) here each = ground (arith, Each-assigned P k v d here each.1)

-- The name is one of the slot's number.
unfoldable pub names : ℕ → Bytes → Bool
names id name = elim (parse_slot_id name) [
  | err e ↦ false
  | ok none ↦ false
  | ok (some j) ↦ j == id
]

-- Some directory is named like a slot.
abbrev pub is_multi : List Bytes → Bool
is_multi dirs =
    any_of
      (λ name. elim (parse_slot_id name) [ err e ↦ false | ok none ↦ false | ok (some j) ↦ true ])
      dirs

pub is_multi-named :
    (id : ℕ) (dirs : List Bytes) → any_of (names id) dirs ≡ true → is_multi dirs ≡ true
unfolding any_of names
is_multi-named id [] h = ground arith
is_multi-named id (name ∷ dirs) h = ground (arith, is_multi-named id dirs)

pub is_multi-none :
    (dirs : List Bytes) → ((id : ℕ) → any_of (names id) dirs ≡ false) → is_multi dirs ≡ false
unfolding any_of names
is_multi-none [] none_named = refl
is_multi-none (name ∷ dirs) none_named = elim (Result-cases (parse_slot_id name)) [
  | inr (fault, e) ↦ ground (arith, is_multi-none dirs (λ id. ground (arith, none_named id)))
  | inl (none, e) ↦ ground (arith, is_multi-none dirs (λ id. ground (arith, none_named id)))
  | inl (some j, e) ↦ ground (arith, none_named j)
]

-- What the loop keeps of the slots collected so far, and what it adds.
abbrev pub Collected : List Bytes → Dict Slot → Dict Slot → Type 0
Collected dirs before slots =
    Unique slots
    × Each FreshSlot slots
    × ((id : ℕ) → contains id slots ≡ (contains id before || any_of (names id) dirs))

module _ (env : Environment) (d : Disk) (root : Bytes) where
  pub collect_slots-Collected :
      (dirs : List Bytes) (before : Dict Slot) {slots : Dict Slot}
      → Unique before
      → Each FreshSlot before
      → collect_slots env d root dirs before ≡ ok slots
      → Collected dirs before slots
  unfolding collect_slots any_of names
  collect_slots-Collected [] before {slots} u each done =
      let e : before ≡ slots = cc in
      (rw (← e) u, rw (← e) each, λ id. ground (arith, ap (λ d. contains id d) e))
  collect_slots-Collected (name ∷ dirs) before {slots} u each done =
      elim (Result-cases (parse_slot_id name)) [
        | inr (fault, e) ↦ absurd (ground arith)
        | inl (none, e) ↦
            let rest = collect_slots-Collected dirs before u each (ground arith) in
            (rest.0, rest.1, λ id. ground (arith, rest.2 id, e))
        | inl (some id, e) ↦
            let empty = new_slot id (label_of name) (join root name) false in
            elim (Result-cases (load_passwords env d empty)) [
              | inr (fault, e') ↦ absurd (ground arith)
              | inl (slot, e') ↦ elim (Option-cases (lookup id before)) [
                | inr (old, there) ↦ absurd (ground arith)
                | inl new ↦
                    let here = load_passwords-FreshSlot env d empty slot e' in
                    let rest =
                      collect_slots-Collected dirs (assign id slot before)
                        (Unique-assign id slot before new u) (Each-assign id slot before here each)
                        (ground arith) in
                    (
                      rest.0,
                      rest.1,
                      λ j. ground (arith, rest.2 j, e, lookup-assign j id slot before),
                    )
              ]
            ]
      ]

  -- Each slot is made of the name of a directory.
  pub collect_slots-NamedSlot :
      (all dirs : List Bytes) (before : Dict Slot) {slots : Dict Slot}
      → ((name : Bytes) → any_of (bytes_eq name) dirs ≡ true → any_of (bytes_eq name) all ≡ true)
      → Each (NamedSlot root all) before
      → collect_slots env d root dirs before ≡ ok slots
      → Each (NamedSlot root all) slots
  unfolding collect_slots any_of
  collect_slots-NamedSlot all [] before {slots} listed each done =
      let e : before ≡ slots = cc in rw (← e) each
  collect_slots-NamedSlot all (name ∷ dirs) before {slots} listed each done =
      let later : (n : Bytes) → any_of (bytes_eq n) dirs ≡ true → any_of (bytes_eq n) all ≡ true =
        λ n h. listed n (ground (arith, h)) in
      elim (Result-cases (parse_slot_id name)) [
        | inr (fault, e) ↦ absurd (ground (arith, done, e))
        | inl (none, e) ↦
            collect_slots-NamedSlot all dirs before later each (ground (arith, done, e))
        | inl (some id, e) ↦
            let empty = new_slot id (label_of name) (join root name) false in
            elim (Result-cases (load_passwords env d empty)) [
              | inr (fault, e') ↦ absurd (ground (arith, done, e, e'))
              | inl (slot, e') ↦ elim (Bool-cases (contains id before)) [
                | inl there ↦ absurd (ground (arith, done, e, e', there))
                | inr new ↦
                    let same = load_passwords-same env d empty slot e' in
                    let here : NamedSlot root all (id, slot) = record {
                      name = name;
                      listed = listed name (ground (arith, bytes_eq_refl name));
                      number = e;
                      label = same.0;
                      directory = same.1;
                      layout = same.2;
                    } in
                    collect_slots-NamedSlot all dirs (assign id slot before) later
                      (Each-assigned (NamedSlot root all) id slot before here each)
                      (ground (arith, done, e, e', new))
              ]
            ]
      ]
