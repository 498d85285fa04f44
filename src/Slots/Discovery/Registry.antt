-- ===== src/Slots/Discovery/Registry.antt =====
-- discoverSlots: the slots that a discovery yields.
use pkcs11hsmsim.Base.{
  ℕ, ◌≤◌, ◌≡◌, refl, Bool, true, false, not, ◌&&◌, ◌||◌, List, [], ◌∷◌, Bytes, ◌==◌, any_of, arith,
  inl, inr, Each, length,
}
use pkcs11hsmsim.Base.Text.{codes}
use pkcs11hsmsim.Base.Dict.{Dict, lookup, contains}
use pkcs11hsmsim.Base.Dict.Unique.{Unique}
use pkcs11hsmsim.Result.{ok, Result-cases}
use pkcs11hsmsim.Disk.{Disk}
use pkcs11hsmsim.Core.State.{Slot}
use pkcs11hsmsim.Slots.Discovery.{
  Environment, load_passwords, collect_slots, discover_slots, new_slot,
}
use pkcs11hsmsim.Slots.Discovery.Collecting.{
  FreshSlot, load_passwords-FreshSlot, load_passwords-same, NamedSlot, FlatSlot, names, is_multi,
  is_multi-named, is_multi-none, collect_slots-Collected, collect_slots-NamedSlot,
}

module _ (env : Environment) (d : Disk) (root : Bytes) where
  -- A discovery that succeeds yields at least one slot, no number twice, each slot under its own
  -- number with nobody logged in. Where some directory is named like a slot, the slots are exactly
  -- those that directories are named for, each with the label of such a name and in its directory, and
  -- the directories of the flat layout do not stand beside them; otherwise the one slot is number 1, with
  -- the flat layout: it is in the storage root itself and marked as such.
  pub discover_slots-FreshSlot :
      (dirs : List Bytes) (has_flat : Bool) {slots : Dict Slot}
      → discover_slots env d root dirs has_flat ≡ ok slots
      → Unique slots
        × Each FreshSlot slots
        × (1 ≤ length slots)
        × ((id : ℕ)
            → contains id slots ≡ (any_of (names id) dirs || (not (is_multi dirs) && 1 == id)))
        × (is_multi dirs ≡ true → (has_flat ≡ false) × Each (NamedSlot root dirs) slots)
        × (is_multi dirs ≡ false → (slot : Slot) × (slots ≡ (1, slot) ∷ []) × FlatSlot root slot)
  unfolding discover_slots lookup
  discover_slots-FreshSlot dirs has_flat {slots} done =
      elim (Result-cases (collect_slots env d root dirs [])) [
        | inr (fault, e) ↦ absurd (ground arith)
        | inl ([], e) ↦
            let all = collect_slots-Collected env d root dirs [] tt tt e in
            let single = is_multi-none dirs (λ id. ground (arith, all.2 id)) in
            let empty = new_slot 1 (codes "HSM Simulator") root true in
            elim (Result-cases (load_passwords env d empty)) [
              | inr (fault, e') ↦ absurd (ground arith)
              | inl (slot, e') ↦
                  let here = load_passwords-FreshSlot env d empty slot e' in
                  let e'' : slots ≡ (1, slot) ∷ [] = ground arith in
                  let same = load_passwords-same env d empty slot e' in
                  rw e'' (
                    ground arith,
                    ground arith,
                    omega arith,
                    λ id. ground (arith, all.2 id, single),
                    λ multi. absurd (ground (arith, multi, single)),
                    λ flat. (
                      slot,
                      refl,
                      record { label = same.0; directory = same.1; layout = same.2 },
                    ),
                  )
            ]
        | inl (entry ∷ rest, e) ↦
            let all = collect_slots-Collected env d root dirs [] tt tt e in
            let named : is_multi dirs ≡ true =
              is_multi-named entry.0 dirs (ground (arith, all.2 entry.0)) in
            let e' : (slots ≡ entry ∷ rest) × (has_flat ≡ false) = ground arith in
            rw e'.0 (
              all.0,
              all.1,
              omega arith,
              λ id. ground (arith, all.2 id, named),
              λ multi. (e'.1, collect_slots-NamedSlot env d root dirs dirs [] (λ name h. h) tt e),
              λ flat. absurd (ground (arith, flat, named)),
            )
      ]
