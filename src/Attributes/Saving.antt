-- ===== src/Attributes/Saving.antt =====
-- What SetAttributeValue leaves in the metadata file of a token object.
use pkcs11hsmsim.Base.{
  ℕ, ◌≡◌, refl, true, false, none, some, [], ◌∷◌, arith, ◌==◌, Each, inl, inr, Bool-cases, contents,
  ap, ◌∙◌,
}
use mathlib.Core.Path.{subst}
use pkcs11hsmsim.Base.Dict.{Dict, lookup, lookup-assign, lookup-adjust, Each-lookup}
use pkcs11hsmsim.Result.{ok}
use pkcs11hsmsim.Disk.Laws.{bytes_eq_refl}
use pkcs11hsmsim.Metadata.{Attributes, Records, create, read, path}
use pkcs11hsmsim.Metadata.RoundTrip.{Storable}
use pkcs11hsmsim.Metadata.Publication.{read-create}
use pkcs11hsmsim.Core.State.{Object, Session, Runtime}
use pkcs11hsmsim.Core.Invariant.{IsValid, ObjectOk}
use pkcs11hsmsim.Template.{Template}
use pkcs11hsmsim.KeyStore.{
  attributes_of, collect_from, collect_metadata, emplace_record, is_stored_at, replaced,
}
use pkcs11hsmsim.Attributes.Setting.{set_attribute_value, save_changed}
use pkcs11hsmsim.Attributes.Changing.{
  SameBut, Accepted, save_changed-objects, change_all-SameBut, set_attribute_value-Accepted,
  find_object-lookup,
}

-- Of the token objects of the key file, only `k` has the class of `o`.
abbrev pub Alone : ℕ → Object → Dict Object → Type 0
Alone k o = Each (λ e. is_stored_at o.path e.1 ≡ true → e.1.object_class ≡ o.object_class → e.0 ≡ k)

module _ (k : ℕ) (o new : Object) (handle : new.handle ≡ k)
    (class : new.object_class ≡ o.object_class) where
  -- A record that was collected stays.
  collect_from-kept :
      (objects : Dict Object) (records : Records) (a : Attributes)
      → lookup o.object_class records ≡ some a
      → lookup o.object_class (collect_from o.path (some new) objects records) ≡ some a
  unfolding collect_from
  collect_from-kept [] records a h = h
  collect_from-kept ((j, p) ∷ objects) records a h =
      let q = replaced (some new) j p in
      ground (
        arith,
        h,
        collect_from-kept objects records a h,
        collect_from-kept objects (emplace_record q.object_class (attributes_of q) records) a,
        lookup-assign o.object_class q.object_class (attributes_of q) records,
      )

  collect_from-replaced :
      (objects : Dict Object) (records : Records)
      → lookup k objects ≡ some o
      → is_stored_at o.path o ≡ true
      → Alone k o objects
      → lookup o.object_class records ≡ none
      → lookup o.object_class (collect_from o.path (some new) objects records)
        ≡ some (attributes_of new)
  unfolding collect_from lookup
  collect_from-replaced [] records here stored alone clear = absurd (ground arith)
  collect_from-replaced ((j, p) ∷ objects) records here stored alone clear =
      elim (Bool-cases (j == k)) [
        | inl this ↦
            let first = emplace_record new.object_class (attributes_of new) records in
            ground (
              arith,
              collect_from-kept objects first (attributes_of new),
              lookup-assign o.object_class new.object_class (attributes_of new) records,
            )
        | inr other ↦ ground (
          arith,
          alone.0,
          collect_from-replaced objects records,
          collect_from-replaced objects (emplace_record p.object_class (attributes_of p) records),
          lookup-assign o.object_class p.object_class (attributes_of p) records,
        )
      ]

-- A save that succeeds has created the metadata file.
save_changed-create :
    (changed : Object) (r : Runtime)
    → changed.owner_session ≡ 0
    → (save_changed changed r).0 ≡ ok tt
    → create changed.path (collect_metadata changed.path (some changed) r) true r.disk
      ≡ (ok tt, (save_changed changed r).1.disk)
unfolding save_changed
save_changed-create changed r owned done = ground arith

-- What an accepted change stores, in memory and in the file.
module _ (h k : ℕ) (attributes : Template) (r : Runtime) (session : Session) (o changed : Object)
    (a : Accepted h k attributes r session o changed) where
  Accepted-lookup :
      {o' : Object}
      → lookup k r.objects ≡ some o
      → lookup k (set_attribute_value h k attributes r).1.objects ≡ some o'
      → o' ≡ changed
  Accepted-lookup here there =
      ground (
        arith,
        a.stored,
        save_changed-objects changed r,
        lookup-adjust k k (λ _. changed) r.objects,
      )

  Accepted-disk : (set_attribute_value h k attributes r).1.disk ≡ (save_changed changed r).1.disk
  Accepted-disk = ap (λ s. s.disk) a.stored

  Accepted-create :
      o.owner_session ≡ 0
      → create o.path (collect_metadata o.path (some changed) r) true r.disk
        ≡ (ok tt, (set_attribute_value h k attributes r).1.disk)
  Accepted-create owned =
      let same = change_all-SameBut o o (contents attributes) a.changes in
      rw (Accepted-disk, ← same.path)
        (save_changed-create changed r (same.owner_session ∙ owned) a.saved)

-- What SetAttributeValue changes of a token object is in its metadata file: when the call succeeds in a
-- well-formed registry, `read` gives for the object's class the label, id and policies that the object has
-- in memory afterwards. No other token object of the key file has its class, the records of the file can
-- be stored, and the later reads do not fail.
pub set_attribute_value-persists :
    (h k : ℕ) (attributes : Template) (r : Runtime) {o o' : Object}
    → IsValid r
    → lookup k r.objects ≡ some o
    → o.owner_session ≡ 0
    → Alone k o r.objects
    → (set_attribute_value h k attributes r).0 ≡ ok tt
    → lookup k (set_attribute_value h k attributes r).1.objects ≡ some o'
    → Storable (collect_metadata o.path (some o') r)
    → (set_attribute_value h k attributes r).1.disk.faults.probing (path o.path) ≡ false
    → (set_attribute_value h k attributes r).1.disk.faults.opening (path o.path) ≡ false
    → (records : Records) × (read o.path (set_attribute_value h k attributes r).1.disk ≡ ok records)
      × (lookup o.object_class records
          ≡ some (record { label = o'.label; id = o'.id; policy = o'.policy }))
unfolding collect_metadata lookup
set_attribute_value-persists h k attributes r {o} {o'} valid here owned alone done there good found
      opened =
    let (session, was, changed, a) = set_attribute_value-Accepted h k attributes r done in
    let old : was ≡ o = ground (arith, find_object-lookup h k r a.object_found, here) in
    let kept : Accepted h k attributes r session o changed =
      subst (λ p. Accepted h k attributes r session p changed) old a in
    let new : o' ≡ changed = Accepted-lookup h k attributes r session o changed kept here there in
    let same : SameBut o o' = rw new (change_all-SameBut o o (contents attributes) kept.changes) in
    let handle : o.handle ≡ k =
      (Each-lookup (ObjectOk r.next_object_handle r.slots r.sessions) k o r.objects valid.objects_ok
        here).0 in
    let made : create o.path (collect_metadata o.path (some o') r) true r.disk
        ≡ (ok tt, (set_attribute_value h k attributes r).1.disk) =
      rw new (Accepted-create h k attributes r session o changed kept owned) in
    (
      collect_metadata o.path (some o') r,
      read-create o.path (collect_metadata o.path (some o') r) true r.disk
          (set_attribute_value h k attributes r).1.disk good made found opened,
      collect_from-replaced k o o' (same.handle ∙ handle) same.object_class r.objects [] here
          (ground (arith, owned, bytes_eq_refl o.path)) alone refl,
    )
