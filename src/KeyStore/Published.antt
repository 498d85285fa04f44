-- ===== src/KeyStore/Published.antt =====
-- Publishing a secret key: the key is there with its files, or it is not there.
use pkcs11hsmsim.Base.{
  ℕ, ◌≡◌, ◌∙◌, sym, refl, ap, Bool, true, false, none, some, Bytes, arith, erase_if, inl, inr,
  Bool-cases, Option-cases, ◌==◌,
}
use pkcs11hsmsim.Base.Dict.{emplace, lookup, lookup-emplace_new}
use pkcs11hsmsim.Base.Dict.Unique.{Unique, Unique-emplace, lookup-erase_if}
use pkcs11hsmsim.Result.{Result, Rv, ok, err, pure, ◌>>◌, outcome->>=}
use pkcs11hsmsim.Disk.{Disk, file, exists}
use pkcs11hsmsim.Disk.Laws.{file-write_unflushed, bytes_eq_refl}
use pkcs11hsmsim.Metadata.{create}
use pkcs11hsmsim.Metadata.Others.{create-key_file}
use pkcs11hsmsim.Core.State.{Object, Runtime}
use pkcs11hsmsim.KeyStore.{persist_metadata, collect_metadata, has_path}
use pkcs11hsmsim.KeyStore.Saving.{save_secret_key, add_object, publish_secret, secret_text}
use pkcs11hsmsim.KeyStore.Kept.{save_secret_key-disk}

-- A saved key was not there before, and stands in its file if the write of the file did not fail.
save_secret_key-done :
    (o : Object) (r : Runtime)
    → (save_secret_key o r).0 ≡ ok tt
    → (file o.path r.disk ≡ none)
      × (r.disk.faults.writing o.path ≡ false
          → file o.path (save_secret_key o r).1.disk ≡ some (secret_text o))
unfolding save_secret_key exists
save_secret_key-done o r done = ground (arith, file-write_unflushed o.path (secret_text o) r.disk)

pub persist_metadata-done :
    (path : Bytes) (r : Runtime)
    → (persist_metadata path r).0 ≡ ok tt
    → ((persist_metadata path r).1 ≡ record r { disk = (persist_metadata path r).1.disk })
      × (create path (collect_metadata path none r) false r.disk
          ≡ (ok tt, (persist_metadata path r).1.disk))
unfolding persist_metadata
persist_metadata-done path r done = ground arith

pub persist_metadata-failed :
    (path : Bytes) (r : Runtime) {e : Rv}
    → (persist_metadata path r).0 ≡ err e
    → (persist_metadata path r).1 ≡ record r {
      disk = (persist_metadata path r).1.disk;
      objects = erase_if (has_path path) r.objects;
    }
unfolding persist_metadata
persist_metadata-failed path r failed = ground arith

-- With the key registered, on the disk that its file has left.
abbrev pub placed : Object → Disk → Runtime → Runtime
placed o d r = record r { disk = d; objects = emplace o.handle o r.objects }

-- What a key that was published has left: it is registered under its handle, and as a token key it
-- has its metadata, and its text in a file that was not there before.
pub record Published (stored : Bool) (o : Object) (r r' : Runtime) : Type 0 where
  pub registered : r' ≡ record r { disk = r'.disk; objects = emplace o.handle o r.objects }
  pub new_file : stored ≡ true → file o.path r.disk ≡ none
  pub text :
      stored ≡ true
      → r.disk.faults.writing o.path ≡ false
      → file o.path r'.disk ≡ some (secret_text o)
  pub metadata :
      stored ≡ true
      → (d : Disk) × (create o.path (collect_metadata o.path none (placed o d r)) false d
          ≡ (ok tt, r'.disk))

-- Every object that is there was there.
abbrev pub NothingNew : Runtime → Runtime → Type 0
NothingNew r r' = (j : ℕ) (w : Object) → lookup j r'.objects ≡ some w → lookup j r.objects ≡ some w

-- A publication as a whole.
unfoldable pub Outcome : Bool → Object → Runtime → Result ℕ × Runtime → Type 0
Outcome stored o r (ok k, r') = (k ≡ o.handle) × Published stored o r r'
Outcome stored o r (err e, r') =
    (stored ≡ true) × (r' ≡ record r { disk = r'.disk; objects = r'.objects }) × NothingNew r r'

-- The key is erased with all objects of its path.
erased-NothingNew :
    (o : Object) (r : Runtime) (j : ℕ) (w : Object)
    → Unique r.objects
    → lookup o.handle r.objects ≡ none
    → lookup j (erase_if (has_path o.path) (emplace o.handle o r.objects)) ≡ some w
    → lookup j r.objects ≡ some w
erased-NothingNew o r j w u free there =
    let stored = emplace o.handle o r.objects in
    let erased =
      lookup-erase_if j (has_path o.path) stored (Unique-emplace o.handle o r.objects u) in
    let added = lookup-emplace_new j o.handle o r.objects free in
    elim (Bool-cases (o.handle == j)) [
      | inl own ↦ absurd (ground (arith, own, erased, added, bytes_eq_refl o.path))
      | inr other ↦ elim (Option-cases (lookup j r.objects)) [
        | inl missing ↦ absurd (ground (arith, other, erased, added, missing, there))
        | inr (w', found) ↦ ground (arith, other, erased, added, found, there)
      ]
    ]

-- From the disk on which the key file is saved.
persisted-Outcome :
    (o : Object) (r : Runtime) (d : Disk)
    → Unique r.objects
    → lookup o.handle r.objects ≡ none
    → file o.path r.disk ≡ none
    → (r.disk.faults.writing o.path ≡ false → file o.path d ≡ some (secret_text o))
    → Outcome true o r ((persist_metadata o.path >> pure o.handle) (placed o d r))
unfolding Outcome
persisted-Outcome o r d u free absent text =
    let r' = placed o d r in
    let records = collect_metadata o.path none r' in
    outcome->>= (Outcome true o r) (persist_metadata o.path) (λ _. pure o.handle) r'
      (λ e failed.
        let gone = persist_metadata-failed o.path r' failed in
        (refl, rw gone refl, λ j w. rw gone (λ there. erased-NothingNew o r j w u free there)))
      (λ v done.
        let (same, made) = persist_metadata-done o.path r' done in
        let kept = create-key_file o.path records false d in
        (
          refl,
          record {
            registered = rw same refl;
            new_file = λ _. absent;
            text = λ _ sound. sym (ap (λ x. file o.path x.1) made) ∙ kept ∙ text sound;
            metadata = λ _. (d, made);
          },
        ))

-- A secret key with a fresh handle is published whole or not at all: on success it is registered
-- under its handle, and a token key has its metadata, and its text unless the write of it fails, in
-- files that were not there; on a failure, which only a token key meets, there is no new object.
pub publish_secret-Outcome :
    (stored : Bool) (o : Object) (r : Runtime)
    → Unique r.objects
    → lookup o.handle r.objects ≡ none
    → Outcome stored o r (publish_secret stored o r)
unfolding publish_secret add_object Outcome
publish_secret-Outcome false o r u free = (
  refl,
  record {
    registered = refl;
    new_file = λ e. absurd (ground arith);
    text = λ e _. absurd (ground arith);
    metadata = λ e. absurd (ground arith);
  },
)
publish_secret-Outcome true o r u free =
    outcome->>= (Outcome true o r) (save_secret_key o) _ r
      (λ e failed. rw (save_secret_key-disk o r) (refl, refl, λ j w there. there))
      (λ v done.
        let (absent, text) = save_secret_key-done o r done in
        rw (save_secret_key-disk o r)
          (persisted-Outcome o r (save_secret_key o r).1.disk u free absent text))
