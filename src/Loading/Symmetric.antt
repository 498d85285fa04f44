-- ===== src/Loading/Symmetric.antt =====
-- Loading objects keeps the registry well formed: the steps, and the secret keys.
use pkcs11hsmsim.Base.{
  ℕ, ◌+◌, ◌%◌, ◌<◌, ◌≤◌, ◌≡◌, refl, true, false, List, [], ◌∷◌, Bytes, arith, length,
}
use pkcs11hsmsim.Base.Text.{join}
use pkcs11hsmsim.Base.Dict.{Dict, contains}
use pkcs11hsmsim.Ck.{ulong_mod}
use pkcs11hsmsim.Result.{general_error, outcome->>=, outcome-need}
use pkcs11hsmsim.Openssl.{KeyReader, KeyWriter}
use pkcs11hsmsim.Core.State.{Slot, Object, Runtime}
use pkcs11hsmsim.Core.Invariant.{IsValid}
use pkcs11hsmsim.Core.Placing.{moved_on-IsValid}
use pkcs11hsmsim.Utilities.{decode_hex}
use pkcs11hsmsim.KeyStore.Saving.{next_handle, add_object}
use pkcs11hsmsim.KeyStore.KeyPairs.Registering.{joined, joined-IsValid}
use pkcs11hsmsim.Loading.{
  Storage, load_symmetric_file, load_symmetric_files, add_loaded, loaded_key, input,
}

-- A registry that is well formed, with the slots `slots` and without sessions, not initialized yet, and of
-- which at most so many handles are used.
pub record Loaded (slots : Dict Slot) (limit : ℕ) (r : Runtime) : Type 0 where
  pub valid : IsValid r
  pub slots_same : r.slots ≡ slots
  pub bounded : r.next_object_handle ≤ limit
  pub quiet : (r.sessions ≡ []) × (r.initialized ≡ false)

pub more-Loaded :
    (slots : Dict Slot) (limit limit' : ℕ) (r : Runtime)
    → limit ≤ limit'
    → Loaded slots limit r
    → Loaded slots limit' r
more-Loaded slots limit limit' r more l = record {
  valid = l.valid;
  slots_same = l.slots_same;
  bounded = omega (arith, l.bounded, more);
  quiet = l.quiet;
}

pub counted-Loaded :
    (slots : Dict Slot) (limit : ℕ) (r : Runtime)
    → limit + 1 < ulong_mod
    → Loaded slots limit r
    → Loaded slots
        (limit + 1)
        (record r { next_object_handle = (r.next_object_handle + 1) % ulong_mod })
counted-Loaded slots limit r room l = record {
  valid =
      moved_on-IsValid ((r.next_object_handle + 1) % ulong_mod) r (omega (arith, l.bounded, room))
        l.valid;
  slots_same = l.slots_same;
  bounded = omega (arith, l.bounded, room);
  quiet = l.quiet;
}

pub joined-Loaded :
    (slots : Dict Slot) (limit : ℕ) (o : Object) (r : Runtime)
    → Loaded slots limit r
    → limit + 1 < ulong_mod
    → o.handle ≡ r.next_object_handle
    → o.owner_session ≡ 0
    → contains o.slot_id slots ≡ true
    → Loaded slots (limit + 1) (joined o r)
joined-Loaded slots limit o r l room handle owner slot =
    let small : r.next_object_handle + 1 < ulong_mod = omega (arith, l.bounded, room) in
    record {
      valid = joined-IsValid o r small handle owner (rw l.slots_same slot) l.valid;
      slots_same = l.slots_same;
      bounded = omega (arith, l.bounded, small);
      quiet = l.quiet;
    }

module _ (reader : KeyReader) (writer : KeyWriter) (storage : Storage) (slots : Dict Slot) where
  add_loaded-Loaded :
      (slot_id : ℕ) (folder name value : Bytes) (limit : ℕ) (r : Runtime)
      → contains slot_id slots ≡ true
      → limit + 1 < ulong_mod
      → Loaded slots limit r
      → Loaded slots (limit + 1) (add_loaded reader writer storage slot_id folder name value r).1
  unfolding add_loaded next_handle add_object
  add_loaded-Loaded slot_id folder name value limit r there room l =
      outcome-need (λ x. Loaded slots (limit + 1) x.1) (writer.digest name) general_error _
        (record r { next_object_handle = (r.next_object_handle + 1) % ulong_mod })
        (counted-Loaded slots limit r room l)
        (λ id _.
          joined-Loaded slots limit (loaded_key r.next_object_handle slot_id folder name value id) r
            l room refl refl there)

  load_symmetric_file-Loaded :
      (slot_id : ℕ) (folder name : Bytes) (limit : ℕ) (r : Runtime)
      → contains slot_id slots ≡ true
      → limit + 1 < ulong_mod
      → Loaded slots limit r
      → Loaded slots (limit + 1) (load_symmetric_file reader writer storage slot_id folder name r).1
  unfolding load_symmetric_file
  load_symmetric_file-Loaded slot_id folder name limit r there room l =
      let value = decode_hex (input (join folder name) r.disk) in
      ground (
        arith,
        more-Loaded slots limit (limit + 1) r (omega arith) l,
        add_loaded-Loaded slot_id folder name value limit r there room l,
      )

  pub load_symmetric_files-Loaded :
      (slot_id : ℕ) (folder : Bytes) (names : List Bytes) (limit : ℕ) (r : Runtime)
      → contains slot_id slots ≡ true
      → limit + length names < ulong_mod
      → Loaded slots limit r
      → Loaded slots
          (limit + length names)
          (load_symmetric_files reader writer storage slot_id folder names r).1
  unfolding load_symmetric_files
  load_symmetric_files-Loaded slot_id folder [] limit r there room l =
      more-Loaded slots limit (limit + 0) r (omega arith) l
  load_symmetric_files-Loaded slot_id folder (name ∷ names) limit r there room l =
      let total = limit + length (name ∷ names) in
      let file = load_symmetric_file reader writer storage slot_id folder name in
      let one =
        load_symmetric_file-Loaded slot_id folder name limit r there (omega (arith, room)) l in
      outcome->>= (λ x. Loaded slots total x.1) file _ r
        (λ e _. more-Loaded slots (limit + 1) total (file r).1 (omega arith) one)
        (λ _ _.
          more-Loaded slots (limit + 1 + length names) total
            (load_symmetric_files reader writer storage slot_id folder names (file r).1).1
            (omega arith)
            (load_symmetric_files-Loaded slot_id folder names (limit + 1) (file r).1 there
              (omega (arith, room)) one))
