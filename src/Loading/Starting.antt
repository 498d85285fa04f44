-- ===== src/Loading/Starting.antt =====
-- Initialize leaves a well-formed registry, whatever is on the disk.
use pkcs11hsmsim.Base.{
  ℕ, ◌+◌, ◌*◌, ◌<◌, ◌≡◌, refl, true, Option, none, some, List, [], ◌∷◌, Bytes, arith, length, inl,
  inr, Option-cases,
}
use pkcs11hsmsim.Base.Text.{join}
use pkcs11hsmsim.Base.Dict.{Dict, contains}
use pkcs11hsmsim.Ck.{ulong_mod, cko_private_key, cko_public_key}
use pkcs11hsmsim.Result.{Result, general_error, outcome->>=, outcome-need, outcome-refuse_if}
use pkcs11hsmsim.Openssl.{KeyReader, KeyWriter}
use pkcs11hsmsim.Core.State.{Slot, Runtime}
use pkcs11hsmsim.KeyStore.Saving.{next_handle, add_object}
use pkcs11hsmsim.KeyStore.KeyPairs.{
  register_key_pair, register_public, register_certificate, pair_object, certificate_object,
}
use pkcs11hsmsim.KeyStore.KeyPairs.Registering.{joined}
use pkcs11hsmsim.Loading.Symmetric.{Loaded, more-Loaded, joined-Loaded, load_symmetric_files-Loaded}
use pkcs11hsmsim.Loading.{
  Storage, load_symmetric_files, load_asymmetric_file, load_asymmetric_files, asymmetric_folder,
  symmetric_folder, load_slot, input, stem,
}

module _ (reader : KeyReader) (writer : KeyWriter) (storage : Storage) (slots : Dict Slot) where
  module _ (slot_id : ℕ) (label id path : Bytes) (there : contains slot_id slots ≡ true) (limit : ℕ)
      (r : Runtime) (room : limit + 1 < ulong_mod) (l : Loaded slots limit r) where
    register_public-Loaded :
        (key : ℕ)
        → Loaded slots (limit + 1) (register_public reader writer slot_id label id path key r).1
    unfolding register_public next_handle add_object
    register_public-Loaded key = elim (Option-cases (writer.public_part key)) [
      | inl missing ↦ ground (arith, missing, more-Loaded slots limit (limit + 1) r (omega arith) l)
      | inr (part, made) ↦
          let k = r.next_object_handle in
          let o = pair_object reader writer k slot_id cko_public_key label id path key part in
          ground (arith, made, joined-Loaded slots limit o r l room refl refl there)
    ]

    register_certificate-Loaded :
        (certificate : Option ℕ)
        → Loaded slots
            (limit + 1)
            (register_certificate reader writer slot_id label id path certificate r).1
    unfolding register_certificate next_handle add_object
    register_certificate-Loaded none = more-Loaded slots limit (limit + 1) r (omega arith) l
    register_certificate-Loaded (some certificate) =
        joined-Loaded slots limit
          (certificate_object reader writer r.next_object_handle slot_id label id path certificate)
          r l room refl refl there

  register_key_pair-Loaded :
      (slot_id : ℕ) (label folder name : Bytes) (key : ℕ) (certificate : Option ℕ) (limit : ℕ)
      (r : Runtime)
      → contains slot_id slots ≡ true
      → limit + 3 < ulong_mod
      → Loaded slots limit r
      → Loaded slots
          (limit + 3)
          (register_key_pair reader writer slot_id label folder name key certificate r).1
  unfolding register_key_pair next_handle add_object
  register_key_pair-Loaded slot_id label folder name key certificate limit r there room l =
      let Q : Result (Unit {0}) × Runtime → Type 0 = λ x. Loaded slots (limit + 3) x.1 in
      outcome-need Q (writer.digest name) general_error _ r
        (more-Loaded slots limit (limit + 3) r (omega arith) l)
        (λ id _.
          let path = join folder name in
          let o =
            pair_object reader writer r.next_object_handle slot_id cko_private_key label id path key
              key in
          let r1 = joined o r in
          let l1 = joined-Loaded slots limit o r l (omega (arith, room)) refl refl there in
          let public = register_public reader writer slot_id label id path key in
          let l2 =
            register_public-Loaded slot_id label id path there (limit + 1) r1 (omega (arith, room))
              l1 key in
          outcome->>= Q public
            (λ _. register_certificate reader writer slot_id label id path certificate) r1
            (λ e _. more-Loaded slots (limit + 1 + 1) (limit + 3) (public r1).1 (omega arith) l2)
            (λ _ _.
              more-Loaded slots (limit + 1 + 1 + 1) (limit + 3)
                (register_certificate reader writer slot_id label id path certificate
                  (public r1).1).1
                (omega arith)
                (register_certificate-Loaded slot_id label id path there (limit + 1 + 1)
                  (public r1).1 (omega (arith, room)) l2 certificate)))

  load_asymmetric_file-Loaded :
      (slot : Slot) (folder name : Bytes) (limit : ℕ) (r : Runtime)
      → contains slot.id slots ≡ true
      → limit + 3 < ulong_mod
      → Loaded slots limit r
      → Loaded slots (limit + 3) (load_asymmetric_file reader writer storage slot folder name r).1
  unfolding load_asymmetric_file
  load_asymmetric_file-Loaded slot folder name limit r there room l =
      let der = input (join folder name) r.disk in
      let same = more-Loaded slots limit (limit + 3) r (omega arith) l in
      elim (Option-cases (storage.parse_p12 der slot.p12_password)) [
        | inl failed ↦ ground (arith, failed, same)
        | inr ((key, certificate), found) ↦ ground (
          arith,
          found,
          same,
          register_key_pair-Loaded slot.id (stem name) folder name key certificate limit r there
              room l,
        )
      ]

  load_asymmetric_files-Loaded :
      (slot : Slot) (folder : Bytes) (names : List Bytes) (limit : ℕ) (r : Runtime)
      → contains slot.id slots ≡ true
      → limit + 3 * length names < ulong_mod
      → Loaded slots limit r
      → Loaded slots
          (limit + 3 * length names)
          (load_asymmetric_files reader writer storage slot folder names r).1
  unfolding load_asymmetric_files
  load_asymmetric_files-Loaded slot folder [] limit r there room l =
      more-Loaded slots limit (limit + 3 * 0) r (omega arith) l
  load_asymmetric_files-Loaded slot folder (name ∷ names) limit r there room l =
      let total = limit + 3 * length (name ∷ names) in
      let file = load_asymmetric_file reader writer storage slot folder name in
      let one =
        load_asymmetric_file-Loaded slot folder name limit r there (omega (arith, room)) l in
      outcome->>= (λ x. Loaded slots total x.1) file _ r
        (λ e _. more-Loaded slots (limit + 3) total (file r).1 (omega arith) one)
        (λ _ _.
          more-Loaded slots (limit + 3 + 3 * length names) total
            (load_asymmetric_files reader writer storage slot folder names (file r).1).1
            (omega arith)
            (load_asymmetric_files-Loaded slot folder names (limit + 3) (file r).1 there
              (omega (arith, room)) one))

  -- Three objects for a container at most, and one for a secret key.
  abbrev pub slot_room : Slot → ℕ
  slot_room slot =
      3 * length (storage.names (asymmetric_folder reader writer storage slot))
      + length (storage.names (symmetric_folder reader writer storage slot))

  pub load_slot-Loaded :
      (id : ℕ) (slot : Slot) (limit : ℕ) (r : Runtime)
      → contains slot.id slots ≡ true
      → contains id slots ≡ true
      → limit + slot_room slot < ulong_mod
      → Loaded slots limit r
      → Loaded slots (limit + slot_room slot) (load_slot reader writer storage id slot r).1
  unfolding load_slot
  load_slot-Loaded id slot limit r there there' room l =
      let folder = asymmetric_folder reader writer storage slot in
      let folder' = symmetric_folder reader writer storage slot in
      let total = limit + slot_room slot in
      let Q : Result (Unit {0}) × Runtime → Type 0 = λ x. Loaded slots total x.1 in
      let same = more-Loaded slots limit total r (omega arith) l in
      let pairs = load_asymmetric_files reader writer storage slot folder (storage.names folder) in
      let one =
        load_asymmetric_files-Loaded slot folder (storage.names folder) limit r there
          (omega (arith, room)) l in
      outcome-refuse_if Q (storage.refuses folder) general_error _ r same (λ _.
        outcome-refuse_if Q (storage.refuses folder') general_error _ r same (λ _.
          outcome->>= Q pairs
            (λ _. load_symmetric_files reader writer storage id folder' (storage.names folder')) r
            (λ e _.
              more-Loaded slots (limit + 3 * length (storage.names folder)) total (pairs r).1
                (omega arith) one)
            (λ _ _.
              more-Loaded slots
                (limit + 3 * length (storage.names folder) + length (storage.names folder')) total
                (load_symmetric_files reader writer storage id folder' (storage.names folder')
                  (pairs r).1).1
                (omega arith)
                (load_symmetric_files-Loaded reader writer storage slots id folder'
                  (storage.names folder') (limit + 3 * length (storage.names folder)) (pairs r).1
                  there' (omega (arith, room)) one))))
