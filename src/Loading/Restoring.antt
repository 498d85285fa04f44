-- ===== src/Loading/Restoring.antt =====
-- A secret key that was saved comes back when its file is loaded.
use pkcs11hsmsim.Base.{
  ℕ, ◌<◌, ◌≤◌, ◌≡◌, refl, sym, ap, ◌∙◌, true, false, none, some, [], ◌∷◌, ◌++◌, Bytes, arith, ◌==◌,
  length, erase_if, Each, if◌then◌else◌,
}
use pkcs11hsmsim.Base.Text.{codes, join}
use pkcs11hsmsim.Base.Dict.{Dict, lookup, emplace, lookup-assign, assign}
use pkcs11hsmsim.Base.Dict.Unique.{Unique}
use pkcs11hsmsim.Ck.{cko_secret_key}
use pkcs11hsmsim.Result.{ok}
use pkcs11hsmsim.Openssl.{KeyReader, KeyWriter}
use pkcs11hsmsim.Disk.Laws.{bytes_eq_refl}
use pkcs11hsmsim.Utilities.{decode_hex, encode_hex, is_space}
use pkcs11hsmsim.Utilities.Hex.{decode_hex-encode_hex}
use pkcs11hsmsim.Metadata.{Records, Attributes, read, path}
use pkcs11hsmsim.Metadata.RoundTrip.{Storable}
use pkcs11hsmsim.Metadata.Publication.{read-create}
use pkcs11hsmsim.Core.State.{Object, Runtime}
use pkcs11hsmsim.KeyStore.{attributes_of, collect_from, collect_metadata, emplace_record}
use pkcs11hsmsim.KeyStore.Saving.{publish_secret, next_handle, add_object}
use pkcs11hsmsim.KeyStore.Published.{Outcome, publish_secret-Outcome}
use pkcs11hsmsim.KeyStore.KeyPairs.Registering.{joined}
use pkcs11hsmsim.Loading.{
  Storage, last_dot, extension, stem, load_symmetric_file, add_loaded, loaded_key, restored,
  with_attributes, input,
}

last_dot-append :
    (xs ys p q : Bytes) → last_dot ys ≡ some (p, q) → last_dot (xs ++ ys) ≡ some (xs ++ p, q)
unfolding last_dot
last_dot-append [] ys p q h = h
last_dot-append (x ∷ xs) ys p q h = ground (arith, last_dot-append xs ys p q h)

append-nil : (xs : Bytes) → xs ++ [] ≡ xs
append-nil [] = refl
append-nil (x ∷ xs) = ap (λ ys. x ∷ ys) (append-nil xs)

last_dot-key : last_dot (codes ".key") ≡ some ([], codes ".key")
unfolding last_dot
last_dot-key = refl

stem-key :
    (xs : Bytes) → stem (xs ++ codes ".key") ≡ (if length xs == 0 then xs ++ codes ".key" else xs)
unfolding stem
stem-key xs =
    ground (arith, last_dot-append xs (codes ".key") [] (codes ".key") last_dot-key, append-nil xs)

extension-key : (xs : Bytes) → 1 ≤ length xs → extension (xs ++ codes ".key") ≡ codes ".key"
unfolding extension
extension-key xs h =
    ground (arith, last_dot-append xs (codes ".key") [] (codes ".key") last_dot-key, append-nil xs)

erase_if-line : (xs : Bytes) → erase_if is_space (xs ++ (10 ∷ [])) ≡ erase_if is_space xs
unfolding erase_if is_space
erase_if-line [] = refl
erase_if-line (x ∷ xs) = ground (arith, erase_if-line xs)

decode_hex-line : (xs : Bytes) → decode_hex (xs ++ (10 ∷ [])) ≡ decode_hex xs
unfolding decode_hex
decode_hex-line xs = rw (erase_if-line xs) refl

-- A record that was collected first stays.
collect_from-first :
    (key : Bytes) (objects : Dict Object) (records : Records) (cls : ℕ) (a : Attributes)
    → lookup cls records ≡ some a
    → lookup cls (collect_from key none objects records) ≡ some a
unfolding collect_from
collect_from-first key [] records cls a h = h
collect_from-first key ((k, o) ∷ objects) records cls a h = ground (
  arith,
  h,
  collect_from-first key objects records cls a h,
  collect_from-first key objects (emplace_record o.object_class (attributes_of o) records) cls a,
  lookup-assign cls o.object_class (attributes_of o) records,
)

module _ (o : Object) (r r' : Runtime) (k : ℕ) (u : Unique r.objects)
    (fresh : lookup o.handle r.objects ≡ none) (owned : o.owner_session ≡ 0)
    (done : publish_secret true o r ≡ (ok k, r')) where
  published : Outcome true o r (ok k, r')
  published = rw (← done) (publish_secret-Outcome true o r u fresh)

  abbrev pub recorded : Records
  recorded = collect_metadata o.path none (record r { objects = emplace o.handle o r.objects })

  emplaced : emplace o.handle o r.objects ≡ (o.handle, o) ∷ r.objects
  unfolding emplace
  emplaced = ground (arith, fresh)

  abbrev first : Records
  first = (o.object_class, attributes_of o) ∷ []

  first-there : lookup o.object_class first ≡ some (attributes_of o)
  unfolding lookup
  first-there = ground arith

  lookup-first :
      lookup o.object_class (collect_from o.path none ((o.handle, o) ∷ r.objects) [])
      ≡ some (attributes_of o)
  unfolding collect_from assign lookup
  lookup-first = ground (
    arith,
    owned,
    bytes_eq_refl o.path,
    collect_from-first o.path r.objects first o.object_class (attributes_of o) first-there,
  )

  lookup-recorded : lookup o.object_class recorded ≡ some (attributes_of o)
  unfolding collect_metadata
  lookup-recorded = rw emplaced lookup-first

  read-recorded :
      Storable recorded
      → r'.disk.faults.probing (path o.path) ≡ false
      → r'.disk.faults.opening (path o.path) ≡ false
      → read o.path r'.disk ≡ ok recorded
  unfolding Outcome collect_metadata
  read-recorded good found opened =
      let (d, made) = published.1.metadata refl in
      read-create o.path recorded false d r'.disk good made found opened

  restored-attributes :
      (reader : KeyReader) (writer : KeyWriter) (storage : Storage) (loaded : Object)
      → loaded.path ≡ o.path
      → loaded.object_class ≡ o.object_class
      → Storable recorded
      → r'.disk.faults.probing (path o.path) ≡ false
      → r'.disk.faults.opening (path o.path) ≡ false
      → restored reader writer storage r'.disk loaded
        ≡ ok (with_attributes reader writer storage (attributes_of o) loaded)
  unfolding restored
  restored-attributes reader writer storage loaded same class good found opened =
      ground (arith, same, class, read-recorded good found opened, lookup-recorded)

  module _ (reader : KeyReader) (writer : KeyWriter) (storage : Storage) (folder xs id : Bytes)
      (slot_id : ℕ) (named : o.path ≡ join folder (xs ++ codes ".key")) (some_char : 1 ≤ length xs)
      (class : o.object_class ≡ cko_secret_key) (bytes : Each (λ b. b < 256) o.secret_value)
      (some_byte : 1 ≤ length o.secret_value) (written : r.disk.faults.writing o.path ≡ false)
      (readable : r'.disk.faults.opening o.path ≡ false) (good : Storable recorded)
      (found : r'.disk.faults.probing (path o.path) ≡ false)
      (opened : r'.disk.faults.opening (path o.path) ≡ false)
      (digested : writer.digest (xs ++ codes ".key") ≡ some id) (s : Runtime)
      (same_disk : s.disk ≡ r'.disk) where
    abbrev loaded : Object
    loaded = loaded_key s.next_object_handle slot_id folder (xs ++ codes ".key") o.secret_value id

    input-decoded : decode_hex (input (join folder (xs ++ codes ".key")) s.disk) ≡ o.secret_value
    unfolding Outcome
    input-decoded =
        let text = published.1.text refl written in
        let back =
          decode_hex-line (encode_hex o.secret_value)
          ∙ decode_hex-encode_hex o.secret_value bytes in
        rw (same_disk, ← named) (rw readable (rw text back))

    -- A token key that was published comes back after a restart: in whatever registry with the same disk its
    -- file is loaded, the object gets the next handle, the name of the file as its label and the bytes of
    -- the key as its value; and its metadata gives it label, id and policies of the key back. This holds
    -- where the write of the key file and the later reads do not fail, the file is named `xs.key`, the key
    -- is a secret key with a non-empty value of bytes, the digest of the name can be made, and the metadata
    -- of the file's objects is of a size that can be stored.
    pub load_symmetric_file-saved :
        (load_symmetric_file reader writer storage slot_id folder (xs ++ codes ".key") s
          ≡ (ok tt, joined loaded s))
        × (restored reader writer storage s.disk loaded
            ≡ ok (record loaded { label = o.label; id = o.id; policy = o.policy }))
        × (loaded.secret_value ≡ o.secret_value)
        × (loaded.label ≡ xs)
        × (loaded.path ≡ o.path)
    unfolding load_symmetric_file add_loaded next_handle add_object
    load_symmetric_file-saved = (
      ground (
        arith,
        input-decoded,
        some_byte,
        digested,
        extension-key xs some_char,
        bytes_eq_refl (codes ".key"),
      ),
      rw same_disk (
          restored-attributes reader writer storage loaded (sym named) (sym class) good found
            opened),
      refl,
      stem-key xs ∙ ground (arith, some_char),
      sym named,
    )
