-- ===== src/KeyStore/Saving.antt =====
-- src/storage/key_store.cpp: saving a secret key; and the steps that GenerateKey, DeriveKey and
-- UnwrapKey share, from the object that they have made to its handle.
use pkcs11hsmsim.Base.{ℕ, ◌+◌, ◌%◌, Bool, [], ◌∷◌, ◌++◌, Bytes, if◌then◌else◌}
use pkcs11hsmsim.Base.Dict.{emplace}
use pkcs11hsmsim.Base.Text.{codes, join}
use pkcs11hsmsim.Ck.{ulong_mod}
use pkcs11hsmsim.Result.{ok, err, device_error, template_inconsistent, Exec, pure, modify, ◌>>◌}
use pkcs11hsmsim.Disk.{exists, write_unflushed}
use pkcs11hsmsim.Utilities.{encode_hex, safe_filename}
use pkcs11hsmsim.Core.State.{Object, Runtime}
use pkcs11hsmsim.KeyStore.{persist_metadata}

-- `runtime.nextObjectHandle++`
unfoldable pub next_handle : Exec Runtime ℕ
next_handle r = (
  ok r.next_object_handle,
  record r { next_object_handle = (r.next_object_handle + 1) % ulong_mod },
)

-- `(directory / folder / (safeFilename(label) + extension)).string()`
unfoldable pub key_path : Bytes → Bytes → Bytes → Bytes → Bytes
key_path directory folder label extension =
    join (join directory folder) (safe_filename label ++ extension)

abbrev pub secret_path : Bytes → Bytes → Bytes
secret_path directory label = key_path directory (codes "symmetric") label (codes ".key")

-- What `saveSecretKey` writes.
abbrev pub secret_text : Object → Bytes
secret_text o = encode_hex o.secret_value ++ (10 ∷ [])

unfoldable pub save_secret_key : Object → Exec Runtime (Unit {0})
save_secret_key o r = elim (exists o.path r.disk) [
  | err e ↦ (err e, r)
  | ok there ↦
      let (failed, d) = write_unflushed o.path (secret_text o) r.disk in
      if there
      then (err template_inconsistent, r)
      else (if failed then err device_error else ok tt, record r { disk = d })
]

unfoldable pub add_object : Object → Exec Runtime (Unit {0})
add_object o = modify (λ r. record r { objects = emplace o.handle o r.objects })

-- `stored` says whether the key goes into the token.
unfoldable pub publish_secret : Bool → Object → Exec Runtime ℕ
publish_secret stored o = do
  if stored then save_secret_key o else pure tt
  add_object o
  if stored then persist_metadata o.path else pure tt
  pure o.handle
