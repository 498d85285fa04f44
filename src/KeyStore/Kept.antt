-- ===== src/KeyStore/Kept.antt =====
-- Saving keys and their metadata keeps the registry well formed.
use pkcs11hsmsim.Base.{◌≡◌, Bool, true, false, none, Bytes, arith, erase_if}
use pkcs11hsmsim.Base.Dict.{emplace}
use pkcs11hsmsim.Result.{pure, outcome->>=}
use pkcs11hsmsim.Disk.{remove}
use pkcs11hsmsim.Metadata.{create}
use pkcs11hsmsim.Core.State.{Object, Runtime}
use pkcs11hsmsim.Core.Invariant.{IsValid, ObjectOk}
use pkcs11hsmsim.Core.Moves.{moved-IsValid}
use pkcs11hsmsim.Core.Placing.{placed-IsValid, dropped-IsValid}
use pkcs11hsmsim.KeyStore.{persist_metadata, collect_metadata, has_path}
use pkcs11hsmsim.KeyStore.Saving.{save_secret_key, add_object, publish_secret}

pub persist_metadata-IsValid :
    (path : Bytes) (r : Runtime) → IsValid r → IsValid (persist_metadata path r).1
unfolding persist_metadata
persist_metadata-IsValid path r v =
    let made = create path (collect_metadata path none r) false r.disk in
    let dropped = dropped-IsValid (has_path path) r v in
    ground (
      arith,
      moved-IsValid made.1 r v,
      moved-IsValid (remove path made.1).1
          (record r { objects = erase_if (has_path path) r.objects }) dropped,
    )

-- Saving a key changes nothing but the files.
pub save_secret_key-disk :
    (o : Object) (r : Runtime)
    → (save_secret_key o r).1 ≡ record r { disk = (save_secret_key o r).1.disk }
unfolding save_secret_key
save_secret_key-disk o r = ground arith

pub publish_secret-IsValid :
    (stored : Bool) (o : Object) (r : Runtime)
    → ObjectOk r.next_object_handle r.slots r.sessions (o.handle, o)
    → IsValid r
    → IsValid (publish_secret stored o r).1
unfolding publish_secret add_object
publish_secret-IsValid false o r good v = placed-IsValid o.handle o r good v
publish_secret-IsValid true o r good v =
    let saved = (save_secret_key o r).1 in
    let on_disk = moved-IsValid saved.disk r v in
    let placed = record r { disk = saved.disk; objects = emplace o.handle o r.objects } in
    outcome->>= (λ x. IsValid x.1) (save_secret_key o) _ r
      (λ e failed. rw (save_secret_key-disk o r) on_disk)
      (λ u done. rw (save_secret_key-disk o r) (
        outcome->>= (λ x. IsValid x.1) (persist_metadata o.path) (λ _. pure o.handle) placed
          (λ e failed.
            persist_metadata-IsValid o.path placed
              (placed-IsValid o.handle o (record r { disk = saved.disk }) good on_disk))
          (λ u done.
            persist_metadata-IsValid o.path placed
              (placed-IsValid o.handle o (record r { disk = saved.disk }) good on_disk))))
