-- ===== src/KeyStore/Created.antt =====
-- What a call that creates a secret key leaves of the registry.
use pkcs11hsmsim.Base.{
  ℕ, ◌+◌, ◌%◌, ◌<◌, ◌≡◌, refl, sym, ◌∙◌, ap, Bool, true, false, none, some, arith, ◌==◌, ◌||◌,
}
use pkcs11hsmsim.Base.Dict.{emplace, lookup, lookup-emplace_new}
use pkcs11hsmsim.Ck.{ulong_mod}
use pkcs11hsmsim.Result.{Rv, Result, ok, err}
use pkcs11hsmsim.Disk.{file}
use pkcs11hsmsim.Core.State.{Object, Session, Runtime}
use pkcs11hsmsim.Core.Invariant.{IsValid}
use pkcs11hsmsim.Core.Placing.{next-free, moved_on-IsValid, in_session-ObjectOk}
use pkcs11hsmsim.KeyStore.Saving.{publish_secret, secret_text}
use pkcs11hsmsim.KeyStore.Kept.{publish_secret-IsValid}
use pkcs11hsmsim.KeyStore.Published.{Outcome, NothingNew, publish_secret-Outcome}

-- The object `o` has come in under the next handle, and nothing else has changed but the counter and
-- the files. A token key was not on the disk, and is there unless the write of it fails.
pub record Created (o : Object) (k : ℕ) (r r' : Runtime) : Type 0 where
  pub handle : k ≡ r.next_object_handle
  pub own_handle : o.handle ≡ k
  pub there : lookup k r'.objects ≡ some o
  pub others : (j : ℕ) → (k == j) ≡ false → lookup j r'.objects ≡ lookup j r.objects
  pub same : r' ≡ record r {
    next_object_handle = r.next_object_handle + 1;
    objects = r'.objects;
    disk = r'.disk;
  }
  pub new_file : (o.owner_session == 0) ≡ true → file o.path r.disk ≡ none
  pub text :
      (o.owner_session == 0) ≡ true
      → r.disk.faults.writing o.path ≡ false
      → file o.path r'.disk ≡ some (secret_text o)

-- A call that failed: sessions and slots are as they were, and there is no new object.
pub record NotCreated (r r' : Runtime) : Type 0 where
  pub nothing_new : NothingNew r r'
  pub same : r' ≡ record r {
    next_object_handle = r'.next_object_handle;
    objects = r'.objects;
    disk = r'.disk;
  }

-- The key of a call that succeeds satisfies `P`; the registry is well formed afterwards.
unfoldable pub Creation : (Object → Type 0) → Runtime → Result ℕ × Runtime → Type 0
Creation P r (ok k, r') = (o : Object) × P o × Created o k r r' × IsValid r'
Creation P r (err e, r') = NotCreated r r' × IsValid r'

abbrev pub counted : Runtime → Runtime
counted r = record r { next_object_handle = (r.next_object_handle + 1) % ulong_mod }

module _ (P : Object → Type 0) (r : Runtime) (v : IsValid r) where
  pub unchanged-Creation : (e : Rv) → Creation P r (err e, r)
  unfolding Creation
  unchanged-Creation e = (record { nothing_new = λ j w there. there; same = refl }, v)

  module _ (room : r.next_object_handle + 1 < ulong_mod) where
    pub counted-IsValid : IsValid (counted r)
    counted-IsValid =
        moved_on-IsValid ((r.next_object_handle + 1) % ulong_mod) r (omega (arith, room)) v

    pub counted-Creation : (e : Rv) → Creation P r (err e, counted r)
    unfolding Creation
    counted-Creation e = (record { nothing_new = λ j w there. there; same = refl }, counted-IsValid)

    Outcome-Creation :
        (o : Object) (x : Result ℕ × Runtime)
        → o.handle ≡ r.next_object_handle
        → P o
        → Outcome (o.owner_session == 0) o (counted r) x
        → IsValid x.1
        → Creation P r x
    unfolding Outcome Creation
    Outcome-Creation o (err e, r') handle p (stored, same, nothing_new) valid =
        let counter = ap (λ x. x.next_object_handle) same in
        (
          record {
            nothing_new = nothing_new;
            same =
                same
                ∙ ap
                    (λ n. record r { next_object_handle = n; objects = r'.objects; disk = r'.disk })
                    (sym counter);
          },
          valid,
        )
    Outcome-Creation o (ok k, r') handle p (own, published) valid =
        let objects : r'.objects ≡ emplace o.handle o r.objects =
          ap (λ x. x.objects) published.registered in
        let free : lookup o.handle r.objects ≡ none = rw handle (next-free r v) in
        let added = λ (j : ℕ). lookup-emplace_new j o.handle o r.objects free in
        let next : (r.next_object_handle + 1) % ulong_mod ≡ r.next_object_handle + 1 =
          omega (arith, room) in
        let created : Created o k r r' = record {
          handle = own ∙ handle;
          own_handle = sym own;
          there = rw (objects, own) (ground (arith, added o.handle));
          others = λ j other. rw objects (ground (arith, own, added j));
          same = published.registered ∙ (rw (objects, next) refl);
          new_file = published.new_file;
          text = published.text;
        } in
        (o, p, created, valid)

    -- The last steps of a call that has used the next handle for its key.
    pub publish_secret-Creation :
        (stored : Bool) (o : Object) (h : ℕ) {s : Session}
        → lookup h r.sessions ≡ some s
        → o.handle ≡ r.next_object_handle
        → o.slot_id ≡ s.slot_id
        → stored ≡ (o.owner_session == 0)
        → o.owner_session == 0 || o.owner_session == h ≡ true
        → P o
        → Creation P r (publish_secret stored o (counted r))
    publish_secret-Creation stored o h found handle place tells owner p =
        let given : 0 < o.handle = omega (arith, handle, v.first_handles.1) in
        let below : o.handle < (r.next_object_handle + 1) % ulong_mod =
          omega (arith, handle, room) in
        let stored' = o.owner_session == 0 in
        rw tells (
          Outcome-Creation o (publish_secret stored' o (counted r)) handle p
            (publish_secret-Outcome stored' o (counted r) v.unique_objects
              (rw handle (next-free r v)))
            (publish_secret-IsValid stored' o (counted r)
              (in_session-ObjectOk o.handle h o (counted r) counted-IsValid found refl given below
                place owner)
              counted-IsValid))
