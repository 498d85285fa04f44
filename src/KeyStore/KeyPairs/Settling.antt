-- ===== src/KeyStore/KeyPairs/Settling.antt =====
-- src/crypto/key_generation.cpp and src/crypto/wrapping.cpp: after registerKeyPair, both objects of the
-- pair get what the templates say of them.
use pkcs11hsmsim.Base.{ℕ, ◌≡◌, false, none, some, Bytes, arith, ◌==◌, if◌then◌else◌}
use pkcs11hsmsim.Base.Dict.{lookup, adjust, lookup-adjust, Each-lookup}
use pkcs11hsmsim.Result.{ok, err, general_error, Exec, gets, need, modify, ◌>>=◌, ◌>>◌}
use pkcs11hsmsim.Core.State.{Object, Runtime}
use pkcs11hsmsim.Core.Invariant.{IsValid, ObjectOk}
use pkcs11hsmsim.Core.Placing.{changed-IsValid}

abbrev pub with_id : Bytes → Object → Object
with_id id o = record o { id = id }

-- `at` throws where the public part is missing, after the private object has its id.
unfoldable pub settle :
    ℕ
    → ℕ
    → (Bytes → Bytes)
    → (Object → Object)
    → (Bytes → Object → Object)
    → Exec Runtime (Unit {0})
settle k k' id_of settle_private settle_public = do
  r ← gets (λ r. r)
  o ← need (lookup k r.objects) general_error
  let id = id_of o.id
  modify (λ r. record r { objects = adjust k (with_id id) r.objects })
  r ← gets (λ r. r)
  p ← need (lookup k' r.objects) general_error
  modify
      (λ r. record r { objects = adjust k settle_private (adjust k' (settle_public id) r.objects) })

module _ (k k' : ℕ) (id_of : Bytes → Bytes) (f : Object → Object) (g : Bytes → Object → Object)
    (r : Runtime) (apart : (k == k') ≡ false) {o : Object}
    (there : lookup k r.objects ≡ some o) where
  abbrev pub settled : Runtime
  settled = record r {
    objects = adjust k f (adjust k' (g (id_of o.id)) (adjust k (with_id (id_of o.id)) r.objects));
  }

  abbrev pub half_settled : Runtime
  half_settled = record r { objects = adjust k (with_id (id_of o.id)) r.objects }

  pub settle-done :
      {p : Object} → lookup k' r.objects ≡ some p → settle k k' id_of f g r ≡ (ok tt, settled)
  unfolding settle
  settle-done {p} public_there =
      ground
        (arith, there, public_there, apart, lookup-adjust k' k (with_id (id_of o.id)) r.objects)

  pub settle-failed :
      lookup k' r.objects ≡ none → settle k k' id_of f g r ≡ (err general_error, half_settled)
  unfolding settle
  settle-failed missing =
      ground (arith, there, missing, apart, lookup-adjust k' k (with_id (id_of o.id)) r.objects)

  abbrev first : Bytes
  first = id_of o.id

  pub lookup-settled :
      (j : ℕ)
      → lookup j settled.objects ≡ (
          if k == j
          then some (f (with_id first o))
          else if k' == j
          then elim (lookup k' r.objects) [ none ↦ none | some p ↦ some (g first p) ]
          else lookup j r.objects)
  lookup-settled j =
      let named = adjust k (with_id first) r.objects in
      ground (
        arith,
        there,
        apart,
        lookup-adjust j k f (adjust k' (g first) named),
        lookup-adjust j k' (g first) named,
        lookup-adjust j k (with_id first) r.objects,
      )

  module _ (v : IsValid r) where
    pub half_settled-IsValid : IsValid half_settled
    half_settled-IsValid =
        let P = ObjectOk r.next_object_handle r.slots r.sessions in
        let good = Each-lookup P k o r.objects v.objects_ok there in
        changed-IsValid k o (with_id first) r there (good.0, good.1, good.2, good.3, good.4) v

    pub settled-IsValid :
        {p : Object}
        → lookup k' r.objects ≡ some p
        → ObjectOk r.next_object_handle r.slots r.sessions (k, f (with_id first o))
        → ObjectOk r.next_object_handle r.slots r.sessions (k', g first p)
        → IsValid settled
    settled-IsValid {p} public_there private_ok public_ok =
        let r1 = half_settled in
        let r2 = record r1 { objects = adjust k' (g first) r1.objects } in
        let found1 : lookup k' r1.objects ≡ some p =
          ground (arith, apart, public_there, lookup-adjust k' k (with_id first) r.objects) in
        let found2 : lookup k r2.objects ≡ some (with_id first o) = ground (
          arith,
          apart,
          there,
          lookup-adjust k k' (g first) r1.objects,
          lookup-adjust k k (with_id first) r.objects,
        ) in
        changed-IsValid k (with_id first o) f r2 found2 private_ok
          (changed-IsValid k' p (g first) r1 found1 public_ok half_settled-IsValid)
