-- ===== src/Base/Dict/Scans.antt =====
-- Tests on all entries of an association list, under the changes of the registry.
use pkcs11hsmsim.Base.Dict.{Dict, lookup, emplace, update_all, adjust}
use Prim.Native.Nat.{ℕ}
use mathlib.Core.Path.{◌≡◌, refl}
use mathlib.Core.Bool.{Bool, true, false}
use mathlib.Core.Option.{some}
use mathlib.Core.List.{[], ◌∷◌}
use native.Mathlib.Omega.{arith}
use pkcs11hsmsim.Base.Lists.{any_of}

module _ {ℓ} {V : Type ℓ} where
  pub any_of-emplace-true :
      (p : ℕ × V → Bool) (k : ℕ) (v : V) (d : Dict V)
      → any_of p d ≡ true
      → any_of p (emplace k v d) ≡ true
  unfolding any_of emplace
  any_of-emplace-true p k v d h = ground arith

  pub any_of-emplace-false :
      (p : ℕ × V → Bool) (k : ℕ) (v : V) (d : Dict V)
      → p (k, v) ≡ false
      → any_of p d ≡ false
      → any_of p (emplace k v d) ≡ false
  unfolding any_of emplace
  any_of-emplace-false p k v d e h = ground arith

  -- A test that the change does not affect.
  pub any_of-update_all :
      (p : ℕ × V → Bool) (f : V → V) (d : Dict V)
      → ((k : ℕ) (v : V) → p (k, f v) ≡ p (k, v))
      → any_of p (update_all f d) ≡ any_of p d
  unfolding any_of update_all
  any_of-update_all p f [] same = refl
  any_of-update_all p f ((k, v) ∷ d) same = ground (arith, same k v, any_of-update_all p f d same)

  pub any_of-adjust :
      (p : ℕ × V → Bool) (k : ℕ) (f : V → V) (d : Dict V)
      → ((j : ℕ) (v : V) → p (j, f v) ≡ p (j, v))
      → any_of p (adjust k f d) ≡ any_of p d
  unfolding any_of adjust
  any_of-adjust p k f [] same = refl
  any_of-adjust p k f ((j, v) ∷ d) same = ground (arith, same j v, any_of-adjust p k f d same)

  pub lookup-emplace_kept :
      (j k : ℕ) (v w : V) (d : Dict V) → lookup j d ≡ some w → lookup j (emplace k v d) ≡ some w
  unfolding lookup emplace
  lookup-emplace_kept j k v w d h = ground arith
