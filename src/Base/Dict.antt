-- ===== src/Base/Dict.antt =====
-- `std::map` and `std::unordered_map` keyed by numbers, as association lists. A file says
-- which order of the entries it relies on.
pub mod Unique
pub mod Scans
use Prim.Native.Nat.{ℕ}
use mathlib.Core.Path.{◌≡◌, refl}
use mathlib.Core.Bool.{Bool, true, false}
use mathlib.Core.Option.{Option, none, some}
use mathlib.Core.List.{List, [], ◌∷◌}
use native.Mathlib.Omega.{arith}
use pkcs11hsmsim.Base.Tests.{◌==◌, ltb, if◌then◌else◌, is_some}
use pkcs11hsmsim.Base.Lists.{any_of, erase_if, Each, Each-erase_if}

abbrev pub Dict {ℓ} : Type ℓ → Type ℓ
Dict V = List (ℕ × V)

module _ {ℓ} {V : Type ℓ} where
  -- `find`
  unfoldable pub lookup : ℕ → Dict V → Option V
  lookup k [] = none
  lookup k ((j, v) ∷ d) = if j == k then some v else lookup k d

  abbrev pub contains : ℕ → Dict V → Bool
  contains k d = is_some (lookup k d)

  -- `emplace` of an unordered map: an entry that is there already stays.
  unfoldable pub emplace : ℕ → V → Dict V → Dict V
  emplace k v d = if contains k d then d else (k, v) ∷ d

  -- `erase(key)`
  unfoldable pub erase : ℕ → Dict V → Dict V
  unfolding erase_if
  erase k d = erase_if (λ e. e.0 == k) d

  -- A change through a pointer to the stored value.
  unfoldable pub adjust : ℕ → (V → V) → Dict V → Dict V
  adjust k f [] = []
  adjust k f ((j, v) ∷ d) = if j == k then (j, f v) ∷ d else (j, v) ∷ adjust k f d

  -- A loop that changes every stored value.
  unfoldable pub update_all : (V → V) → Dict V → Dict V
  update_all f [] = []
  update_all f ((j, v) ∷ d) = (j, f v) ∷ update_all f d

  -- `map[key] = value` of an ordered map.
  unfoldable pub assign : ℕ → V → Dict V → Dict V
  assign k v [] = (k, v) ∷ []
  assign k v ((j, w) ∷ d) =
      if j == k then (k, v) ∷ d else if ltb k j then (k, v) ∷ (j, w) ∷ d else (j, w) ∷ assign k v d

  pub lookup-assign :
      (j k : ℕ) (v : V) (d : Dict V)
      → lookup j (assign k v d) ≡ (if k == j then some v else lookup j d)
  unfolding lookup assign
  lookup-assign j k v [] = ground arith
  lookup-assign j k v ((i, w) ∷ d) = ground (arith, lookup-assign j k v d)

  pub lookup-emplace_new :
      (j k : ℕ) (v : V) (d : Dict V)
      → lookup k d ≡ none
      → lookup j (emplace k v d) ≡ (if k == j then some v else lookup j d)
  unfolding emplace lookup
  lookup-emplace_new j k v d h = ground arith

  pub lookup-adjust :
      (j k : ℕ) (f : V → V) (d : Dict V)
      → lookup j (adjust k f d)
        ≡ (if k == j then elim (lookup j d) [ none ↦ none | some v ↦ some (f v) ] else lookup j d)
  unfolding lookup adjust
  lookup-adjust j k f [] = ground arith
  lookup-adjust j k f ((i, w) ∷ d) = ground (arith, lookup-adjust j k f d)

  pub lookup-update_all :
      (j : ℕ) (f : V → V) (d : Dict V)
      → lookup j (update_all f d) ≡ elim (lookup j d) [ none ↦ none | some v ↦ some (f v) ]
  unfolding lookup update_all
  lookup-update_all j f [] = refl
  lookup-update_all j f ((i, w) ∷ d) = ground (arith, lookup-update_all j f d)

  pub lookup-erase :
      (j k : ℕ) (d : Dict V) → lookup j (erase k d) ≡ (if k == j then none else lookup j d)
  unfolding lookup erase erase_if
  lookup-erase j k [] = ground arith
  lookup-erase j k ((i, w) ∷ d) = ground (arith, lookup-erase j k d)

  -- An entry that is found and fails the test is found after the erasure.
  pub lookup-erase_if_kept :
      (k : ℕ) (v : V) (p : ℕ × V → Bool) (d : Dict V)
      → lookup k d ≡ some v
      → p (k, v) ≡ false
      → lookup k (erase_if p d) ≡ some v
  unfolding lookup erase_if
  lookup-erase_if_kept k v p [] h e = cc
  lookup-erase_if_kept k v p ((j, w) ∷ d) h e = ground (arith, lookup-erase_if_kept k v p d)

  pub lookup-any_of :
      (k : ℕ) (p : ℕ × V → Bool) (d : Dict V) {v : V}
      → lookup k d ≡ some v
      → p (k, v) ≡ true
      → any_of p d ≡ true
  unfolding lookup any_of
  lookup-any_of k p [] h e = cc
  lookup-any_of k p ((j, w) ∷ d) {v} h e = ground (arith, lookup-any_of k p d {v = v})

module _ {ℓ κ} {V : Type ℓ} (P : ℕ × V → Type κ) where
  -- What holds of each entry holds of an entry that is found.
  pub Each-lookup : (k : ℕ) (v : V) (d : Dict V) → Each P d → lookup k d ≡ some v → P (k, v)
  unfolding lookup
  Each-lookup k v [] h e = cc
  Each-lookup k v ((j, w) ∷ d) h e = ground (arith, Each-lookup k v d h.1)

  pub Each-emplace : (k : ℕ) (v : V) (d : Dict V) → P (k, v) → Each P d → Each P (emplace k v d)
  unfolding emplace
  Each-emplace k v d p h = ground arith

  pub Each-adjust :
      (k : ℕ) (f : V → V) (d : Dict V)
      → ((v : V) → P (k, v) → P (k, f v))
      → Each P d
      → Each P (adjust k f d)
  unfolding adjust
  Each-adjust k f [] keep h = tt
  Each-adjust k f ((j, v) ∷ d) keep h = ground (arith, keep v, Each-adjust k f d keep h.1)

  pub Each-update_all :
      (f : V → V) (d : Dict V)
      → ((k : ℕ) (v : V) → P (k, v) → P (k, f v))
      → Each P d
      → Each P (update_all f d)
  unfolding update_all
  Each-update_all f [] keep h = tt
  Each-update_all f ((j, v) ∷ d) keep h = (keep j v h.0, Each-update_all f d keep h.1)

pub Each-erase {ℓ κ} :
    {V : Type ℓ} (P : ℕ × V → Type κ) (k : ℕ) (d : Dict V) → Each P d → Each P (erase k d)
unfolding erase
Each-erase P k d h = Each-erase_if P (λ e. e.0 == k) d h
