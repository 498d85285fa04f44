-- ===== src/Base/Dict/Unique.antt =====
-- Association lists that hold each key once, as a map does.
use pkcs11hsmsim.Base.Dict.{Dict, lookup, emplace, erase, adjust, update_all, contains}
use Prim.Native.Nat.{ℕ}
use mathlib.Core.Path.{◌≡◌, refl}
use mathlib.Core.Logic.{◌≢◌}
use mathlib.Core.Bool.{Bool, false}
use mathlib.Core.Option.{none, some}
use mathlib.Core.List.{[], ◌∷◌}
use native.Mathlib.Omega.{arith}
use pkcs11hsmsim.Base.Tests.{◌==◌, if◌then◌else◌}
use pkcs11hsmsim.Base.Lists.{any_of, erase_if, Each}

abbrev pub Unique {ℓ} : {V : Type ℓ} → Dict V → Type ℓ
Unique [] = Unit
Unique ((k, v) ∷ d) = (lookup k d ≡ none) × Unique d

module _ {ℓ} {V : Type ℓ} where
  lookup-erase_if-none :
      (k : ℕ) (p : ℕ × V → Bool) (d : Dict V) → lookup k d ≡ none → lookup k (erase_if p d) ≡ none
  unfolding lookup erase_if
  lookup-erase_if-none k p [] h = refl
  lookup-erase_if-none k p ((j, v) ∷ d) h = ground (arith, lookup-erase_if-none k p d)

  pub Unique-emplace : (k : ℕ) (v : V) (d : Dict V) → Unique d → Unique (emplace k v d)
  unfolding emplace
  Unique-emplace k v d u = ground arith

  pub Unique-erase_if : (p : ℕ × V → Bool) (d : Dict V) → Unique d → Unique (erase_if p d)
  unfolding erase_if
  Unique-erase_if p [] u = tt
  Unique-erase_if p ((j, v) ∷ d) u =
      ground (arith, lookup-erase_if-none j p d, Unique-erase_if p d u.1)

  pub Unique-erase : (k : ℕ) (d : Dict V) → Unique d → Unique (erase k d)
  unfolding erase
  Unique-erase k d u = Unique-erase_if (λ e. e.0 == k) d u

  lookup-adjust-none :
      (j k : ℕ) (f : V → V) (d : Dict V) → lookup j d ≡ none → lookup j (adjust k f d) ≡ none
  unfolding lookup adjust
  lookup-adjust-none j k f [] h = refl
  lookup-adjust-none j k f ((i, w) ∷ d) h = ground (arith, lookup-adjust-none j k f d)

  pub Unique-adjust : (k : ℕ) (f : V → V) (d : Dict V) → Unique d → Unique (adjust k f d)
  unfolding adjust
  Unique-adjust k f [] u = tt
  Unique-adjust k f ((j, v) ∷ d) u =
      ground (arith, lookup-adjust-none j k f d, Unique-adjust k f d u.1)

  lookup-update_all-none :
      (j : ℕ) (f : V → V) (d : Dict V) → lookup j d ≡ none → lookup j (update_all f d) ≡ none
  unfolding lookup update_all
  lookup-update_all-none j f [] h = refl
  lookup-update_all-none j f ((i, w) ∷ d) h = ground (arith, lookup-update_all-none j f d)

  pub Unique-update_all : (f : V → V) (d : Dict V) → Unique d → Unique (update_all f d)
  unfolding update_all
  Unique-update_all f [] u = tt
  Unique-update_all f ((j, v) ∷ d) u = (lookup-update_all-none j f d u.0, Unique-update_all f d u.1)

  -- With unique keys an erasure hides nothing and shows nothing new.
  pub lookup-erase_if :
      (k : ℕ) (p : ℕ × V → Bool) (d : Dict V)
      → Unique d
      → lookup k (erase_if p d)
        ≡ elim (lookup k d) [ none ↦ none | some v ↦ if p (k, v) then none else some v ]
  unfolding lookup erase_if
  lookup-erase_if k p [] u = refl
  lookup-erase_if k p ((j, v) ∷ d) u =
      ground (arith, lookup-erase_if k p d u.1, lookup-erase_if-none k p d)

module _ {V : Type 0} (P Q : ℕ × V → Type 0) where
  -- From one property to another, where the key `k` is missing.
  pub Each-missing :
      (k : ℕ) (d : Dict V)
      → lookup k d ≡ none
      → ((j : ℕ) (w : V) → j ≢ k → P (j, w) → Q (j, w))
      → Each P d
      → Each Q d
  unfolding lookup
  Each-missing k [] h others each = tt
  Each-missing k ((j, w) ∷ d) h others each = ground (arith, others j w, Each-missing k d)

  -- From one property to another, with the entry at `k` handled by itself.
  pub Each-adjust_at :
      (k : ℕ) (v : V) (f : V → V) (d : Dict V)
      → Unique d
      → lookup k d ≡ some v
      → ((j : ℕ) (w : V) → j ≢ k → P (j, w) → Q (j, w))
      → Q (k, f v)
      → Each P d
      → Each Q (adjust k f d)
  unfolding lookup adjust
  Each-adjust_at k v f [] u h others here each = tt
  Each-adjust_at k v f ((j, w) ∷ d) u h others here each =
      ground (arith, others j w, Each-missing k d, Each-adjust_at k v f d)

  pub Each-found :
      (k : ℕ) (v : V) (d : Dict V)
      → Unique d
      → lookup k d ≡ some v
      → ((j : ℕ) (w : V) → j ≢ k → P (j, w) → Q (j, w))
      → Q (k, v)
      → Each P d
      → Each Q d
  unfolding lookup
  Each-found k v [] u h others here each = tt
  Each-found k v ((j, w) ∷ d) u h others here each =
      ground (arith, others j w, Each-missing k d, Each-found k v d)

module _ {ℓ} {V : Type ℓ} where
  any_of-erase_missing :
      (q : ℕ × V → Bool) (k : ℕ) (d : Dict V)
      → lookup k d ≡ none
      → any_of q (erase k d) ≡ any_of q d
  unfolding lookup erase erase_if any_of
  any_of-erase_missing q k [] h = refl
  any_of-erase_missing q k ((j, w) ∷ d) h = ground (arith, any_of-erase_missing q k d)

  -- Erasing an entry that fails a test leaves the outcome of the test.
  pub any_of-erase :
      (q : ℕ × V → Bool) (k : ℕ) (v : V) (d : Dict V)
      → Unique d
      → lookup k d ≡ some v
      → q (k, v) ≡ false
      → any_of q (erase k d) ≡ any_of q d
  unfolding lookup erase erase_if any_of
  any_of-erase q k v [] u h e = cc
  any_of-erase q k v ((j, w) ∷ d) u h e =
      ground (arith, any_of-erase_missing q k d, any_of-erase q k v d u.1)

  pub contains-adjust :
      (j k : ℕ) (f : V → V) (d : Dict V) → contains j (adjust k f d) ≡ contains j d
  unfolding lookup adjust
  contains-adjust j k f [] = refl
  contains-adjust j k f ((i, w) ∷ d) = ground (arith, contains-adjust j k f d)
