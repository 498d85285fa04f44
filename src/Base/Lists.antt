-- ===== src/Base/Lists.antt =====
-- Lists measured by native numbers, the standard algorithms that take a predicate, byte strings,
-- and arrays that a caller passes as a pointer with a count.
use Prim.Native.Nat.{ℕ, zero, suc, ◌+◌, ◌≤◌}
use mathlib.Core.Path.{◌≡◌, refl}
use mathlib.Core.Logic.{◌↔◌}
use mathlib.Core.Bool.{Bool, true, false, not, ◌&&◌, ◌||◌}
use mathlib.Core.List.{List, [], ◌∷◌, ◌++◌}
use native.Mathlib.Omega.{arith}
use pkcs11hsmsim.Base.Tests.{◌==◌, if◌then◌else◌}

abbrev pub Bytes : Type 0
Bytes = List ℕ

module _ {ℓ} {A : Type ℓ} where
  abbrev pub length : List A → ℕ
  length [] = 0
  length (x ∷ xs) = suc (length xs)

  abbrev pub take : ℕ → List A → List A
  take zero xs = []
  take (suc n) [] = []
  take (suc n) (x ∷ xs) = x ∷ take n xs

  abbrev pub drop : ℕ → List A → List A
  drop zero xs = xs
  drop (suc n) [] = []
  drop (suc n) (x ∷ xs) = drop n xs

  abbrev pub replicate : ℕ → A → List A
  replicate zero a = []
  replicate (suc n) a = a ∷ replicate n a

  -- `std::any_of` and `std::all_of`.
  unfoldable pub any_of : (A → Bool) → List A → Bool
  any_of p [] = false
  any_of p (x ∷ xs) = p x || any_of p xs

  unfoldable pub all_of : (A → Bool) → List A → Bool
  all_of p [] = true
  all_of p (x ∷ xs) = p x && all_of p xs

  -- `std::erase_if`: what fails the test stays, in order.
  unfoldable pub erase_if : (A → Bool) → List A → List A
  erase_if p [] = []
  erase_if p (x ∷ xs) = let rest = erase_if p xs in if p x then rest else x ∷ rest

  -- A property of each item.
  abbrev pub Each {κ} : (A → Type κ) → List A → Type κ
  Each P [] = Unit
  Each P (x ∷ xs) = P x × Each P xs

  pub length-append : (xs ys : List A) → length (xs ++ ys) ≡ length xs + length ys
  length-append [] ys = omega arith
  length-append (x ∷ xs) ys = omega (arith, length-append xs ys)

  pub length-erase_if-le : (p : A → Bool) (xs : List A) → length (erase_if p xs) ≤ length xs
  unfolding erase_if
  length-erase_if-le p [] = omega arith
  length-erase_if-le p (x ∷ xs) = ground (arith, length-erase_if-le p xs)

  -- The tests that no erased item passes are not affected.
  pub any_of-erase_if :
      (p q : A → Bool) (xs : List A)
      → ((x : A) → q x ≡ true → p x ≡ false)
      → any_of q (erase_if p xs) ≡ any_of q xs
  unfolding any_of erase_if
  any_of-erase_if p q [] apart = refl
  any_of-erase_if p q (x ∷ xs) apart = ground (arith, apart x, any_of-erase_if p q xs apart)

  -- Erasing can only make a test fail.
  pub any_of-erase_if-false :
      (p q : A → Bool) (xs : List A) → any_of q xs ≡ false → any_of q (erase_if p xs) ≡ false
  unfolding any_of erase_if
  any_of-erase_if-false p q [] h = refl
  any_of-erase_if-false p q (x ∷ xs) h = ground (arith, any_of-erase_if-false p q xs)

  pub any_of-erase_if_self : (p : A → Bool) (xs : List A) → any_of p (erase_if p xs) ≡ false
  unfolding any_of erase_if
  any_of-erase_if_self p [] = refl
  any_of-erase_if_self p (x ∷ xs) = ground (arith, any_of-erase_if_self p xs)

module _ {ℓ κ} {A : Type ℓ} (P : A → Type κ) where
  pub Each-erase_if : (p : A → Bool) (xs : List A) → Each P xs → Each P (erase_if p xs)
  unfolding erase_if
  Each-erase_if p [] h = tt
  Each-erase_if p (x ∷ xs) h = ground (arith, Each-erase_if p xs h.1)

-- What an erased list keeps has failed the test.
pub Each-erase_if_map {ℓ κ μ} :
    {A : Type ℓ} (P : A → Type κ) (Q : A → Type μ) (p : A → Bool) (xs : List A)
    → ((x : A) → p x ≡ false → P x → Q x)
    → Each P xs
    → Each Q (erase_if p xs)
unfolding erase_if
Each-erase_if_map P Q p [] f h = tt
Each-erase_if_map P Q p (x ∷ xs) f h = ground (arith, f x, Each-erase_if_map P Q p xs f h.1)

pub Each-map {ℓ κ μ} :
    {A : Type ℓ} (P : A → Type κ) (Q : A → Type μ) (xs : List A)
    → ((x : A) → P x → Q x)
    → Each P xs
    → Each Q xs
Each-map P Q [] f h = tt
Each-map P Q (x ∷ xs) f h = (f x h.0, Each-map P Q xs f h.1)

-- Equality of byte strings (`operator==` and `memcmp`).
unfoldable pub bytes_eq : Bytes → Bytes → Bool
bytes_eq [] [] = true
bytes_eq (a ∷ xs) (b ∷ ys) = a == b && bytes_eq xs ys
bytes_eq _ _ = false

pub bytes_eq_iff : (xs ys : Bytes) → (bytes_eq xs ys ≡ true) ↔ (xs ≡ ys)
unfolding bytes_eq
bytes_eq_iff [] [] = ground arith
bytes_eq_iff [] (b ∷ ys) = ground arith
bytes_eq_iff (a ∷ xs) [] = ground arith
bytes_eq_iff (a ∷ xs) (b ∷ ys) = ground (arith, bytes_eq_iff xs ys)

-- A pointer with a count: a null pointer carries the count that the caller claims, any other
-- points to as many items as the count says.
pub data Array {ℓ} (A : Type ℓ) : Type ℓ where
  null : ℕ → Array A
  items : List A → Array A

module _ {ℓ} {A : Type ℓ} where
  abbrev pub count : Array A → ℕ
  count (null n) = n
  count (items xs) = length xs

  abbrev pub is_null : Array A → Bool
  is_null (null n) = true
  is_null (items xs) = false

  -- `!pointer && count`
  abbrev pub is_bad : Array A → Bool
  is_bad (null n) = not (n == 0)
  is_bad (items xs) = false

  -- What the loops over `count` items visit, once `is_bad` is refused.
  abbrev pub contents : Array A → List A
  contents (null n) = []
  contents (items xs) = xs

pub length-take {ℓ} : {A : Type ℓ} (n : ℕ) (xs : List A) → n ≤ length xs → length (take n xs) ≡ n
length-take zero xs h = refl
length-take (suc n) [] h = absurd (omega arith)
length-take (suc n) (x ∷ xs) h = omega (arith, length-take n xs (omega arith))
