-- ===== src/Derivation/Blocks.antt =====
-- DeriveKey encrypts the leading blocks only.
use pkcs11hsmsim.Base.{
  ℕ, ◌+◌, ◌*◌, ◌/◌, ◌%◌, ◌≤◌, ◌≡◌, refl, ap, Option, some, List, [], ◌∷◌, Bytes, arith, take,
  length, zero, suc, length-take,
}
use pkcs11hsmsim.Result.{ok}
use pkcs11hsmsim.Derivation.{derived_value, used_length}

take-take {ℓ} : {A : Type ℓ} (m n : ℕ) (xs : List A) → m ≤ n → take m (take n xs) ≡ take m xs
take-take zero n xs h = refl
take-take (suc m) zero xs h = absurd (omega arith)
take-take (suc m) (suc n) [] h = refl
take-take (suc m) (suc n) (x ∷ xs) h = ap (λ ys. x ∷ ys) (take-take m n xs (omega arith))

-- Where whole blocks of a text are encrypted to the same blocks of its encryption, and the text is
-- made of whole blocks, a derived key is the front of the encryption of all of the text.
pub derived_value-all :
    (encrypt : Bytes → Bytes → Option Bytes) (key text cipher : Bytes) (n : ℕ)
    → ((blocks : ℕ)
        → 16 * blocks ≤ length text
        → encrypt key (take (16 * blocks) text) ≡ some (take (16 * blocks) cipher))
    → length text % 16 ≡ 0
    → length cipher ≡ length text
    → n ≤ length text
    → derived_value encrypt key text n ≡ ok (take n cipher)
unfolding derived_value
derived_value-all encrypt key text cipher n blockwise whole same fits =
    let blocks = (n + 15) / 16 in
    let used : used_length n ≡ 16 * blocks = omega arith in
    let within : 16 * blocks ≤ length text = omega (arith, whole, fits) in
    let front : encrypt key (take (used_length n) text) ≡ some (take (used_length n) cipher) =
      rw used (blockwise blocks within) in
    let size : length (take (used_length n) cipher) ≡ used_length n =
      length-take (used_length n) cipher (omega (arith, used, within, same)) in
    let enough : n ≤ used_length n = omega arith in
    ground (arith, front, size, take-take n (used_length n) cipher enough)
