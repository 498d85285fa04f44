-- ===== src/Slots/Discovery/Reading.antt =====
-- What readPassword reads of a PIN that storePin has stored.
use pkcs11hsmsim.Base.{
  ℕ, ◌≤◌, ◌≡◌, refl, Bool, false, some, [], ◌∷◌, Bytes, length, drop, any_of, Array, null, items,
  contents, arith, zero, suc,
}
use pkcs11hsmsim.Result.{ok}
use pkcs11hsmsim.Disk.{exists}
use pkcs11hsmsim.Core.State.{Slot, Runtime}
use pkcs11hsmsim.Slots.Pin.{maximum_pin_length, is_forbidden, validate_pin, store_pin, pin_path}
use pkcs11hsmsim.Slots.Pin.Storing.{store_pin-file, store_pin-validate}
use pkcs11hsmsim.Slots.Discovery.{without_mark, without_line_end, read_password}

any_of-drop :
    (p : ℕ → Bool) (n : ℕ) (xs : Bytes) → any_of p xs ≡ false → any_of p (drop n xs) ≡ false
unfolding any_of
any_of-drop p zero xs h = h
any_of-drop p (suc n) [] h = refl
any_of-drop p (suc n) (x ∷ xs) h = any_of-drop p n xs (ground arith)

length-drop : (n : ℕ) (xs : Bytes) → length (drop n xs) ≤ length xs
length-drop zero xs = omega arith
length-drop (suc n) [] = omega arith
length-drop (suc n) (x ∷ xs) = omega (arith, length-drop n xs)

-- A valid PIN has no line end to lose.
without_line_end_lem : (xs : Bytes) → any_of is_forbidden xs ≡ false → without_line_end xs ≡ xs
unfolding without_line_end any_of
without_line_end_lem [] h = refl
without_line_end_lem (c ∷ []) h = ground arith
without_line_end_lem (c ∷ d ∷ []) h = ground arith
without_line_end_lem (c ∷ d ∷ e ∷ rest) h = ground (arith, without_line_end_lem (d ∷ e ∷ rest))

validate_pin-valid :
    (pin : Array ℕ)
    → validate_pin pin ≡ ok tt
    → (length (contents pin) ≤ maximum_pin_length) × (any_of is_forbidden (contents pin) ≡ false)
unfolding validate_pin any_of
validate_pin-valid (null n) h = ground arith
validate_pin-valid (items xs) h = ground arith

valid-validate_pin :
    (xs : Bytes)
    → length xs ≤ maximum_pin_length
    → any_of is_forbidden xs ≡ false
    → validate_pin (items xs) ≡ ok tt
unfolding validate_pin
valid-validate_pin xs short clean = ground arith

-- Without its mark a valid PIN is valid.
without_mark-valid :
    (xs : Bytes)
    → length xs ≤ maximum_pin_length
    → any_of is_forbidden xs ≡ false
    → (length (without_mark xs) ≤ maximum_pin_length)
      × (any_of is_forbidden (without_mark xs) ≡ false)
unfolding without_mark
without_mark-valid xs short clean =
    ground (arith, length-drop 3 xs, any_of-drop is_forbidden 3 xs clean)

-- The PIN that `readPassword` gives when the slots are discovered again is the one that `storePin` has
-- stored, less a UTF-8 byte order mark at its beginning, while the PIN file can be found and opened.
pub read_password-store_pin :
    (slot : Slot) (user : ℕ) (pin : Array ℕ) (r : Runtime)
    → (store_pin slot user pin r).0 ≡ ok tt
    → (store_pin slot user pin r).1.disk.faults.probing (pin_path slot user) ≡ false
    → (store_pin slot user pin r).1.disk.faults.opening (pin_path slot user) ≡ false
    → read_password (pin_path slot user) (store_pin slot user pin r).1.disk
      ≡ ok (some (without_mark (contents pin)))
unfolding read_password exists
read_password-store_pin slot user pin r done found opened =
    let (short, clean) = validate_pin-valid pin (store_pin-validate slot user pin r done) in
    let (short', clean') = without_mark-valid (contents pin) short clean in
    ground (
      arith,
      store_pin-file slot user pin r,
      short,
      without_line_end_lem (without_mark (contents pin)) clean',
      valid-validate_pin (without_mark (contents pin)) short' clean',
    )
