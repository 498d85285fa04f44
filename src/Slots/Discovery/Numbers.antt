-- ===== src/Slots/Discovery/Numbers.antt =====
-- parseSlotId: which names are slots, and of which number.
use pkcs11hsmsim.Base.{
  ℕ, ◌+◌, ◌-◌, ◌*◌, ◌/◌, ◌%◌, ◌^◌, ◌==◌, zero, suc, ◌≤◌, ◌<◌, ◌≡◌, refl, true, Option, some, [],
  ◌∷◌, ◌++◌, Bytes, ltb, all_of, if◌then◌else◌, arith, inl, inr, Bool-cases,
}
use pkcs11hsmsim.Ck.{ulong_mod}
use pkcs11hsmsim.Result.{Result, ok, err, general_error}
use pkcs11hsmsim.Base.Text.{digits_before, decimal}
use pkcs11hsmsim.Slots.Discovery.{split_name, is_digit, parse_digits, parse_slot_id}

-- The number that the digits mean, after those that were read before.
unfoldable pub numeral : ℕ → Bytes → ℕ
numeral n [] = n
numeral n (c ∷ cs) = numeral (n * 10 + (c - 48)) cs

numeral-ge : (n : ℕ) (cs : Bytes) → n ≤ numeral n cs
unfolding numeral
numeral-ge n [] = omega arith
numeral-ge n (c ∷ cs) = omega (arith, numeral-ge (n * 10 + (c - 48)) cs)

abbrev bounded : ℕ → Result (Option ℕ)
bounded n = if ltb n ulong_mod then ok (some n) else err general_error

parse_digits_lem :
    (n : ℕ) (cs : Bytes)
    → n < ulong_mod
    → all_of is_digit cs ≡ true
    → parse_digits n cs ≡ bounded (numeral n cs)
unfolding parse_digits numeral all_of
parse_digits_lem n [] room digits = ground arith
parse_digits_lem n (c ∷ cs) room digits =
    let next = n * 10 + (c - 48) in
    let digit : (c - 48 ≤ 9) × (all_of is_digit cs ≡ true) = ground arith in
    elim (Bool-cases (ltb ((ulong_mod - 1 - (c - 48)) / 10) n)) [
      | inl over ↦
          let large : ulong_mod ≤ next = ground (arith, digit.0) in
          ground (arith, large, numeral-ge next cs)
      | inr fits ↦
          let small : next < ulong_mod = ground (arith, digit.0) in
          let e : next % ulong_mod ≡ next = omega (arith, small) in
          rw fits (rw e (parse_digits_lem next cs small digit.1))
    ]

split_name-digits :
    (prefix label : Bytes)
    → all_of is_digit prefix ≡ true
    → split_name (prefix ++ (95 ∷ label)) ≡ some (prefix, label)
unfolding split_name all_of
split_name-digits [] label digits = refl
split_name-digits (c ∷ cs) label digits = ground (arith, split_name-digits cs label)

-- A directory whose name is a decimal number, an underscore and a label that is not empty is the slot
-- of that number if the number fits in a CK_ULONG, and makes the discovery fail otherwise: the number
-- is never cut off, however many digits it has.
pub parse_slot_id-numeral :
    (digit : ℕ) (digits label : Bytes) (c : ℕ)
    → all_of is_digit (digit ∷ digits) ≡ true
    → parse_slot_id ((digit ∷ digits) ++ (95 ∷ c ∷ label)) ≡ (
        if ltb (numeral 0 (digit ∷ digits)) ulong_mod
        then ok (some (numeral 0 (digit ∷ digits)))
        else err general_error)
unfolding parse_slot_id
parse_slot_id-numeral digit digits label c good = ground (
  arith,
  good,
  split_name-digits (digit ∷ digits) (c ∷ label) good,
  parse_digits_lem 0 (digit ∷ digits) (omega arith) good,
)

numeral-digits_before :
    (fuel n : ℕ) (text : Bytes)
    → n < 10 ^ fuel
    → numeral 0 (digits_before fuel n text) ≡ numeral n text
unfolding numeral digits_before
numeral-digits_before zero n text room = let e : n ≡ 0 = omega (arith, room) in rw e refl
numeral-digits_before (suc fuel) n text room =
    let whole : n / 10 * 10 + n % 10 ≡ n = omega arith in
    let digit : 48 + n % 10 - 48 ≡ n % 10 = omega arith in
    let less : n / 10 < 10 ^ fuel = omega (arith, room) in
    let rest = numeral-digits_before fuel (n / 10) ((48 + n % 10) ∷ text) less in
    elim (Bool-cases (n / 10 == 0)) [
      | inl one ↦ ground (arith, one, whole, digit)
      | inr more ↦ ground (arith, more, whole, digit, rest)
    ]

-- Ten digits are enough for every number below 10 ^ 10, so for every CK_ULONG: the text that `decimal`
-- makes of it means it.
numeral-decimal : (n : ℕ) → n < 10 ^ 10 → numeral 0 (decimal n) ≡ n
unfolding numeral decimal
numeral-decimal n room = numeral-digits_before 10 n [] room
