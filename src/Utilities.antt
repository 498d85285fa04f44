-- ===== src/Utilities.antt =====
-- src/core/utilities.cpp: hexadecimal text, file names and padded strings.
pub mod Hex
pub mod Names
use pkcs11hsmsim.Base.{
  ℕ, ◌+◌, ◌-◌, ◌*◌, ◌/◌, ◌%◌, Bool, true, false, not, ◌&&◌, ◌||◌, Option, none, some, List, [], ◌∷◌,
  ◌++◌, Bytes, ◌==◌, ltb, leb, length, take, replicate, erase_if, if◌then◌else◌, value_or, zero,
  suc,
}
use pkcs11hsmsim.Base.Text.{codes}

-- `"0123456789ABCDEF"[n]`
unfoldable pub hex_digit : ℕ → ℕ
hex_digit n = if ltb n 10 then 48 + n else 55 + n

unfoldable pub encode_hex : Bytes → Bytes
encode_hex [] = []
encode_hex (b ∷ bs) = hex_digit (b / 16) ∷ hex_digit (b % 16) ∷ encode_hex bs

-- `isspace`
unfoldable pub is_space : ℕ → Bool
is_space c = c == 32 || (leb 9 c && leb c 13)

unfoldable pub hex_value : ℕ → Option ℕ
hex_value c =
    if leb 48 c && leb c 57
    then some (c - 48)
    else if leb 65 c && leb c 70
    then some (c - 55)
    else if leb 97 c && leb c 102
    then some (c - 87)
    else none

-- `std::stoul` of two characters in base 16, cut off to a byte: it stops at the first character that
-- is no digit, takes a sign, and throws where there is no digit.
unfoldable pub parse_byte : ℕ → ℕ → Option ℕ
parse_byte c d = elim (hex_value c) [
  | some high ↦ elim (hex_value d) [ some low ↦ some (high * 16 + low) | none ↦ some high ]
  | none ↦
      if c == 43
      then hex_value d
      else if c == 45
      then elim (hex_value d) [ some low ↦ some ((256 - low) % 256) | none ↦ none ]
      else none
]

unfoldable pub decode_pairs : Bytes → Option Bytes
decode_pairs [] = some []
decode_pairs (c ∷ []) = some []
decode_pairs (c ∷ d ∷ rest) = elim (parse_byte c d) [
  | none ↦ none
  | some b ↦ elim (decode_pairs rest) [ none ↦ none | some bs ↦ some (b ∷ bs) ]
]

unfoldable pub decode_hex : Bytes → Bytes
decode_hex encoded =
    let digits = erase_if is_space encoded in
    if length digits % 2 == 0 then value_or (decode_pairs digits) [] else []

-- `isalnum`, `-` or `_`.
unfoldable pub is_safe : ℕ → Bool
is_safe c =
    (leb 48 c && leb c 57)
    || (leb 65 c && leb c 90)
    || (leb 97 c && leb c 122)
    || c == 45
    || c == 95

unfoldable pub replace_unsafe : Bytes → Bytes
replace_unsafe [] = []
replace_unsafe (c ∷ cs) = (if is_safe c then c else 95) ∷ replace_unsafe cs

unfoldable pub safe_filename : Bytes → Bytes
safe_filename label =
    let name = replace_unsafe label in if length name == 0 then codes "key" else name

-- The whole field: the characters of the string that fit, then spaces.
unfoldable pub write_padded_string : ℕ → Bytes → Bytes
write_padded_string capacity value = take capacity value ++ replicate (capacity - length value) 32
