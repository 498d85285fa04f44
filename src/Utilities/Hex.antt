-- ===== src/Utilities/Hex.antt =====
-- Hexadecimal text: decodeHex after encodeHex.
use pkcs11hsmsim.Base.{
  ℕ, ◌+◌, ◌*◌, ◌/◌, ◌%◌, ◌<◌, ◌≡◌, refl, false, some, [], ◌∷◌, Bytes, length, erase_if, Each, arith,
}
use pkcs11hsmsim.Utilities.{
  hex_digit, encode_hex, is_space, hex_value, parse_byte, decode_pairs, decode_hex,
}

hex_digit-value : (n : ℕ) → n < 16 → hex_value (hex_digit n) ≡ some n
unfolding hex_digit hex_value
hex_digit-value n h = ground arith

hex_digit-space : (n : ℕ) → n < 16 → is_space (hex_digit n) ≡ false
unfolding hex_digit is_space
hex_digit-space n h = ground arith

parse_byte-hex_digit :
    (b : ℕ) → b < 256 → parse_byte (hex_digit (b / 16)) (hex_digit (b % 16)) ≡ some b
unfolding parse_byte
parse_byte-hex_digit b h =
    let high : b / 16 < 16 = omega arith in
    let low : b % 16 < 16 = omega arith in
    let whole : b / 16 * 16 + b % 16 ≡ b = omega arith in
    ground (arith, hex_digit-value (b / 16) high, hex_digit-value (b % 16) low, whole)

erase_if-encode_hex :
    (bs : Bytes) → Each (λ b. b < 256) bs → erase_if is_space (encode_hex bs) ≡ encode_hex bs
unfolding erase_if encode_hex
erase_if-encode_hex [] small = refl
erase_if-encode_hex (b ∷ bs) small =
    let high : b / 16 < 16 = omega (arith, small.0) in
    let low : b % 16 < 16 = omega arith in
    ground (
      arith,
      hex_digit-space (b / 16) high,
      hex_digit-space (b % 16) low,
      erase_if-encode_hex bs small.1,
    )

decode_pairs-encode_hex :
    (bs : Bytes) → Each (λ b. b < 256) bs → decode_pairs (encode_hex bs) ≡ some bs
unfolding decode_pairs encode_hex
decode_pairs-encode_hex [] small = refl
decode_pairs-encode_hex (b ∷ bs) small =
    ground (arith, parse_byte-hex_digit b small.0, decode_pairs-encode_hex bs small.1)

length-encode_hex : (bs : Bytes) → length (encode_hex bs) ≡ 2 * length bs
unfolding encode_hex
length-encode_hex [] = omega arith
length-encode_hex (b ∷ bs) = omega (arith, length-encode_hex bs)

-- Bytes are read back from their hexadecimal text.
pub decode_hex-encode_hex : (bs : Bytes) → Each (λ b. b < 256) bs → decode_hex (encode_hex bs) ≡ bs
unfolding decode_hex
decode_hex-encode_hex bs small =
    rw (erase_if-encode_hex bs small)
      (ground (arith, length-encode_hex bs, decode_pairs-encode_hex bs small))
