-- ===== src/Openssl.antt =====
-- What the simulator asks of OpenSSL about a key that it holds by its address. OpenSSL is a
-- parameter of the development.
use pkcs11hsmsim.Base.{ℕ, Bool, Option, Bytes}

-- `none` where a call fails; the EC values are DER encoded.
pub record KeyReader : Type 0 where
  pub is_rsa : ℕ → Bool
  pub is_ec : ℕ → Bool
  pub type_name : ℕ → Bytes
  pub bits : ℕ → ℕ
  pub modulus : ℕ → Option Bytes
  pub public_exponent : ℕ → Option Bytes
  pub ec_params : ℕ → Option Bytes
  pub ec_point : ℕ → Option Bytes

-- What it makes of keys, certificates and texts: the DER of a PKCS#12 container under a password with
-- a name, the public part of a key, the DER of a certificate, and SHA-256.
pub record KeyWriter : Type 0 where
  pub encode_p12 : Bytes → Bytes → ℕ → Option Bytes
  pub public_part : ℕ → Option ℕ
  pub certificate_der : ℕ → Option Bytes
  pub digest : Bytes → Option Bytes

-- The generation of key pairs: whether an algorithm can be generated, whether it takes a number of bits
-- or the DER of a curve, and the key, under the number of
-- bits and the curve where they were set.
pub record KeyMaker : Type 0 where
  pub knows : Bytes → Bool
  pub takes_bits : ℕ → Bool
  pub takes_curve : Bytes → Bool
  pub generate : Bytes → Option ℕ → Option Bytes → Option ℕ

-- What it does to carry keys: the PKCS#8 form of a key and back, and the AES key wrap ciphers of RFC
-- 3394 and, with padding, of RFC 5649, from a key and an input; one that is not available fails early.
pub record KeyCarrier : Type 0 where
  pub pkcs8 : ℕ → Option Bytes
  pub parse_pkcs8 : Bytes → Option ℕ
  pub has_cipher : Bool → Bytes → Bool
  pub wrap : Bool → Bytes → Bytes → Option Bytes
  pub unwrap : Bool → Bytes → Bytes → Option Bytes
