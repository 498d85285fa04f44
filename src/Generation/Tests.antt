-- ===== src/Generation/Tests.antt =====
-- Examples: an AES key and a key pair, made in the token.
use pkcs11hsmsim.Base.{ℕ, true, Option, some, [], Bytes, items, arith, replicate}
use pkcs11hsmsim.Ck.{ckm_aes_key_gen, ckm_rsa_pkcs_key_pair_gen}
use pkcs11hsmsim.Openssl.{KeyMaker}
use pkcs11hsmsim.Core.Examples.{office, office-IsValid, mute, scribe}
use pkcs11hsmsim.KeyStore.Created.{Creation}
use pkcs11hsmsim.Generation.{generate_key}
use pkcs11hsmsim.Generation.Making.{GeneratedKey, generate_key-Creation}
use pkcs11hsmsim.Generation.Pairs.{generate_key_pair}
use pkcs11hsmsim.Generation.Pairs.Keeping.{PairGeneration}
use pkcs11hsmsim.Generation.Pairs.Making.{Drawn, generate_key_pair-PairGeneration}

abbrev sevens : ℕ → Option Bytes
sevens n = some (replicate n 7)

abbrev smith : KeyMaker
smith = record {
  knows = λ algorithm. true;
  takes_bits = λ bits. true;
  takes_curve = λ oid. true;
  generate = λ algorithm bits curve. some 20;
}

generate_key-Creation_example :
    Creation
      (GeneratedKey sevens 1 (some ckm_aes_key_gen) (items []) office)
      office
      (generate_key sevens 1 (some ckm_aes_key_gen) (items []) true office)
generate_key-Creation_example =
    generate_key-Creation sevens 1 (some ckm_aes_key_gen) (items []) office (ground arith)
      office-IsValid true

generate_key_pair-PairGeneration_example :
    PairGeneration mute scribe 1
      (items [])
      (items [])
      (Drawn smith (some ckm_rsa_pkcs_key_pair_gen) (items []))
      office
      (generate_key_pair mute scribe smith 1
        (some ckm_rsa_pkcs_key_pair_gen)
        (items [])
        (items [])
        true
        true
        office)
generate_key_pair-PairGeneration_example =
    generate_key_pair-PairGeneration mute scribe 1 (items []) (items []) office smith
      (some ckm_rsa_pkcs_key_pair_gen) true true office-IsValid (ground arith)
