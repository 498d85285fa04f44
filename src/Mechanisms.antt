-- ===== src/Mechanisms.antt =====
-- src/crypto/mechanisms.cpp: the mechanisms, the keys that fit them, digests and parameter sets.
pub mod Names
pub mod Consistency
use pkcs11hsmsim.Base.{
  ℕ, ◌+◌, ◌-◌, Bool, true, false, not, ◌&&◌, ◌||◌, Option, none, some, List, [], ◌∷◌, Bytes, ◌==◌,
  leb, if◌then◌else◌, value_or, zero, suc,
}
use pkcs11hsmsim.Base.Text.{codes}
use pkcs11hsmsim.Ck.{
  ckm_aes_ecb_encrypt_data, ckm_rsa_pkcs_key_pair_gen, ckm_rsa_pkcs, ckm_sha256_rsa_pkcs,
  ckm_sha384_rsa_pkcs, ckm_sha512_rsa_pkcs, ckm_ec_key_pair_gen, ckm_ecdsa, ckm_ecdsa_sha256,
  ckm_ecdsa_sha384, ckm_ecdsa_sha512, ckm_aes_key_gen, ckm_aes_key_wrap, ckm_aes_key_wrap_pad,
  ckm_ml_dsa_key_pair_gen, ckm_ml_dsa, ckm_slh_dsa_key_pair_gen, ckm_slh_dsa, ckm_rsa_pkcs_pss,
  ckm_sha256_rsa_pkcs_pss, ckm_sha384_rsa_pkcs_pss, ckm_sha512_rsa_pkcs_pss, ckm_sha256, ckm_sha384,
  ckm_sha512, ckg_mgf1_sha256, ckg_mgf1_sha384, ckg_mgf1_sha512, ckk_rsa, ckk_ec, ckk_ml_dsa,
  ckk_slh_dsa, ckp_ml_dsa_44, ckp_ml_dsa_65, ckp_ml_dsa_87, ckp_slh_dsa_sha2_128s,
  cka_parameter_set, unavailable_information,
}
use pkcs11hsmsim.Openssl.{KeyReader}
use pkcs11hsmsim.Core.State.{Object}
use pkcs11hsmsim.Policy.Values.{one_of}
use pkcs11hsmsim.Template.{Template, template_unsigned}
use Names.{starts_with, occurs_in, nth_name, first_occurring}

abbrev pub supported_mechanisms : List ℕ
supported_mechanisms =
    ckm_aes_ecb_encrypt_data ∷ ckm_rsa_pkcs_key_pair_gen ∷ ckm_rsa_pkcs ∷ ckm_sha256_rsa_pkcs
    ∷ ckm_sha384_rsa_pkcs ∷ ckm_sha512_rsa_pkcs ∷ ckm_ec_key_pair_gen ∷ ckm_ecdsa ∷ ckm_ecdsa_sha256
    ∷ ckm_ecdsa_sha384 ∷ ckm_ecdsa_sha512 ∷ ckm_aes_key_gen ∷ ckm_aes_key_wrap
    ∷ ckm_aes_key_wrap_pad ∷ ckm_ml_dsa_key_pair_gen ∷ ckm_ml_dsa ∷ ckm_slh_dsa_key_pair_gen
    ∷ ckm_slh_dsa ∷ ckm_rsa_pkcs_pss ∷ ckm_sha256_rsa_pkcs_pss ∷ ckm_sha384_rsa_pkcs_pss
    ∷ ckm_sha512_rsa_pkcs_pss ∷ []

-- `~0UL` where the key has no known type.
unfoldable pub key_type : KeyReader → ℕ → ℕ
key_type reader key =
    if reader.is_rsa key
    then ckk_rsa
    else if reader.is_ec key
    then ckk_ec
    else if starts_with (codes "ML-DSA-") (reader.type_name key)
    then ckk_ml_dsa
    else if starts_with (codes "SLH-DSA-") (reader.type_name key)
    then ckk_slh_dsa
    else unavailable_information

unfoldable pub is_rsa_pss : ℕ → Bool
unfolding one_of
is_rsa_pss = one_of (
    ckm_rsa_pkcs_pss ∷ ckm_sha256_rsa_pkcs_pss ∷ ckm_sha384_rsa_pkcs_pss ∷ ckm_sha512_rsa_pkcs_pss
    ∷ [])

unfoldable pub supports_signature : ℕ → ℕ → Bool
unfolding is_rsa_pss
supports_signature type mechanism =
    if type == ckk_rsa
    then is_rsa_pss mechanism
      || one_of
          (ckm_rsa_pkcs ∷ ckm_sha256_rsa_pkcs ∷ ckm_sha384_rsa_pkcs ∷ ckm_sha512_rsa_pkcs ∷ [])
          mechanism
    else if type == ckk_ec
    then one_of (ckm_ecdsa ∷ ckm_ecdsa_sha256 ∷ ckm_ecdsa_sha384 ∷ ckm_ecdsa_sha512 ∷ []) mechanism
    else if type == ckk_ml_dsa
    then mechanism == ckm_ml_dsa
    else if type == ckk_slh_dsa
    then mechanism == ckm_slh_dsa
    else false

-- The EVP_MD pointers.
pub data Digest : Type 0 where
  sha256 sha384 sha512 : Digest

unfoldable pub pss_digest : ℕ → Option Digest
pss_digest m =
    if m == ckm_sha256
    then some sha256
    else if m == ckm_sha384
    then some sha384
    else if m == ckm_sha512
    then some sha512
    else none

unfoldable pub mgf_digest : ℕ → Option Digest
mgf_digest m =
    if m == ckg_mgf1_sha256
    then some sha256
    else if m == ckg_mgf1_sha384
    then some sha384
    else if m == ckg_mgf1_sha512
    then some sha512
    else none

unfoldable pub signature_digest : ℕ → Option Digest
signature_digest m =
    if m == ckm_sha256_rsa_pkcs || m == ckm_ecdsa_sha256
    then some sha256
    else if m == ckm_sha384_rsa_pkcs || m == ckm_ecdsa_sha384
    then some sha384
    else if m == ckm_sha512_rsa_pkcs || m == ckm_ecdsa_sha512
    then some sha512
    else none

abbrev pub slh_dsa_suffixes : List Bytes
slh_dsa_suffixes =
    codes "SHA2-128s"
    ∷ codes "SHAKE-128s"
    ∷ codes "SHA2-128f"
    ∷ codes "SHAKE-128f"
    ∷ codes "SHA2-192s"
    ∷ codes "SHAKE-192s"
    ∷ codes "SHA2-192f"
    ∷ codes "SHAKE-192f"
    ∷ codes "SHA2-256s"
    ∷ codes "SHAKE-256s"
    ∷ codes "SHA2-256f"
    ∷ codes "SHAKE-256f"
    ∷ []

abbrev pub slh_dsa_names : List Bytes
slh_dsa_names =
    codes "SLH-DSA-SHA2-128s"
    ∷ codes "SLH-DSA-SHAKE-128s"
    ∷ codes "SLH-DSA-SHA2-128f"
    ∷ codes "SLH-DSA-SHAKE-128f"
    ∷ codes "SLH-DSA-SHA2-192s"
    ∷ codes "SLH-DSA-SHAKE-192s"
    ∷ codes "SLH-DSA-SHA2-192f"
    ∷ codes "SLH-DSA-SHAKE-192f"
    ∷ codes "SLH-DSA-SHA2-256s"
    ∷ codes "SLH-DSA-SHAKE-256s"
    ∷ codes "SLH-DSA-SHA2-256f"
    ∷ codes "SLH-DSA-SHAKE-256f"
    ∷ []

-- Zero where the key has no parameter set.
unfoldable pub key_parameter_set : Object → ℕ
key_parameter_set o =
    if o.key_type == ckk_ml_dsa
    then (if occurs_in (codes "44") o.algorithm_name
        then ckp_ml_dsa_44
        else if occurs_in (codes "87") o.algorithm_name
        then ckp_ml_dsa_87
        else ckp_ml_dsa_65)
    else if o.key_type == ckk_slh_dsa
    then first_occurring slh_dsa_suffixes o.algorithm_name 1
    else 0

-- The empty name where the mechanism or the parameter set is unknown.
unfoldable pub generation_algorithm : ℕ → Template → Bytes
generation_algorithm mechanism attributes =
    if mechanism == ckm_rsa_pkcs_key_pair_gen
    then codes "RSA"
    else if mechanism == ckm_ec_key_pair_gen
    then codes "EC"
    else if mechanism == ckm_ml_dsa_key_pair_gen
    then (let set = value_or (template_unsigned attributes cka_parameter_set) ckp_ml_dsa_65 in
        if set == ckp_ml_dsa_44
        then codes "ML-DSA-44"
        else if set == ckp_ml_dsa_65
        then codes "ML-DSA-65"
        else if set == ckp_ml_dsa_87
        then codes "ML-DSA-87"
        else [])
    else if mechanism == ckm_slh_dsa_key_pair_gen
    then (let set =
          value_or (template_unsigned attributes cka_parameter_set) ckp_slh_dsa_sha2_128s in
        if leb 1 set && leb set 12 then nth_name slh_dsa_names (set - 1) else [])
    else []
