-- ===== src/Ck.antt =====
-- The constants of include/oasis/pkcs11t.h that the simulator uses, with the sizes of its types
-- under the Windows data model, where CK_ULONG has 32 bits. Session flags are read bit by bit.
use Prim.Native.Nat.{ℕ, ◌-◌, ◌/◌, ◌%◌, ◌^◌}
use mathlib.Core.Bool.{Bool}
use pkcs11hsmsim.Base.{◌==◌}

-- sizeof(CK_ULONG) and sizeof(CK_BBOOL).
abbrev pub sizeof_ulong : ℕ
sizeof_ulong = 4

abbrev pub sizeof_bbool : ℕ
sizeof_bbool = 1

abbrev pub ulong_mod : ℕ
ulong_mod = 2 ^ 32

-- ~0UL
abbrev pub unavailable_information : ℕ
unavailable_information = 2 ^ 32 - 1

-- CKF_RW_SESSION is bit 1 and CKF_SERIAL_SESSION is bit 2 of the flags.
abbrev pub is_rw : ℕ → Bool
is_rw flags = flags / 2 % 2 == 1

abbrev pub is_serial : ℕ → Bool
is_serial flags = flags / 4 % 2 == 1

-- Attribute types.
abbrev pub cka_sign : ℕ
cka_sign = 0x108

abbrev pub cka_verify : ℕ
cka_verify = 0x10a

abbrev pub cka_wrap : ℕ
cka_wrap = 0x106

abbrev pub cka_unwrap : ℕ
cka_unwrap = 0x107

abbrev pub cka_derive : ℕ
cka_derive = 0x10c

abbrev pub cka_encrypt : ℕ
cka_encrypt = 0x104

abbrev pub cka_decrypt : ℕ
cka_decrypt = 0x105

abbrev pub cka_extractable : ℕ
cka_extractable = 0x162

abbrev pub cka_sensitive : ℕ
cka_sensitive = 0x103

abbrev pub cka_private : ℕ
cka_private = 2

abbrev pub cka_modifiable : ℕ
cka_modifiable = 0x170

abbrev pub cka_destroyable : ℕ
cka_destroyable = 0x172

abbrev pub cka_token : ℕ
cka_token = 1

abbrev pub cka_class : ℕ
cka_class = 0

abbrev pub cka_key_type : ℕ
cka_key_type = 0x100

abbrev pub cka_value_len : ℕ
cka_value_len = 0x161

abbrev pub cka_modulus_bits : ℕ
cka_modulus_bits = 0x121

abbrev pub cka_modulus : ℕ
cka_modulus = 0x120

abbrev pub cka_parameter_set : ℕ
cka_parameter_set = 0x61d

abbrev pub cka_label : ℕ
cka_label = 3

abbrev pub cka_id : ℕ
cka_id = 0x102

abbrev pub cka_ec_params : ℕ
cka_ec_params = 0x180

abbrev pub cka_ec_point : ℕ
cka_ec_point = 0x181

abbrev pub cka_public_exponent : ℕ
cka_public_exponent = 0x122

abbrev pub cka_always_sensitive : ℕ
cka_always_sensitive = 0x165

abbrev pub cka_never_extractable : ℕ
cka_never_extractable = 0x164

abbrev pub cka_local : ℕ
cka_local = 0x163

abbrev pub cka_key_gen_mechanism : ℕ
cka_key_gen_mechanism = 0x166

abbrev pub cka_value : ℕ
cka_value = 0x11

-- Object classes and key types.
abbrev pub cko_certificate : ℕ
cko_certificate = 1

abbrev pub cko_public_key : ℕ
cko_public_key = 2

abbrev pub cko_private_key : ℕ
cko_private_key = 3

abbrev pub cko_secret_key : ℕ
cko_secret_key = 4

abbrev pub ckk_rsa : ℕ
ckk_rsa = 0

abbrev pub ckk_ec : ℕ
ckk_ec = 3

abbrev pub ckk_aes : ℕ
ckk_aes = 0x1f

abbrev pub ckk_ml_dsa : ℕ
ckk_ml_dsa = 0x4a

abbrev pub ckk_slh_dsa : ℕ
ckk_slh_dsa = 0x4b

-- User types and session states.
abbrev pub cku_so : ℕ
cku_so = 0

abbrev pub cku_user : ℕ
cku_user = 1

abbrev pub cks_ro_public_session : ℕ
cks_ro_public_session = 0

abbrev pub cks_ro_user_functions : ℕ
cks_ro_user_functions = 1

abbrev pub cks_rw_public_session : ℕ
cks_rw_public_session = 2

abbrev pub cks_rw_user_functions : ℕ
cks_rw_user_functions = 3

abbrev pub cks_rw_so_functions : ℕ
cks_rw_so_functions = 4

-- Mechanisms, digests, mask generation functions and parameter sets.
abbrev pub ckm_aes_ecb_encrypt_data : ℕ
ckm_aes_ecb_encrypt_data = 0x1104

abbrev pub ckm_rsa_pkcs_key_pair_gen : ℕ
ckm_rsa_pkcs_key_pair_gen = 0

abbrev pub ckm_rsa_pkcs : ℕ
ckm_rsa_pkcs = 1

abbrev pub ckm_sha256_rsa_pkcs : ℕ
ckm_sha256_rsa_pkcs = 0x40

abbrev pub ckm_sha384_rsa_pkcs : ℕ
ckm_sha384_rsa_pkcs = 0x41

abbrev pub ckm_sha512_rsa_pkcs : ℕ
ckm_sha512_rsa_pkcs = 0x42

abbrev pub ckm_ec_key_pair_gen : ℕ
ckm_ec_key_pair_gen = 0x1040

abbrev pub ckm_ecdsa : ℕ
ckm_ecdsa = 0x1041

abbrev pub ckm_ecdsa_sha256 : ℕ
ckm_ecdsa_sha256 = 0x1044

abbrev pub ckm_ecdsa_sha384 : ℕ
ckm_ecdsa_sha384 = 0x1045

abbrev pub ckm_ecdsa_sha512 : ℕ
ckm_ecdsa_sha512 = 0x1046

abbrev pub ckm_aes_key_gen : ℕ
ckm_aes_key_gen = 0x1080

abbrev pub ckm_aes_key_wrap : ℕ
ckm_aes_key_wrap = 0x2109

abbrev pub ckm_aes_key_wrap_pad : ℕ
ckm_aes_key_wrap_pad = 0x210a

abbrev pub ckm_ml_dsa_key_pair_gen : ℕ
ckm_ml_dsa_key_pair_gen = 0x1c

abbrev pub ckm_ml_dsa : ℕ
ckm_ml_dsa = 0x1d

abbrev pub ckm_slh_dsa_key_pair_gen : ℕ
ckm_slh_dsa_key_pair_gen = 0x2d

abbrev pub ckm_slh_dsa : ℕ
ckm_slh_dsa = 0x2e

abbrev pub ckm_rsa_pkcs_pss : ℕ
ckm_rsa_pkcs_pss = 0xd

abbrev pub ckm_sha256_rsa_pkcs_pss : ℕ
ckm_sha256_rsa_pkcs_pss = 0x43

abbrev pub ckm_sha384_rsa_pkcs_pss : ℕ
ckm_sha384_rsa_pkcs_pss = 0x44

abbrev pub ckm_sha512_rsa_pkcs_pss : ℕ
ckm_sha512_rsa_pkcs_pss = 0x45

abbrev pub ckm_sha256 : ℕ
ckm_sha256 = 0x250

abbrev pub ckm_sha384 : ℕ
ckm_sha384 = 0x260

abbrev pub ckm_sha512 : ℕ
ckm_sha512 = 0x270

abbrev pub ckg_mgf1_sha256 : ℕ
ckg_mgf1_sha256 = 2

abbrev pub ckg_mgf1_sha384 : ℕ
ckg_mgf1_sha384 = 3

abbrev pub ckg_mgf1_sha512 : ℕ
ckg_mgf1_sha512 = 4

abbrev pub ckp_ml_dsa_44 : ℕ
ckp_ml_dsa_44 = 1

abbrev pub ckp_ml_dsa_65 : ℕ
ckp_ml_dsa_65 = 2

abbrev pub ckp_ml_dsa_87 : ℕ
ckp_ml_dsa_87 = 3

abbrev pub ckp_slh_dsa_sha2_128s : ℕ
ckp_slh_dsa_sha2_128s = 1
