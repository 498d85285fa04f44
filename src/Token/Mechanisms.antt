-- ===== src/Token/Mechanisms.antt =====
-- GetMechanismInfo against the keys that can sign.
use pkcs11hsmsim.Base.{ℕ, ◌≡◌, true, some, [], ◌∷◌, ◌==◌, if◌then◌else◌, arith}
use pkcs11hsmsim.Base.Dict.{lookup}
use pkcs11hsmsim.Ck.{
  ckk_rsa, ckk_ec, ckk_ml_dsa, ckk_slh_dsa, ckm_ml_dsa, ckm_slh_dsa, ckm_ecdsa, ckm_ecdsa_sha256,
  ckm_ecdsa_sha384, ckm_ecdsa_sha512,
}
use pkcs11hsmsim.Result.{ok}
use pkcs11hsmsim.Core.State.{Slot, Runtime}
use pkcs11hsmsim.Policy.Values.{one_of}
use pkcs11hsmsim.Mechanisms.{supports_signature, is_rsa_pss}
use pkcs11hsmsim.Token.{MechanismInfo, mechanism_info, get_mechanism_info, flag_sign_verify}

-- The type of the keys that sign with a mechanism.
abbrev pub signing_type : ℕ → ℕ
signing_type m =
    if m == ckm_ml_dsa
    then ckk_ml_dsa
    else if m == ckm_slh_dsa
    then ckk_slh_dsa
    else if one_of (ckm_ecdsa ∷ ckm_ecdsa_sha256 ∷ ckm_ecdsa_sha384 ∷ ckm_ecdsa_sha512 ∷ []) m
    then ckk_ec
    else ckk_rsa

-- For a known slot, a mechanism that some key supports is reported with the flags for signing and
-- verifying, and a mechanism that is reported with these flags is supported by the keys of some type.
pub get_mechanism_info-supports_signature :
    (slot_id m : ℕ) (r : Runtime) {slot : Slot}
    → lookup slot_id r.slots ≡ some slot
    → ((type : ℕ)
        → supports_signature type m ≡ true
        → (info : MechanismInfo) × (get_mechanism_info slot_id m true r ≡ ok info)
          × (info.flags ≡ flag_sign_verify))
      × ((info : MechanismInfo)
          → get_mechanism_info slot_id m true r ≡ ok info
          → info.flags ≡ flag_sign_verify
          → supports_signature (signing_type m) m ≡ true)
unfolding get_mechanism_info mechanism_info one_of supports_signature is_rsa_pss
get_mechanism_info-supports_signature slot_id m r there = (
  λ type supported. (mechanism_info m, ground arith, ground arith),
  λ info told flags. ground arith,
)
