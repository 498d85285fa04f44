-- ===== src/Token/Tests.antt =====
-- What is told of a concrete registry.
use pkcs11hsmsim.Base.{◌≡◌, refl, true, []}
use pkcs11hsmsim.Base.Dict.{lookup}
use pkcs11hsmsim.Ck.{ckm_ecdsa, ckk_ec}
use pkcs11hsmsim.Result.{ok, err}
use pkcs11hsmsim.Core.Examples.{office, front_slot}
use pkcs11hsmsim.Mechanisms.{supports_signature}
use pkcs11hsmsim.Token.{
  get_token_info, TokenInfo, get_mechanism_info, MechanismInfo, flag_sign_verify,
}
use pkcs11hsmsim.Token.Mechanisms.{get_mechanism_info-supports_signature}

abbrev told : TokenInfo
told = elim (get_token_info 1 true office) [
  | ok info ↦ info
  | err e ↦ record {
    label = [];
    manufacturer_id = [];
    model = [];
    serial_number = [];
    flags = 0;
    max_session_count = 0;
    session_count = 0;
    max_rw_session_count = 0;
    rw_session_count = 0;
    max_pin_len = 0;
    min_pin_len = 0;
  }
]

get_mechanism_info-supports_signature_example :
    (info : MechanismInfo) × (get_mechanism_info 1 ckm_ecdsa true office ≡ ok info)
    × (info.flags ≡ flag_sign_verify)
unfolding lookup supports_signature
get_mechanism_info-supports_signature_example =
    (get_mechanism_info-supports_signature 1 ckm_ecdsa office {slot = front_slot} refl).0 ckk_ec
      refl
