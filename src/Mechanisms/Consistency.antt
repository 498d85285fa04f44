-- ===== src/Mechanisms/Consistency.antt =====
-- What the tables of src/crypto/mechanisms.cpp say together.
use pkcs11hsmsim.Base.{ℕ, ◌-◌, ◌≡◌, ◌≢◌, true, ◌&&◌, [], arith, leb, value_or}
use pkcs11hsmsim.Ck.{
  ckm_ml_dsa_key_pair_gen, ckm_slh_dsa_key_pair_gen, ckk_ml_dsa, ckk_slh_dsa, cka_parameter_set,
  ckp_ml_dsa_65, ckp_slh_dsa_sha2_128s,
}
use pkcs11hsmsim.Core.State.{Object}
use pkcs11hsmsim.Policy.Values.{one_of}
use pkcs11hsmsim.Template.{Template, template_unsigned}
use pkcs11hsmsim.Mechanisms.{
  supported_mechanisms, supports_signature, is_rsa_pss, slh_dsa_names, slh_dsa_suffixes,
  key_parameter_set, generation_algorithm,
}
use pkcs11hsmsim.Mechanisms.Names.{nth_name, first_occurring, occurs_in, starts_with}

-- Every mechanism that some key may sign or verify with is in the list that the token reports.
pub supports_signature_supported :
    (type m : ℕ) → supports_signature type m ≡ true → one_of supported_mechanisms m ≡ true
unfolding supports_signature is_rsa_pss one_of
supports_signature_supported type m h = ground arith

slh_dsa_round_trip :
    (n : ℕ)
    → (leb 1 n && leb n 12) ≡ true
    → first_occurring slh_dsa_suffixes (nth_name slh_dsa_names (n - 1)) 1 ≡ n
unfolding nth_name first_occurring occurs_in starts_with
slh_dsa_round_trip n h = ground arith

-- A post-quantum key pair that is generated for a template has the parameter set that the template
-- asks for, or the default one: whenever the template selects an algorithm at all, reading
-- CKA_PARAMETER_SET of a key with the algorithm's name gives that parameter set back. This holds
-- for all three ML-DSA and all twelve SLH-DSA sets.
pub key_parameter_set-generation_algorithm :
    (o : Object) (t : Template)
    → (generation_algorithm ckm_ml_dsa_key_pair_gen t ≢ []
        → key_parameter_set (record o {
          key_type = ckk_ml_dsa;
          algorithm_name = generation_algorithm ckm_ml_dsa_key_pair_gen t;
        })
          ≡ value_or (template_unsigned t cka_parameter_set) ckp_ml_dsa_65)
      × (generation_algorithm ckm_slh_dsa_key_pair_gen t ≢ []
          → key_parameter_set (record o {
            key_type = ckk_slh_dsa;
            algorithm_name = generation_algorithm ckm_slh_dsa_key_pair_gen t;
          })
            ≡ value_or (template_unsigned t cka_parameter_set) ckp_slh_dsa_sha2_128s)
unfolding key_parameter_set generation_algorithm occurs_in starts_with
key_parameter_set-generation_algorithm o t = (
  λ named. ground arith,
  λ named. ground (
    arith,
    slh_dsa_round_trip (value_or (template_unsigned t cka_parameter_set) ckp_slh_dsa_sha2_128s),
  ),
)
