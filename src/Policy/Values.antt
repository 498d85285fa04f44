-- ===== src/Policy/Values.antt =====
-- The policy map of an object, with the defaults of its class.
use pkcs11hsmsim.Base.{ℕ, Bool, false, ◌&&◌, ◌||◌, List, [], ◌∷◌, ◌==◌, if◌then◌else◌, value_or}
use pkcs11hsmsim.Base.Dict.{lookup}
use pkcs11hsmsim.Ck.{
  cka_sign, cka_verify, cka_wrap, cka_unwrap, cka_derive, cka_encrypt, cka_decrypt, cka_extractable,
  cka_sensitive, cka_private, cka_modifiable, cka_destroyable, cko_private_key, cko_public_key,
  cko_secret_key, ckk_aes,
}
use pkcs11hsmsim.Core.State.{Object}

-- Whether a switch has a case for the value.
unfoldable pub one_of : List ℕ → ℕ → Bool
one_of [] t = false
one_of (x ∷ xs) t = t == x || one_of xs t

unfoldable pub is_policy_attribute : ℕ → Bool
unfolding one_of
is_policy_attribute = one_of (
    cka_sign ∷ cka_verify ∷ cka_wrap ∷ cka_unwrap ∷ cka_derive ∷ cka_encrypt ∷ cka_decrypt
    ∷ cka_extractable ∷ cka_sensitive ∷ cka_private ∷ cka_modifiable ∷ cka_destroyable ∷ [])

-- The switch of `policyValue`.
unfoldable pub default_policy : ℕ → ℕ → ℕ → Bool
unfolding one_of
default_policy object_class key_type t =
    if one_of (cka_sign ∷ cka_private ∷ []) t
    then object_class == cko_private_key
    else if t == cka_verify
    then object_class == cko_public_key
    else if one_of (cka_wrap ∷ cka_unwrap ∷ cka_derive ∷ cka_encrypt ∷ cka_decrypt ∷ []) t
    then object_class == cko_secret_key && key_type == ckk_aes
    else if t == cka_sensitive
    then false
    else one_of (cka_extractable ∷ cka_modifiable ∷ cka_destroyable ∷ []) t

unfoldable pub policy_value : Object → ℕ → Bool
policy_value o t = value_or (lookup t o.policy) (default_policy o.object_class o.key_type t)
