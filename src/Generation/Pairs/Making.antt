-- ===== src/Generation/Pairs/Making.antt =====
-- GenerateKeyPair: the pair that it makes, or an error.
use pkcs11hsmsim.Base.{
  some, ℕ, ◌+◌, ◌<◌, ◌≡◌, Bool, true, not, ◌||◌, Option, Bytes, arith, ◌==◌, is_bad, length,
}
use pkcs11hsmsim.Base.Dict.{lookup}
use pkcs11hsmsim.Ck.{ulong_mod, cko_private_key, cko_public_key}
use pkcs11hsmsim.Result.{
  ok, Rv, err, outcome->>=, outcome-lift, outcome-need, outcome-refuse_if, session_handle_invalid,
  arguments_bad, template_inconsistent, mechanism_invalid,
}
use pkcs11hsmsim.Openssl.{KeyReader, KeyWriter, KeyMaker}
use pkcs11hsmsim.Core.State.{Runtime}
use pkcs11hsmsim.Core.Invariant.{IsValid}
use pkcs11hsmsim.Template.{Template}
use pkcs11hsmsim.Mechanisms.{generation_algorithm}
use pkcs11hsmsim.Policy.Creation.{
  is_token_template, validate_creation_template, apply_creation_template,
}
use pkcs11hsmsim.Generation.Pairs.Keeping.{
  PairGeneration, unchanged-PairGeneration, keep_pair-PairGeneration,
}
use pkcs11hsmsim.Generation.Pairs.{
  generate_key_pair, keep_pair, generated, make_pair, pair_key_type, policy_object, differ,
}

-- The key that OpenSSL generates for the mechanism and the public template.
abbrev pub Drawn : KeyMaker → Option ℕ → Template → ℕ → Type 0
Drawn maker mechanism public_template key =
    (m : ℕ) × (mechanism ≡ some m)
    × (generated maker (generation_algorithm m public_template) public_template ≡ some key)

module _ (reader : KeyReader) (writer : KeyWriter) (h : ℕ)
    (public_template private_template : Template) (r : Runtime) where
  make_pair-Drawn :
      (maker : KeyMaker) (algorithm : Bytes) {key : ℕ}
      → (make_pair maker algorithm public_template r).0 ≡ ok key
      → generated maker algorithm public_template ≡ some key
  unfolding make_pair
  make_pair-Drawn maker algorithm done = ground (arith, done)

  make_pair-state :
      (maker : KeyMaker) (algorithm : Bytes) → (make_pair maker algorithm public_template r).1 ≡ r
  unfolding make_pair
  make_pair-state maker algorithm = ground arith

  -- While handles do not wrap around, in a valid registry: a GenerateKeyPair that succeeds was allowed, and
  -- a private and a public object of one key come in under the next two handles, in the session's slot,
  -- with the owner that both templates ask for and one path; the file of a token pair was not there, and
  -- then holds the container of the key. Other objects stay as they were, the registry stays well formed,
  -- and after an error there is no new object, unless OpenSSL cannot make the public part of the key
  -- that it generated: then the private object of this key alone has come in.
  pub generate_key_pair-PairGeneration :
      (maker : KeyMaker) (mechanism : Option ℕ) (has_public has_private : Bool)
      → IsValid r
      → r.next_object_handle + 2 < ulong_mod
      → PairGeneration reader writer h public_template private_template
          (Drawn maker mechanism public_template)
          r
          (generate_key_pair reader writer maker h mechanism public_template private_template
            has_public has_private r)
  unfolding generate_key_pair
  generate_key_pair-PairGeneration maker mechanism has_public has_private v room =
      let Made = Drawn maker mechanism public_template in
      let Q = PairGeneration reader writer h public_template private_template Made r in
      let failed : (e : Rv) → Q (err e, r) =
        λ e. unchanged-PairGeneration reader writer h public_template private_template Made r e v in
      outcome-need Q (lookup h r.sessions) session_handle_invalid _ r
        (failed session_handle_invalid)
        (λ session found.
          outcome-need Q mechanism arguments_bad _ r (failed arguments_bad) (λ m given.
            outcome-refuse_if Q
              (not has_public
                || not has_private
                || is_bad public_template
                || is_bad private_template)
              arguments_bad _ r (failed arguments_bad)
              (λ _.
                outcome-lift Q (validate_creation_template public_template) _ r (λ e _. failed e)
                  (λ _ _.
                    outcome-lift Q (validate_creation_template private_template) _ r
                      (λ e _. failed e)
                      (λ _ _.
                        outcome-refuse_if Q
                          (differ (is_token_template public_template true)
                            (is_token_template private_template true))
                          template_inconsistent _ r (failed template_inconsistent)
                          (λ same.
                            outcome-refuse_if Q
                              (length (generation_algorithm m public_template) == 0)
                              mechanism_invalid _ r (failed mechanism_invalid)
                              (λ _.
                                let type = pair_key_type (generation_algorithm m public_template) in
                                outcome-lift Q
                                  (apply_creation_template (policy_object cko_public_key type) h
                                    public_template true r)
                                  _ r (λ e _. failed e)
                                  (λ public_policy public_applied.
                                    outcome-lift Q
                                      (apply_creation_template (policy_object cko_private_key type)
                                        h private_template true r)
                                      _ r (λ e _. failed e)
                                      (λ private_policy private_applied.
                                        let algorithm = generation_algorithm m public_template in
                                        outcome->>= Q (make_pair maker algorithm public_template)
                                          (λ key.
                                            keep_pair reader writer h key public_policy
                                              private_policy public_template private_template)
                                          r (λ e _. rw (make_pair-state maker algorithm) (failed e))
                                          (λ key drawn. rw (make_pair-state maker algorithm) (
                                            keep_pair-PairGeneration reader writer h public_template
                                              private_template Made r v room found type key
                                              (m, given, make_pair-Drawn maker algorithm drawn)
                                              (ground (arith, same)) public_applied
                                              private_applied)))))))))))
