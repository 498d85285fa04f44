-- ===== src/Result.antt =====
-- CK_RV: CKR_OK is `ok`, every other return code is an error. A handler is an action on a state:
-- what it wrote before an early return stays written, so the state comes back beside the error.
use pkcs11hsmsim.Base.{
  ◌≡◌, ◌↔◌, ◌≢◌, ◌⊎◌, inl, inr, refl, Bool, true, false, Option, none, some, if◌then◌else◌,
}

pub data Rv : Type 0 where
  host_memory slot_id_invalid general_error device_error arguments_bad : Rv
  cryptoki_not_initialized cryptoki_already_initialized function_not_supported : Rv
  session_handle_invalid session_parallel_not_supported session_read_only : Rv
  session_read_only_exists session_read_write_so_exists : Rv
  user_not_logged_in user_already_logged_in user_another_already_logged_in : Rv
  user_type_invalid user_pin_not_initialized : Rv
  pin_incorrect pin_invalid pin_len_range : Rv
  object_handle_invalid key_handle_invalid action_prohibited : Rv
  attribute_read_only attribute_sensitive attribute_type_invalid attribute_value_invalid : Rv
  template_incomplete template_inconsistent : Rv
  buffer_too_small operation_active operation_not_initialized : Rv
  mechanism_invalid mechanism_param_invalid key_function_not_permitted : Rv
  key_type_inconsistent key_size_range key_unextractable : Rv
  data_len_range data_invalid encrypted_data_invalid : Rv
  signature_len_range signature_invalid : Rv

pub data Result {ℓ} (A : Type ℓ) : Type ℓ where
  ok : A → Result A
  err : Rv → Result A

abbrev pub is_ok {ℓ} : {A : Type ℓ} → Result A → Bool
is_ok (ok a) = true
is_ok (err e) = false

abbrev pub Exec {ℓ} : Type ℓ → Type ℓ → Type ℓ
Exec S A = S → Result A × S

module _ {ℓ} {S A : Type ℓ} where
  abbrev pub pure : A → Exec S A
  pure a s = (ok a, s)

  -- `return code;`
  abbrev pub reject : Rv → Exec S A
  reject e s = (err e, s)

  abbrev pub gets : (S → A) → Exec S A
  gets f s = (ok (f s), s)

  -- The result of a callee that does not change the state.
  abbrev pub lift : Result A → Exec S A
  lift r s = (r, s)

  -- `if (!pointer) return code;`
  abbrev pub need : Option A → Rv → Exec S A
  need none e s = (err e, s)
  need (some a) e s = (ok a, s)

module _ {S : Type 0} where
  -- `if (test) return code;`
  abbrev pub refuse_if : Bool → Rv → Exec S (Unit {0})
  refuse_if true e s = (err e, s)
  refuse_if false e s = (ok tt, s)

  abbrev pub modify : (S → S) → Exec S (Unit {0})
  modify f s = (ok tt, f s)

module _ {ℓ} {S A B : Type ℓ} where
  abbrev pub continue : Result A → (A → Exec S B) → Exec S B
  continue (ok a) f s = f a s
  continue (err e) f s = (err e, s)

  infixl 5 ◌>>=◌ ◌>>◌
  abbrev pub ◌>>=◌ : Exec S A → (A → Exec S B) → Exec S B
  ◌>>=◌ m f s = let (r, s') = m s in continue r f s'

  abbrev pub ◌>>◌ : Exec S A → Exec S B → Exec S B
  m >> n = m >>= λ _. n

-- The call was refused and changed nothing.
abbrev pub Refused : {A S : Type 0} → Result A × S → S → Type 0
Refused (ok a, s') s = ⊥
Refused (err e, s') s = s' ≡ s

pub Refused-state : {A S : Type 0} (x : Result A × S) (s : S) → Refused x s → x.1 ≡ s
Refused-state (ok a, s') s h = absurd h
Refused-state (err e, s') s h = h

-- A check that is followed by another: the first error is returned.
abbrev pub and_then {ℓ} : {A : Type ℓ} → Result (Unit {0}) → Result A → Result A
and_then (ok _) later = later
and_then (err e) later = err e

err-ne-ok : (e : Rv) → ◌≢◌ {A = Result (Unit {0})} (err e) (ok tt)
err-ne-ok e h = cc

pub and_then_iff :
    {P Q : Type 0} (x later : Result (Unit {0}))
    → (x ≡ ok tt) ↔ P
    → (later ≡ ok tt) ↔ Q
    → (and_then x later ≡ ok tt) ↔ (P × Q)
and_then_iff (ok u) later p q = (λ h. (p.0 refl, q.0 h), λ h. q.1 h.1)
and_then_iff (err e) later p q = (λ h. absurd (err-ne-ok e h), λ h. p.1 h.0)

pub Result-cases {ℓ} :
    {A : Type ℓ} (x : Result A) → ((a : A) × (x ≡ ok a)) ⊎ ((e : Rv) × (x ≡ err e))
Result-cases (ok a) = inl (a, refl)
Result-cases (err e) = inr (e, refl)

-- What a handler that succeeds has passed.
module _ {S : Type 0} where
  pub refuse_if-ok :
      (test : Bool) (e : Rv) (rest : Exec S (Unit {0})) (s : S)
      → ((refuse_if test e >> rest) s).0 ≡ ok tt
      → (test ≡ false) × ((refuse_if test e >> rest) s ≡ rest s)
  refuse_if-ok true e rest s h = absurd (err-ne-ok e h)
  refuse_if-ok false e rest s h = (refl, refl)

  pub need-ok :
      {A : Type 0} (x : Option A) (e : Rv) (rest : A → Exec S (Unit {0})) (s : S)
      → ((need x e >>= rest) s).0 ≡ ok tt
      → (a : A) × (x ≡ some a) × ((need x e >>= rest) s ≡ rest a s)
  need-ok none e rest s h = absurd (err-ne-ok e h)
  need-ok (some a) e rest s h = (a, refl, refl)

  pub lift-ok :
      {A : Type 0} (x : Result A) (rest : A → Exec S (Unit {0})) (s : S)
      → ((lift x >>= rest) s).0 ≡ ok tt
      → (a : A) × (x ≡ ok a) × ((lift x >>= rest) s ≡ rest a s)
  lift-ok (err e) rest s h = absurd (err-ne-ok e h)
  lift-ok (ok a) rest s h = (a, refl, refl)

-- A property of what an action returns and leaves, from its first step and from the rest.
module _ {S A B : Type 0} (Q : Result B × S → Type 0) where
  pub outcome->>= :
      (m : Exec S A) (f : A → Exec S B) (s : S)
      → ((e : Rv) → (m s).0 ≡ err e → Q (err e, (m s).1))
      → ((a : A) → (m s).0 ≡ ok a → Q (f a (m s).1))
      → Q ((m >>= f) s)
  outcome->>= m f s refused done = continued (m s).0 refused done
    where
      continued :
          (x : Result A)
          → ((e : Rv) → x ≡ err e → Q (err e, (m s).1))
          → ((a : A) → x ≡ ok a → Q (f a (m s).1))
          → Q (continue x f (m s).1)
      continued (ok a) refused done = done a refl
      continued (err e) refused done = refused e refl

  pub outcome-lift :
      (x : Result A) (f : A → Exec S B) (s : S)
      → ((e : Rv) → x ≡ err e → Q (err e, s))
      → ((a : A) → x ≡ ok a → Q (f a s))
      → Q ((lift x >>= f) s)
  outcome-lift (ok a) f s refused done = done a refl
  outcome-lift (err e) f s refused done = refused e refl

  pub outcome-need :
      (x : Option A) (e : Rv) (f : A → Exec S B) (s : S)
      → Q (err e, s)
      → ((a : A) → x ≡ some a → Q (f a s))
      → Q ((need x e >>= f) s)
  outcome-need none e f s refused done = refused
  outcome-need (some a) e f s refused done = done a refl

module _ {S B : Type 0} (Q : Result B × S → Type 0) where
  pub outcome-refuse_if :
      (test : Bool) (e : Rv) (rest : Exec S B) (s : S)
      → Q (err e, s)
      → (test ≡ false → Q (rest s))
      → Q ((refuse_if test e >> rest) s)
  outcome-refuse_if true e rest s refused passed = refused
  outcome-refuse_if false e rest s refused passed = passed refl

  -- A step that is taken only if the test holds.
  pub outcome-when :
      (test : Bool) (m : Exec S (Unit {0})) (rest : Exec S B) (s : S)
      → (test ≡ false → Q (rest s))
      → (test ≡ true → (e : Rv) → (m s).0 ≡ err e → Q (err e, (m s).1))
      → (test ≡ true → (m s).0 ≡ ok tt → Q (rest (m s).1))
      → Q (((if test then m else pure tt) >> rest) s)
  outcome-when true m rest s skipped refused done =
      outcome->>= Q m (λ _. rest) s (refused refl) (λ _ e. done refl e)
  outcome-when false m rest s skipped refused done = skipped refl
