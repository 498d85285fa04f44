-- ===== src/Policy/Creation/Validation.antt =====
-- What a valid creation template is.
use pkcs11hsmsim.Base.{
  ℕ, ◌≡◌, ◌↔◌, refl, true, false, not, ◌&&◌, ◌||◌, List, [], ◌∷◌, arith, ◌==◌, Array, null, items,
  is_bad, contents, length, Each, inl, inr, ◌⊎◌, Bool-cases,
}
use pkcs11hsmsim.Result.{ok, and_then_iff}
use pkcs11hsmsim.Template.{Attribute, Template}
use pkcs11hsmsim.Policy.Values.{one_of}
use pkcs11hsmsim.Policy.Creation.{
  validate_attribute, validate_from, validate_creation_template, is_boolean_attribute,
  ulong_attributes, free_attributes, is_missized, first_byte,
}

-- The value has exactly so many bytes behind a pointer.
abbrev pub HasSize : Array ℕ → ℕ → Type 0
HasSize (null n) size = ⊥
HasSize (items xs) size = length xs ≡ size

-- An attribute that a creation template may hold: a Boolean of one byte 0 or 1, a number of the size
-- of a CK_ULONG, or a string.
abbrev pub Acceptable : Attribute → Type 0
Acceptable a =
    ((is_boolean_attribute a.type ≡ true)
      × ((a.value ≡ items (0 ∷ [])) ⊎ (a.value ≡ items (1 ∷ []))))
    ⊎ ((is_boolean_attribute a.type ≡ false)
        × (one_of ulong_attributes a.type ≡ true)
        × HasSize a.value 4)
    ⊎ ((is_boolean_attribute a.type ≡ false)
        × (one_of ulong_attributes a.type ≡ false)
        × (one_of free_attributes a.type ≡ true)
        × (is_bad a.value ≡ false))

-- No type stands twice, nor among those seen before.
abbrev pub Fresh : List ℕ → List Attribute → Type 0
Fresh seen [] = Unit
Fresh seen (a ∷ rest) = (one_of seen a.type ≡ false) × Fresh (a.type ∷ seen) rest

boolean_value :
    (value : Array ℕ)
    → (is_missized value 1
          || (not (first_byte (contents value) == 0) && not (first_byte (contents value) == 1))
        ≡ false)
      ↔ ((value ≡ items (0 ∷ [])) ⊎ (value ≡ items (1 ∷ [])))
boolean_value (null n) = (λ h. absurd (ground arith), λ h. ground arith)
boolean_value (items []) = (λ h. absurd (ground arith), λ h. ground arith)
boolean_value (items (b ∷ [])) = (λ h. ground arith, λ h. ground arith)
boolean_value (items (b ∷ c ∷ bs)) = (λ h. absurd (ground arith), λ h. ground arith)

sized_value : (value : Array ℕ) (n : ℕ) → (is_missized value n ≡ false) ↔ HasSize value n
sized_value (null k) n = (λ h. absurd (ground arith), λ h. absurd h)
sized_value (items xs) n = (λ h. ground arith, λ h. ground arith)

validate_attribute-Acceptable : (a : Attribute) → (validate_attribute a ≡ ok tt) ↔ Acceptable a
unfolding validate_attribute
validate_attribute-Acceptable a = (
  λ h. ground (arith, boolean_value a.value, sized_value a.value 4),
  λ h. ground (arith, boolean_value a.value, sized_value a.value 4),
)

validate_from-Acceptable :
    (seen : List ℕ) (as' : List Attribute)
    → (validate_from seen as' ≡ ok tt) ↔ (Fresh seen as' × Each Acceptable as')
unfolding validate_from
validate_from-Acceptable seen [] = (λ h. (tt, tt), λ h. refl)
validate_from-Acceptable seen (a ∷ rest) =
    let ih = validate_from-Acceptable (a.type ∷ seen) rest in
    let here = validate_attribute-Acceptable a in
    elim (Bool-cases (one_of seen a.type)) [
      | inl repeated ↦ (λ h. absurd (ground arith), λ h. absurd (ground arith))
      | inr new ↦
          let both =
            and_then_iff (validate_attribute a) (validate_from (a.type ∷ seen) rest) here ih in
          rw new (
            λ h. let (first, later) = both.0 h in ((refl, later.0), (first, later.1)),
            λ h. both.1 (h.1.0, (h.0.1, h.1.1)),
          )
    ]

-- A creation template is accepted exactly when it is passed properly, no attribute type stands in it
-- twice, and each attribute is acceptable.
pub validate_creation_template-Acceptable :
    (attributes : Template)
    → (validate_creation_template attributes ≡ ok tt) ↔ (
        (is_bad attributes ≡ false)
        × Fresh [] (contents attributes)
        × Each Acceptable (contents attributes))
unfolding validate_creation_template
validate_creation_template-Acceptable attributes =
    let loop = validate_from-Acceptable [] (contents attributes) in
    elim (Bool-cases (is_bad attributes)) [
      | inl bad ↦ (λ h. absurd (ground arith), λ h. absurd (ground arith))
      | inr good ↦
          rw good (λ h. let (new, each) = loop.0 h in (refl, new, each), λ h. loop.1 (h.1, h.2))
    ]
