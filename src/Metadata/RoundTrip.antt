-- ===== src/Metadata/RoundTrip.antt =====
-- A metadata file is read back as it was written.
use mathlib.Core.List.{append_assoc, append-nil}
use pkcs11hsmsim.Base.{
  ℕ, ◌+◌, ◌^◌, ◌≤◌, ◌<◌, ◌≡◌, ◌∙◌, refl, Bool, true, false, some, [], ◌∷◌, ◌++◌, Bytes, arith,
  length, suc, if◌then◌else◌, Each, inl, inr, Option-cases,
}
use pkcs11hsmsim.Base.Dict.{Dict, contains, lookup, assign}
use pkcs11hsmsim.Metadata.{
  Attributes, Records, write_uint32, write_string, read_policy, read_policy_of, read_attributes,
  read_records, decode, write_policy, write_attributes, write_records, encode, policy_format,
}
use pkcs11hsmsim.Metadata.Words.{read_uint32-write_uint32, read_string-write_string}

-- Keys rise along the list, as in a `std::map`, and stay above the bound.
abbrev pub Rising {ℓ} : {V : Type ℓ} → ℕ → Dict V → Type 0
Rising low [] = Unit
Rising low ((k, v) ∷ d) = (low ≤ k) × Rising (k + 1) d

module _ {ℓ} {V : Type ℓ} where
  -- All keys are below the bound.
  abbrev AllBelow : ℕ → Dict V → Type 0
  AllBelow high [] = Unit
  AllBelow high ((k, v) ∷ d) = (k < high) × AllBelow high d

  AllBelow-mono : (low high : ℕ) (d : Dict V) → low ≤ high → AllBelow low d → AllBelow high d
  AllBelow-mono low high [] h b = tt
  AllBelow-mono low high ((k, v) ∷ d) h b = (omega arith, AllBelow-mono low high d h b.1)

  AllBelow-snoc :
      (high k : ℕ) (v : V) (d : Dict V)
      → k < high
      → AllBelow high d
      → AllBelow high (d ++ ((k, v) ∷ []))
  AllBelow-snoc high k v [] h b = (h, tt)
  AllBelow-snoc high k v ((j, w) ∷ d) h b = (b.0, AllBelow-snoc high k v d h b.1)

  -- A key above all others is missing, and is added at the end.
  contains-above : (k : ℕ) (d : Dict V) → AllBelow k d → contains k d ≡ false
  unfolding lookup
  contains-above k [] b = refl
  contains-above k ((j, w) ∷ d) b = ground (arith, contains-above k d b.1)

  assign-above : (k : ℕ) (v : V) (d : Dict V) → AllBelow k d → assign k v d ≡ d ++ ((k, v) ∷ [])
  unfolding assign
  assign-above k v [] b = refl
  assign-above k v ((j, w) ∷ d) b = ground (arith, assign-above k v d b.1)

-- What one word holds.
abbrev pub Words {ℓ} : {V : Type ℓ} → Dict V → Type 0
Words [] = Unit
Words ((k, v) ∷ d) = (k < 2 ^ 32) × Words d

-- One entry of a policy.
read_policy_entry :
    (n k : ℕ) (v : Bool) (policy : Dict Bool) (rest : Bytes)
    → k < 2 ^ 32
    → contains k policy ≡ false
    → read_policy (suc n) policy (write_uint32 k ++ (write_uint32 (if v then 1 else 0) ++ rest))
      ≡ read_policy n (assign k v policy) rest
unfolding read_policy
read_policy_entry n k true policy rest w new =
    rw
      (
        read_uint32-write_uint32 k (write_uint32 1 ++ rest) w,
        read_uint32-write_uint32 1 rest (omega arith),
      )
      (rw new refl)
read_policy_entry n k false policy rest w new =
    rw
      (
        read_uint32-write_uint32 k (write_uint32 0 ++ rest) w,
        read_uint32-write_uint32 0 rest (omega arith),
      )
      (rw new refl)

read_policy-write_policy :
    (low : ℕ) (done policy : Dict Bool) (rest : Bytes)
    → AllBelow low done
    → Rising low policy
    → Words policy
    → read_policy (length policy) done (write_policy policy ++ rest) ≡ some (done ++ policy, rest)
unfolding write_policy
read_policy-write_policy low done [] rest b up w = unfold read_policy in rw (append-nil done)
read_policy-write_policy low done ((k, v) ∷ policy) rest b up w =
    let below = AllBelow-mono low k done up.0 b in
    let done' = done ++ ((k, v) ∷ []) in
    let bit = write_uint32 (if v then 1 else 0) in
    rw (append_assoc (write_uint32 k) (bit ++ write_policy policy) rest) (
      rw (append_assoc bit (write_policy policy) rest) (
        read_policy_entry (length policy) k v done (write_policy policy ++ rest) w.0
          (contains-above k done below)
        ∙ rw (assign-above k v done below) (
            read_policy-write_policy (k + 1) done' policy rest
              (AllBelow-snoc (k + 1) k v done (omega arith)
                (AllBelow-mono k (k + 1) done (omega arith) below))
              up.1 w.1
            ∙ rw (append_assoc done ((k, v) ∷ []) policy) refl)))

-- What a `std::map` of policies holds, within the limit that `read` sets.
pub record StorablePolicy (policy : Dict Bool) : Type 0 where
  pub rising : Rising 0 policy
  pub words : Words policy
  pub few : length policy ≤ 32

read_policy_of-write_policy :
    (policy : Dict Bool) (rest : Bytes)
    → StorablePolicy policy
    → read_policy_of policy_format (write_uint32 (length policy) ++ (write_policy policy ++ rest))
      ≡ some (policy, rest)
unfolding read_policy_of
read_policy_of-write_policy policy rest ok =
    rw (read_uint32-write_uint32 (length policy) (write_policy policy ++ rest) (omega arith))
      (ground (arith, read_policy-write_policy 0 [] policy rest tt ok.rising ok.words))

pub write_attributes-some :
    (a : Attributes) {written : Bytes}
    → write_attributes a ≡ some written
    → (label id : Bytes) × (write_string a.label ≡ some label)
      × (write_string a.id ≡ some id)
      × (written ≡ label ++ (id ++ (write_uint32 (length a.policy) ++ write_policy a.policy)))
unfolding write_attributes
write_attributes-some a h = elim (Option-cases (write_string a.label)) [
  | inl long ↦ absurd (ground arith)
  | inr (label, e) ↦ elim (Option-cases (write_string a.id)) [
    | inl long ↦ absurd (ground arith)
    | inr (id, e') ↦ (label, id, e, e', ground arith)
  ]
]

read_attributes-write_attributes :
    (a : Attributes) (rest : Bytes) {written : Bytes}
    → StorablePolicy a.policy
    → write_attributes a ≡ some written
    → read_attributes policy_format (written ++ rest) ≡ some (a, rest)
unfolding read_attributes
read_attributes-write_attributes a rest {written} good h =
    let (label, id, e, e', shape) = write_attributes-some a h in
    let n = write_uint32 (length a.policy) in
    rw (
      shape,
      append_assoc label (id ++ (n ++ write_policy a.policy)) rest,
      append_assoc id (n ++ write_policy a.policy) rest,
      append_assoc n (write_policy a.policy) rest,
      read_string-write_string a.label (id ++ (n ++ (write_policy a.policy ++ rest))) e,
      read_string-write_string a.id (n ++ (write_policy a.policy ++ rest)) e',
      read_policy_of-write_policy a.policy rest good,
    )

-- What a `std::map` of records holds, within the limits that `read` sets.
pub record Storable (records : Records) : Type 0 where
  pub rising : Rising 1 records
  pub classes : Each (λ e. e.0 ≤ 4) records
  pub few : length records ≤ 4
  pub policies : Each (λ e. StorablePolicy e.1.policy) records

pub write_records-some :
    (cls : ℕ) (a : Attributes) (records : Records) {written : Bytes}
    → write_records ((cls, a) ∷ records) ≡ some written
    → (attributes body : Bytes) × (write_attributes a ≡ some attributes)
      × (write_records records ≡ some body)
      × (written ≡ write_uint32 cls ++ (attributes ++ body))
unfolding write_records
write_records-some cls a records h = elim (Option-cases (write_attributes a)) [
  | inl long ↦ absurd (ground arith)
  | inr (attributes, e) ↦ elim (Option-cases (write_records records)) [
    | inl long ↦ absurd (ground arith)
    | inr (body, e') ↦ (attributes, body, e, e', ground arith)
  ]
]

-- One record.
read_records_entry :
    (n cls : ℕ) (a : Attributes) (records : Records) (rest : Bytes) {attributes : Bytes}
    → 1 ≤ cls
    → cls ≤ 4
    → StorablePolicy a.policy
    → write_attributes a ≡ some attributes
    → contains cls records ≡ false
    → read_records policy_format (suc n) records (write_uint32 cls ++ (attributes ++ rest))
      ≡ read_records policy_format n (assign cls a records) rest
unfolding read_records
read_records_entry n cls a records rest {attributes} low high good e new =
    rw (read_uint32-write_uint32 cls (attributes ++ rest) (omega arith))
      (rw (read_attributes-write_attributes a rest good e) (ground arith))

read_records-write_records :
    (low : ℕ) (done records : Records) (rest : Bytes) {written : Bytes}
    → 1 ≤ low
    → AllBelow low done
    → Rising low records
    → Each (λ e. e.0 ≤ 4) records
    → Each (λ e. StorablePolicy e.1.policy) records
    → write_records records ≡ some written
    → read_records policy_format (length records) done (written ++ rest)
      ≡ some (done ++ records, rest)
read_records-write_records low done [] rest {written} pos b up high good h =
    unfold read_records write_records in ground (arith, append-nil done)
read_records-write_records low done ((cls, a) ∷ records) rest {written} pos b up high good h =
    let below = AllBelow-mono low cls done up.0 b in
    let (attributes, body, e, e', shape) = write_records-some cls a records h in
    rw
      (
        shape,
        append_assoc (write_uint32 cls) (attributes ++ body) rest,
        append_assoc attributes body rest,
      )
      (read_records_entry (length records) cls a done (body ++ rest) (omega arith) high.0 good.0 e
          (contains-above cls done below)
        ∙ rw (assign-above cls a done below) (
            read_records-write_records (cls + 1) (done ++ ((cls, a) ∷ [])) records rest
              (omega arith)
              (AllBelow-snoc (cls + 1) cls a done (omega arith)
                (AllBelow-mono cls (cls + 1) done (omega arith) below))
              up.1 high.1 good.1 e'
            ∙ rw (append_assoc done ((cls, a) ∷ []) records) refl))

few-word : (n : ℕ) → n ≤ 4 → n < 2 ^ 32
few-word n h = omega arith

-- A set of records that a `std::map` can hold, with the classes, the number of records and the number
-- of policies that `read` accepts, is read back from what `create` writes.
pub decode-encode :
    (records : Records) {written : Bytes}
    → Storable records
    → encode records ≡ some written
    → decode written ≡ some records
unfolding encode decode
decode-encode records {written} good h = elim (Option-cases (write_records records)) [
  | inl long ↦ absurd (ground arith)
  | inr (body, e) ↦
      let n = write_uint32 (length records) in
      let shape : written ≡ write_uint32 policy_format ++ (n ++ body) = ground arith in
      let all =
        read_records-write_records 1 [] records [] (omega arith) tt good.rising good.classes
          good.policies e in
      rw
        (
          shape,
          read_uint32-write_uint32 policy_format (n ++ body) (omega arith),
          read_uint32-write_uint32 (length records) body (few-word (length records) good.few),
        )
        (let read_back : read_records policy_format (length records) [] body ≡ some (records, []) =
            rw (append-nil body) at all in
          ground (arith, read_back, good.few))
]
