-- ===== src/Objects/Searching.antt =====
-- FindObjectsInit: what a search finds.
use pkcs11hsmsim.Base.{
  ℕ, ◌<◌, ◌≡◌, ◌∙◌, refl, Bool, true, false, ◌||◌, none, some, List, [], ◌∷◌, arith, ◌==◌, contents,
  Each, Each-map, sym, length, count, bytes_eq_iff, ltb, Array, null, items, Bytes, inl, inr,
  Bool-cases, Option-cases,
}
use pkcs11hsmsim.Base.Dict.{Dict, lookup, lookup-adjust}
use pkcs11hsmsim.Base.Dict.Unique.{Unique}
use pkcs11hsmsim.Result.{ok, is_ok}
use pkcs11hsmsim.Disk.Laws.{bytes_eq_refl}
use pkcs11hsmsim.Attributes.{read_attribute}
use pkcs11hsmsim.Attributes.Secrecy.{probe, with_buffer, read_attribute-Foretells}
use pkcs11hsmsim.Core.{is_protected_object, require_user_login, object_access_status}
use pkcs11hsmsim.Openssl.{KeyReader}
use pkcs11hsmsim.Core.State.{Object, Session, Runtime}
use pkcs11hsmsim.Core.Invariant.{IsValid, ObjectOk}
use pkcs11hsmsim.Template.{Template, Attribute}
use pkcs11hsmsim.Policy.Values.{one_of}
use pkcs11hsmsim.Objects.{
  insert_sorted, sort, collect_matches, is_match, matches_attribute, matches_all, find_objects_init,
}

one_of-insert_sorted :
    (k : ℕ) (js : List ℕ) (t : ℕ) → one_of (insert_sorted k js) t ≡ (t == k || one_of js t)
unfolding one_of insert_sorted
one_of-insert_sorted k [] t = refl
one_of-insert_sorted k (j ∷ js) t = ground (arith, one_of-insert_sorted k js t)

-- Sorting keeps the members.
one_of-sort : (ks : List ℕ) (t : ℕ) → one_of (sort ks) t ≡ one_of ks t
unfolding one_of sort
one_of-sort [] t = refl
one_of-sort (k ∷ ks) t = one_of-insert_sorted k (sort ks) t ∙ rw (one_of-sort ks t)

-- All are above the bound, and they rise along the list.
abbrev pub Above : ℕ → List ℕ → Type 0
Above low [] = Unit
Above low (k ∷ ks) = (low < k) × Above k ks

Above-insert_sorted :
    (low k : ℕ) (js : List ℕ)
    → low < k
    → Above low js
    → one_of js k ≡ false
    → Above low (insert_sorted k js)
unfolding one_of insert_sorted
Above-insert_sorted low k [] h up new = (h, tt)
Above-insert_sorted low k (j ∷ js) h up new = ground (arith, Above-insert_sorted j k js)

-- No handle stands twice, and all are positive.
abbrev Distinct : List ℕ → Type 0
Distinct [] = Unit
Distinct (k ∷ ks) = (0 < k) × (one_of ks k ≡ false) × Distinct ks

Above-sort : (ks : List ℕ) → Distinct ks → Above 0 (sort ks)
unfolding sort
Above-sort [] d = tt
Above-sort (k ∷ ks) d =
    Above-insert_sorted 0 k (sort ks) d.0 (Above-sort ks d.2) (one_of-sort ks k ∙ d.1)

module _ (test : Object → Bool) where
  -- What the entry under a handle says.
  abbrev pub passes : ℕ → Dict Object → Bool
  passes k d = elim (lookup k d) [ none ↦ false | some o ↦ test o ]

  one_of-collect_matches :
      (d : Dict Object) (k : ℕ) → Unique d → one_of (collect_matches test d) k ≡ passes k d
  unfolding one_of collect_matches lookup
  one_of-collect_matches [] k u = refl
  one_of-collect_matches ((j, o) ∷ d) k u = ground (arith, one_of-collect_matches d k u.1)

  Distinct-collect_matches :
      (d : Dict Object) → Unique d → Each (λ e. 0 < e.0) d → Distinct (collect_matches test d)
  unfolding collect_matches
  Distinct-collect_matches [] u pos = tt
  Distinct-collect_matches ((j, o) ∷ d) u pos =
      ground (arith, Distinct-collect_matches d u.1 pos.1, one_of-collect_matches d j u.1)

-- The object gives the value of the attribute for as much room as the template's value has.
abbrev pub Agrees : KeyReader → Object → Attribute → Type 0
Agrees reader o a =
    read_attribute reader o (with_buffer a.type (count a.value))
    ≡ record { length = count a.value; written = contents a.value; status = ok tt }

-- What a search is for: an object of the session's slot, that is not protected or of which the user may
-- know, with the values of the template.
pub record Wanted (reader : KeyReader) (h : ℕ) (s : Session) (as' : List Attribute) (r : Runtime)
    (o : Object) : Type 0 where
  pub place : o.slot_id ≡ s.slot_id
  pub access : is_protected_object o ≡ true → require_user_login h r ≡ ok tt
  pub values : Each (Agrees reader o) as'

-- A value without bytes is equal to any other.
contents-none : (value : Array ℕ) → count value ≡ 0 → contents value ≡ []
contents-none (null n) e = refl
contents-none (items []) e = refl
contents-none (items (x ∷ xs)) e = absurd (ground (arith, e))

length-none : (xs : Bytes) → length xs ≡ 0 → xs ≡ []
length-none [] e = refl
length-none (x ∷ xs) e = absurd (omega (arith, e))

module _ (reader : KeyReader) (o : Object) where
  matches_attribute-Agrees :
      (a : Attribute)
      → (matches_attribute reader o a ≡ true → Agrees reader o a)
        × (Agrees reader o a → matches_attribute reader o a ≡ true)
  unfolding matches_attribute
  matches_attribute-Agrees a =
      let first = read_attribute reader o (probe a.type) in
      let second = read_attribute reader o (with_buffer a.type (count a.value)) in
      let same = read_attribute-Foretells reader o a.type (count a.value) in
      (
        λ matched.
            let fits : (is_ok first.status ≡ true) × (first.length ≡ count a.value) =
              ground (arith, matched) in
            let answered = same.enough fits.0 (omega (arith, fits.1)) in
            let text : second.written ≡ contents a.value = elim (Bool-cases (count a.value == 0)) [
              | inl none_there ↦
                  length-none second.written (ground (arith, answered.2, fits.1, none_there))
                  ∙ sym (contents-none a.value (ground (arith, none_there)))
              | inr some_there ↦
                  (bytes_eq_iff second.written (contents a.value)).0
                    (ground (arith, matched, fits, answered, some_there))
            ] in
            ground (arith, answered, text, fits),
        λ agrees. elim (Bool-cases (is_ok first.status)) [
          | inr fails ↦ absurd (ground (arith, same.failing fails, agrees, fails))
          | inl works ↦ elim (Bool-cases (ltb (count a.value) first.length)) [
            | inl short ↦ absurd (ground (arith, same.short works (ground (arith, short)), agrees))
            | inr enough ↦
                let answered = same.enough works (ground (arith, enough)) in
                let sized : first.length ≡ count a.value = ground (arith, answered, agrees) in
                ground (arith, works, sized, agrees, bytes_eq_refl (contents a.value))
          ]
        ],
      )

  matches_all-Agrees :
      (as' : List Attribute)
      → (matches_all reader o as' ≡ true → Each (Agrees reader o) as')
        × (Each (Agrees reader o) as' → matches_all reader o as' ≡ true)
  unfolding matches_all
  matches_all-Agrees [] = (λ _. tt, λ _. refl)
  matches_all-Agrees (a ∷ rest) =
      let one = matches_attribute-Agrees a in
      let more = matches_all-Agrees rest in
      (
        λ all. (one.0 (ground (arith, all)), more.0 (ground (arith, all))),
        λ each. ground (arith, one.1 each.0, more.1 each.1),
      )

  -- The test of the loop is right.
  is_match-Wanted :
      (h : ℕ) (s : Session) (as' : List Attribute) (r : Runtime)
      → (is_match reader h s as' r o ≡ true → Wanted reader h s as' r o)
        × (Wanted reader h s as' r o → is_match reader h s as' r o ≡ true)
  unfolding is_match object_access_status
  is_match-Wanted h s as' r =
      let values = matches_all-Agrees as' in
      (
        λ matched. record {
          place = ground (arith, matched);
          access = λ protected. ground (arith, matched, protected);
          values = values.0 (ground (arith, matched));
        },
        λ wanted. ground (arith, wanted.place, wanted.access, values.1 wanted.values),
      )

module _ (reader : KeyReader) (h : ℕ) (attributes : Template) (r : Runtime) {s : Session}
    (v : IsValid r) (found : lookup h r.sessions ≡ some s)
    (done : (find_objects_init reader h attributes r).0 ≡ ok tt) where
  search_started :
      lookup h (find_objects_init reader h attributes r).1.sessions
      ≡ some (record s {
        matches = sort (collect_matches (is_match reader h s (contents attributes) r) r.objects);
        search_offset = 0;
        search_active = true;
      })
  unfolding find_objects_init
  search_started =
      let found' = collect_matches (is_match reader h s (contents attributes) r) r.objects in
      let start : Session → Session =
        λ s. record s { matches = sort found'; search_offset = 0; search_active = true } in
      ground (arith, found, done, lookup-adjust h h start r.sessions)

  -- A search that `FindObjectsInit` starts in a well-formed registry has as its matches exactly the
  -- handles of the objects in the session's slot that are not protected or of which the user may know,
  -- and that have every value of the template. They are in ascending order, each once, whatever the
  -- order of the registry is; the search is active and starts at the first match.
  pub find_objects_init_finds :
      (s' : Session) × (lookup h (find_objects_init reader h attributes r).1.sessions ≡ some s')
      × (s'.search_active ≡ true)
      × (s'.search_offset ≡ 0)
      × Above 0 s'.matches
      × ((k : ℕ)
          → one_of s'.matches k ≡ true
          → (o : Object) × (lookup k r.objects ≡ some o)
            × Wanted reader h s (contents attributes) r o)
      × ((k : ℕ) (o : Object)
          → lookup k r.objects ≡ some o
          → Wanted reader h s (contents attributes) r o
          → one_of s'.matches k ≡ true)
  find_objects_init_finds =
      let test = is_match reader h s (contents attributes) r in
      let found = collect_matches test r.objects in
      let exact : (k : ℕ) → one_of (sort found) k ≡ passes test k r.objects =
        λ k. one_of-sort found k ∙ one_of-collect_matches test r.objects k v.unique_objects in
      let positive : Each (λ e. 0 < e.0) r.objects =
        Each-map (ObjectOk r.next_object_handle r.slots r.sessions) (λ e. 0 < e.0) r.objects
          (λ e ok. ok.1) v.objects_ok in
      (
        record s { matches = sort found; search_offset = 0; search_active = true },
        search_started,
        refl,
        refl,
        Above-sort found (Distinct-collect_matches test r.objects v.unique_objects positive),
        λ k member. elim (Option-cases (lookup k r.objects)) [
          | inl missing ↦ absurd (ground (arith, exact k, member, missing))
          | inr (o, there) ↦ (
            o,
            there,
            (is_match-Wanted reader o h s (contents attributes) r).0
                (ground (arith, exact k, member, there)),
          )
        ],
        λ k o there wanted.
            let matched = (is_match-Wanted reader o h s (contents attributes) r).1 wanted in
            ground (arith, exact k, there, matched),
      )
