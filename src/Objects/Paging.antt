-- ===== src/Objects/Paging.antt =====
-- FindObjects: how a search is paged, and FindObjectsFinal.
use pkcs11hsmsim.Base.{
  ℕ, ◌+◌, ◌-◌, ◌≤◌, ◌<◌, ◌≡◌, ◌∙◌, sym, refl, ap, Bool, true, some, List, [], ◌∷◌, ◌++◌, arith,
  length, drop, if◌then◌else◌, zero, suc,
}
use mathlib.Core.List.{append_assoc}
use pkcs11hsmsim.Base.Dict.{lookup, adjust, lookup-adjust}
use pkcs11hsmsim.Result.{ok, err}
use pkcs11hsmsim.Core.State.{Session, Runtime}
use pkcs11hsmsim.Core.{find_object, object_access_status, require_user_login, session_slot}
use pkcs11hsmsim.Objects.{report, find_objects, is_visible}

-- The handles that may be reported, in order.
unfoldable pub visible_among : (ℕ → Bool) → List ℕ → List ℕ
visible_among visible [] = []
visible_among visible (k ∷ ks) =
    let rest = visible_among visible ks in if visible k then k ∷ rest else rest

drop-suc {ℓ} : {A : Type ℓ} (n : ℕ) (x : A) (xs : List A) → drop (n + 1) (x ∷ xs) ≡ drop n xs
drop-suc n x xs = let e : n + 1 ≡ suc n = omega arith in ap (λ m. drop m (x ∷ xs)) e

module _ (visible : ℕ → Bool) where
  report-length : (capacity : ℕ) (ks : List ℕ) → length (report visible capacity ks).0 ≤ capacity
  unfolding report
  report-length capacity [] = omega arith
  report-length capacity (k ∷ ks) =
      ground (arith, report-length (capacity - 1) ks, report-length capacity ks)

  -- What is reported and what is left give together what was visible.
  pub report-visible_among :
      (capacity : ℕ) (ks : List ℕ)
      → (report visible capacity ks).0
          ++ visible_among visible (drop (report visible capacity ks).1 ks)
        ≡ visible_among visible ks
  unfolding report visible_among
  report-visible_among capacity [] = refl
  report-visible_among capacity (k ∷ ks) = ground (
    arith,
    report-visible_among (capacity - 1) ks,
    report-visible_among capacity ks,
    drop-suc (report visible (capacity - 1) ks).1 k ks,
    drop-suc (report visible capacity ks).1 k ks,
  )

  -- A page that is not full has looked at everything.
  pub report-exhausts :
      (capacity : ℕ) (ks : List ℕ)
      → length (report visible capacity ks).0 < capacity
      → (report visible capacity ks).1 ≡ length ks
  unfolding report
  report-exhausts capacity [] h = refl
  report-exhausts capacity (k ∷ ks) h =
      ground (arith, report-exhausts (capacity - 1) ks, report-exhausts capacity ks)

pub drop-length {ℓ} : {A : Type ℓ} (xs : List A) → drop (length xs) xs ≡ []
drop-length [] = refl
drop-length (x ∷ xs) = drop-length xs

drop-nil {ℓ} : {A : Type ℓ} (n : ℕ) → ◌≡◌ {A = List A} (drop n []) []
drop-nil zero = refl
drop-nil (suc n) = refl

pub drop-drop {ℓ} : {A : Type ℓ} (n m : ℕ) (xs : List A) → drop (n + m) xs ≡ drop m (drop n xs)
drop-drop zero m xs = ap (λ k. drop k xs) (omega arith)
drop-drop (suc n) m [] = drop-nil (suc n + m) ∙ sym (drop-nil m)
drop-drop (suc n) m (x ∷ xs) =
    let e : suc n + m ≡ suc (n + m) = omega arith in ap (λ k. drop k (x ∷ xs)) e ∙ drop-drop n m xs

-- The matches that the search has not looked at.
abbrev pub remaining : Session → List ℕ
remaining s = drop s.search_offset s.matches

-- What a call moves in the session.
abbrev pub advanced : ℕ → Session → Session
advanced seen s = record s { search_offset = s.search_offset + seen }

module _ (h : ℕ) (r : Runtime) {s : Session} (found : lookup h r.sessions ≡ some s) where
  pub is_visible-advanced :
      (seen k : ℕ)
      → is_visible h (record r { sessions = adjust h (advanced seen) r.sessions }) k
        ≡ is_visible h r k
  unfolding is_visible find_object object_access_status require_user_login session_slot
  is_visible-advanced seen k = ground (arith, found, lookup-adjust h h (advanced seen) r.sessions)

  pub find_objects_lem :
      (capacity : ℕ)
      → s.search_active ≡ true
      → find_objects h true capacity true r ≡ (
        ok (report (is_visible h r) capacity (remaining s)).0,
        record r {
          sessions =
              adjust h (advanced (report (is_visible h r) capacity (remaining s)).1) r.sessions;
        },
      )
  unfolding find_objects
  find_objects_lem capacity active = rw found (rw active refl)

-- Calls of `FindObjects` one after the other, each with its capacity: what they report together.
unfoldable pub pages : ℕ → List ℕ → Runtime → List ℕ × Runtime
pages h [] r = ([], r)
pages h (capacity ∷ capacities) r =
    let (result, r') = find_objects h true capacity true r in
    let (later, r'') = pages h capacities r' in
    (elim result [ ok found ↦ found | err e ↦ [] ] ++ later, r'')

pub visible_among-cong :
    (p q : ℕ → Bool) (ks : List ℕ) → ((k : ℕ) → p k ≡ q k) → visible_among p ks ≡ visible_among q ks
unfolding visible_among
visible_among-cong p q [] same = refl
visible_among-cong p q (k ∷ ks) same = ground (arith, same k, visible_among-cong p q ks same)

-- One page, then what the rest of the pages and the visible handles after them give.
page_step :
    (visible visible' : ℕ → Bool) (capacity : ℕ) (s : Session) (later left : List ℕ)
    → ((k : ℕ) → visible' k ≡ visible k)
    → later ++ visible_among visible' left
      ≡ visible_among visible' (remaining (advanced (report visible capacity (remaining s)).1 s))
    → ((report visible capacity (remaining s)).0 ++ later) ++ visible_among visible left
      ≡ visible_among visible (remaining s)
page_step visible visible' capacity s later left same rest =
    let page = report visible capacity (remaining s) in
    append_assoc page.0 later (visible_among visible left)
    ∙ ap (λ xs. page.0 ++ xs)
        (ap (λ xs. later ++ xs) (sym (visible_among-cong visible' visible left same))
          ∙ rest
          ∙ visible_among-cong visible' visible (remaining (advanced page.1 s)) same
          ∙ ap (visible_among visible) (drop-drop s.search_offset page.1 s.matches))
    ∙ report-visible_among visible capacity (remaining s)

-- However a program pages through a search, with whatever capacities, the pages it gets and the
-- visible handles among the matches that are left give, in this order, the visible handles among
-- the matches that were left before: no match is lost, repeated or reordered, and the search stays
-- active with the same matches.
pub find_objects_pages :
    (h : ℕ) (capacities : List ℕ) (r : Runtime) {s : Session}
    → lookup h r.sessions ≡ some s
    → s.search_active ≡ true
    → (s' : Session) × (lookup h (pages h capacities r).1.sessions ≡ some s')
      × (s'.search_active ≡ true)
      × (s'.matches ≡ s.matches)
      × ((pages h capacities r).0 ++ visible_among (is_visible h r) (remaining s')
          ≡ visible_among (is_visible h r) (remaining s))
unfolding pages
find_objects_pages h [] r {s} found active = (s, found, active, refl, refl)
find_objects_pages h (capacity ∷ capacities) r {s} found active =
    let page = report (is_visible h r) capacity (remaining s) in
    let r' : Runtime = record r { sessions = adjust h (advanced page.1) r.sessions } in
    let here : lookup h r'.sessions ≡ some (advanced page.1 s) =
      ground (arith, found, lookup-adjust h h (advanced page.1) r.sessions) in
    let (s', found', active', matches, rest) = find_objects_pages h capacities r' here active in
    rw (find_objects_lem h r found capacity active) (
      s',
      found',
      active',
      matches,
      page_step (is_visible h r) (is_visible h r') capacity s (pages h capacities r').0
          (remaining s') (is_visible-advanced h r found page.1) rest,
    )

-- A call on an active search reports at most as many handles as the caller has room for, and a page
-- that is not full is the last: the search has then no match left.
pub find_objects_last_page :
    (h capacity : ℕ) (r : Runtime) {s : Session}
    → lookup h r.sessions ≡ some s
    → s.search_active ≡ true
    → (page : List ℕ) × ((find_objects h true capacity true r).0 ≡ ok page)
      × (length page ≤ capacity)
      × (length page < capacity
          → (s' : Session) × (lookup h (find_objects h true capacity true r).1.sessions ≡ some s')
            × (remaining s' ≡ []))
find_objects_last_page h capacity r {s} found active =
    let visible = is_visible h r in
    let page = report visible capacity (remaining s) in
    rw (find_objects_lem h r found capacity active) (
      page.0,
      refl,
      report-length visible capacity (remaining s),
      λ short. (
        advanced page.1 s,
        ground (arith, found, lookup-adjust h h (advanced page.1) r.sessions),
        drop-drop s.search_offset page.1 s.matches
            ∙ ap (λ n. drop n (remaining s)) (report-exhausts visible capacity (remaining s) short)
            ∙ drop-length (remaining s),
      ),
    )
