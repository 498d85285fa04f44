-- ===== src/Objects/Draining.antt =====
-- A program that calls FindObjects until a page is not full.
use pkcs11hsmsim.Base.{
  ℕ, ◌-◌, ◌≤◌, ◌<◌, ◌≡◌, ◌∙◌, sym, refl, ap, Bool, true, Option, none, some, List, [], ◌∷◌, ◌++◌,
  arith, ltb, length, drop, if◌then◌else◌, zero, suc, inl, inr, Bool-cases,
}
use pkcs11hsmsim.Base.Dict.{lookup, adjust, lookup-adjust}
use pkcs11hsmsim.Result.{ok, err}
use pkcs11hsmsim.Core.State.{Session, Runtime}
use pkcs11hsmsim.Objects.{report, find_objects, is_visible}
use pkcs11hsmsim.Objects.Paging.{
  visible_among, visible_among-cong, report-visible_among, report-exhausts, drop-length, drop-drop,
  remaining, advanced, is_visible-advanced, find_objects_lem,
}

-- The handles of all pages; none where the calls that are allowed do not suffice, or one fails.
unfoldable pub drain : ℕ → ℕ → ℕ → Runtime → Option (List ℕ)
drain h capacity zero r = none
drain h capacity (suc calls) r =
    let (result, r') = find_objects h true capacity true r in
    let later = drain h capacity calls r' in
    elim result [
      | err e ↦ none
      | ok page ↦
          if ltb (length page) capacity
          then some page
          else elim later [ none ↦ none | some handles ↦ some (page ++ handles) ]
    ]

length-drop {ℓ} : {A : Type ℓ} (n : ℕ) (xs : List A) → length (drop n xs) ≡ length xs - n
length-drop zero xs = omega arith
length-drop (suc n) [] = omega arith
length-drop (suc n) (x ∷ xs) = omega (arith, length-drop n xs)

append-nil : (xs : List ℕ) → xs ++ [] ≡ xs
append-nil [] = refl
append-nil (x ∷ xs) = ap (λ ys. x ∷ ys) (append-nil xs)

-- Every handle that is reported has been looked at, and none but the matches.
report-seen :
    (visible : ℕ → Bool) (capacity : ℕ) (ks : List ℕ)
    → (length (report visible capacity ks).0 ≤ (report visible capacity ks).1)
      × ((report visible capacity ks).1 ≤ length ks)
unfolding report
report-seen visible capacity [] = (omega arith, omega arith)
report-seen visible capacity (k ∷ ks) =
    ground (arith, report-seen visible (capacity - 1) ks, report-seen visible capacity ks)

-- A page that is not full has everything.
report-short :
    (visible : ℕ → Bool) (capacity : ℕ) (ks : List ℕ)
    → length (report visible capacity ks).0 < capacity
    → (report visible capacity ks).0 ≡ visible_among visible ks
unfolding visible_among
report-short visible capacity ks short =
    let page = report visible capacity ks in
    let all = report-visible_among visible capacity ks in
    let left : drop page.1 ks ≡ [] =
      ap (λ n. drop n ks) (report-exhausts visible capacity ks short) ∙ drop-length ks in
    sym (append-nil page.0) ∙ ap (λ xs. page.0 ++ visible_among visible xs) (sym left) ∙ all

-- A program that asks an active search for pages of at least one handle, until a page is not full, gets all
-- visible matches that are left, in order, with at most one call more than there are matches left.
pub drain_complete :
    (calls h capacity : ℕ) (r : Runtime) {s : Session}
    → lookup h r.sessions ≡ some s
    → s.search_active ≡ true
    → 1 ≤ capacity
    → length (remaining s) < calls
    → drain h capacity calls r ≡ some (visible_among (is_visible h r) (remaining s))
unfolding drain
drain_complete zero h capacity r {s} found active room enough = absurd (omega (arith, enough))
drain_complete (suc calls) h capacity r {s} found active room enough =
    let visible = is_visible h r in
    let page = report visible capacity (remaining s) in
    let r' : Runtime = record r { sessions = adjust h (advanced page.1) r.sessions } in
    let step = find_objects_lem h r found capacity active in
    elim (Bool-cases (ltb (length page.0) capacity)) [
      | inl short ↦
          let all = report-short visible capacity (remaining s) (ground (arith, short)) in
          ground (arith, step, short, all)
      | inr full ↦
          let here : lookup h r'.sessions ≡ some (advanced page.1 s) =
            ground (arith, found, lookup-adjust h h (advanced page.1) r.sessions) in
          let left : remaining (advanced page.1 s) ≡ drop page.1 (remaining s) =
            drop-drop s.search_offset page.1 s.matches in
          let seen = report-seen visible capacity (remaining s) in
          let full' : capacity ≤ length page.0 = ground (arith, full) in
          let fewer : length (remaining (advanced page.1 s)) < calls = omega (
            arith,
            ap length left,
            length-drop page.1 (remaining s),
            seen.0,
            seen.1,
            room,
            full',
            enough,
          ) in
          let rest = drain_complete calls h capacity r' here active room fewer in
          let same =
            visible_among-cong (is_visible h r') visible (remaining (advanced page.1 s))
              (is_visible-advanced h r found page.1) in
          let joined : page.0 ++ visible_among (is_visible h r') (remaining (advanced page.1 s))
              ≡ visible_among visible (remaining s) =
            ap (λ xs. page.0 ++ xs) (same ∙ ap (visible_among visible) left)
            ∙ report-visible_among visible capacity (remaining s) in
          ground (arith, step, full, rest, joined)
    ]
