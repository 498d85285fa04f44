-- ===== src/Signatures/Collecting.antt =====
-- SignUpdate and VerifyUpdate: the parts of a message give the message.
use pkcs11hsmsim.Base.{
  ℕ, ◌+◌, ◌-◌, ◌≤◌, ◌<◌, ◌≡◌, ◌∙◌, refl, ap, Bool, true, false, not, ◌&&◌, ◌||◌, some, List, [],
  ◌∷◌, ◌++◌, Bytes, ltb, leb, items, length, length-append, arith, inl, inr, Bool-cases,
}
use mathlib.Core.List.{append_assoc, append-nil}
use pkcs11hsmsim.Base.Dict.{lookup, adjust, lookup-adjust}
use pkcs11hsmsim.Result.{ok, err, data_len_range, Exec, pure, ◌>>◌}
use pkcs11hsmsim.Core.State.{Session, Runtime}
use pkcs11hsmsim.Signatures.{
  append_signature_data, append_input, max_multipart_bytes, is_raw_signature, ended, collecting,
}

-- The calls that pass a message in parts, up to the first that fails.
unfoldable pub append_all : ℕ → Bool → List Bytes → Exec Runtime (Unit {0})
append_all h verify [] = pure tt
append_all h verify (part ∷ parts) =
    append_signature_data h (items part) verify >> append_all h verify parts

abbrev pub concat : List Bytes → Bytes
concat [] = []
concat (part ∷ parts) = part ++ concat parts

-- A session that collects a message.
pub record Collects (verify : Bool) (s : Session) : Type 0 where
  pub active : s.operation.active ≡ true
  pub same : s.operation.verify ≡ verify
  pub hashes : is_raw_signature s.operation.mechanism ≡ false

module _ (h : ℕ) (verify : Bool) (r : Runtime) {s : Session} (found : lookup h r.sessions ≡ some s)
    (c : Collects verify s) (part : Bytes) where
  ready :
      (not s.operation.active
        || (s.operation.verify && not verify)
        || (not s.operation.verify && verify))
      ≡ false
  ready = ground (arith, c.active, c.same)

  append-fits :
      length s.operation.buffered_data + length part ≤ max_multipart_bytes
      → append_signature_data h (items part) verify r
        ≡ (ok tt, record r { sessions = adjust h (collecting part) r.sessions })
  unfolding append_signature_data append_input
  append-fits fits =
      let room : (ltb max_multipart_bytes (length part)
            || ltb (max_multipart_bytes - length part) (length s.operation.buffered_data))
          ≡ false =
        ground (arith, fits) in
      rw found (rw ready (rw c.hashes (rw room refl)))

  append-exceeds :
      max_multipart_bytes < length s.operation.buffered_data + length part
      → append_signature_data h (items part) verify r
        ≡ (err data_len_range, record r { sessions = adjust h ended r.sessions })
  unfolding append_signature_data append_input
  append-exceeds over =
      let full : (ltb max_multipart_bytes (length part)
            || ltb (max_multipart_bytes - length part) (length s.operation.buffered_data))
          ≡ true =
        ground (arith, over) in
      rw found (rw ready (rw c.hashes (rw full refl)))

-- However a message is cut into parts, a session that collects it has afterwards the concatenation of
-- the parts behind what it had before, if all of it is at most 64 MiB. Otherwise the calls end with
-- CKR_DATA_LEN_RANGE, and the operation is over.
pub append_all_lem :
    (h : ℕ) (verify : Bool) (parts : List Bytes) (r : Runtime) {s : Session}
    → lookup h r.sessions ≡ some s
    → Collects verify s
    → length s.operation.buffered_data ≤ max_multipart_bytes
    → (length s.operation.buffered_data + length (concat parts) ≤ max_multipart_bytes
        → ((append_all h verify parts r).0 ≡ ok tt)
          × (lookup h (append_all h verify parts r).1.sessions
              ≡ some (collecting (concat parts) s)))
      × (max_multipart_bytes < length s.operation.buffered_data + length (concat parts)
          → ((append_all h verify parts r).0 ≡ err data_len_range)
            × ((s' : Session) × (lookup h (append_all h verify parts r).1.sessions ≡ some s')
                × (s'.operation.active ≡ false)))
unfolding append_all
append_all_lem h verify [] r {s} found c small = (
  λ fits. (refl, ground (arith, found, append-nil s.operation.buffered_data)),
  λ over. absurd (omega (arith, small, over)),
)
append_all_lem h verify (part ∷ parts) r {s} found c small =
    let total = length-append part (concat parts) in
    let longer = length-append s.operation.buffered_data part in
    elim (Bool-cases (leb (length s.operation.buffered_data + length part) max_multipart_bytes)) [
      | inl fits ↦
          let r' : Runtime = record r { sessions = adjust h (collecting part) r.sessions } in
          let here : lookup h r'.sessions ≡ some (collecting part s) =
            ground (arith, found, lookup-adjust h h (collecting part) r.sessions) in
          let rest =
            append_all_lem h verify parts r' here
              (record { active = c.active; same = c.same; hashes = c.hashes })
              (ground (arith, fits, longer)) in
          rw (append-fits h verify r found c part (ground (arith, fits))) (
            λ all_fits.
                let (done, there) = rest.0 (ground (arith, all_fits, longer, total)) in
                (
                  done,
                  there
                      ∙ ap
                          (λ bytes. some (record s {
                            operation = record (s.operation) { buffered_data = bytes };
                          }))
                          (append_assoc s.operation.buffered_data part (concat parts)),
                ),
            λ exceeds. rest.1 (ground (arith, exceeds, longer, total)),
          )
      | inr over ↦ rw (append-exceeds h verify r found c part (ground (arith, over))) (
        λ fits. absurd (ground (arith, fits, over, total)),
        λ exceeds.
            (refl, (ended s, ground (arith, found, lookup-adjust h h ended r.sessions), refl)),
      )
    ]
