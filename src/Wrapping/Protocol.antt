-- ===== src/Wrapping/Protocol.antt =====
-- aesKeyWrap: the length that it asks for, and unwrapping what was wrapped.
use pkcs11hsmsim.Base.{
  sym, ◌∙◌, Bool-cases, if◌then◌else◌, ℕ, ◌+◌, ◌-◌, ◌*◌, ◌/◌, ◌%◌, ◌≤◌, ◌<◌, ◌≡◌, Bool, true, false,
  Option, none, some, [], Bytes, ◌≢◌, arith, length, inl, inr, Option-cases,
}
use pkcs11hsmsim.Result.{Result-cases, ok, err, buffer_too_small}
use pkcs11hsmsim.Openssl.{KeyCarrier}
use pkcs11hsmsim.Signatures.{Mechanism}
use pkcs11hsmsim.Core.State.{Object}
use pkcs11hsmsim.Wrapping.{
  Output, aes_key_wrap, run_wrap, wrap_status, required_length, is_padded, is_input_size,
}

-- RFC 3394 and RFC 5649: the size of what is wrapped, and unwrapping is the inverse.
pub record Wraps (carrier : KeyCarrier) : Type 0 where
  pub size :
      (padded : Bool) (key raw c : Bytes)
      → carrier.wrap padded key raw ≡ some c
      → length c ≡ (if padded then (length raw + 7) / 8 * 8 + 8 else length raw + 8)
  pub inverse :
      (padded : Bool) (key raw c : Bytes)
      → carrier.wrap padded key raw ≡ some c
      → carrier.unwrap padded key c ≡ some raw

-- What the standards unwrap is not longer than its input.
abbrev pub Shrinks : KeyCarrier → Type 0
Shrinks carrier =
    (padded : Bool) (key raw c : Bytes)
    → carrier.unwrap padded key c ≡ some raw
    → length raw ≤ length c

module _ (carrier : KeyCarrier) (good : Wraps carrier) (shrinks : Shrinks carrier)
    (unwrapping : Bool) (mechanism : Option Mechanism) (key : Object) (input : Bytes) where
  -- What one call returns of its buffer.
  abbrev called : Bool → ℕ → Output
  called has_output capacity =
      aes_key_wrap carrier unwrapping mechanism key input has_output capacity

  -- The length suffices for a run, and a run that wraps needs all of it.
  abbrev Suffices : ℕ → ℕ → Output → Type 0
  Suffices n room out =
      (room < n → out ≡ record { status = err buffer_too_small; length = n; written = [] })
      × (n ≤ room → out.status ≢ err buffer_too_small)
      × (out.status ≡ ok tt
          → (length out.written ≡ out.length)
            × (out.length ≤ n)
            × (out.length ≤ room)
            × (unwrapping ≡ false → out.length ≡ n))

  run_wrap-size :
      (padded : Bool) {bytes : Bytes}
      → (if unwrapping
          then carrier.unwrap padded key.secret_value input
          else carrier.wrap padded key.secret_value input)
        ≡ some bytes
      → (length bytes ≤ required_length unwrapping padded (length input))
        × (unwrapping ≡ false → length bytes ≡ required_length unwrapping padded (length input))
  run_wrap-size padded {bytes} made = elim (Bool-cases unwrapping) [
    | inl back ↦ ground (arith, back, made, shrinks padded key.secret_value bytes input)
    | inr forth ↦ ground (arith, forth, made, good.size padded key.secret_value input bytes)
  ]

  run_wrap-query :
      (padded : Bool) (capacity n room : ℕ)
      → run_wrap carrier unwrapping padded key.secret_value input false capacity
        ≡ record { status = ok tt; length = n; written = [] }
      → Suffices n room (run_wrap carrier unwrapping padded key.secret_value input true room)
  unfolding run_wrap
  run_wrap-query padded capacity n room asked =
      let ran =
        if unwrapping
        then carrier.unwrap padded key.secret_value input
        else carrier.wrap padded key.secret_value input in
      elim (Option-cases ran) [
        | inl failed ↦ ground (arith, asked, failed)
        | inr (bytes, made) ↦ ground (arith, asked, made, run_wrap-size padded made)
      ]

  -- After a call that succeeds, all calls get to the cipher.
  called-runs :
      (capacity n : ℕ)
      → called false capacity ≡ record { status = ok tt; length = n; written = [] }
      → (m : Mechanism) × ((has_output : Bool) (room : ℕ)
          → called has_output room
            ≡ run_wrap carrier unwrapping (is_padded m) key.secret_value input has_output room)
  unfolding aes_key_wrap
  called-runs capacity n asked =
      elim (Result-cases (wrap_status unwrapping mechanism key (length input))) [
        | inr (fault, e) ↦ absurd (ground (arith, e, asked))
        | inl (m, e) ↦ (m, λ has_output room. ground (arith, e))
      ]

  -- Where the wrap ciphers have the sizes that their standards give them: a call without a buffer that
  -- succeeds tells the length that the buffer must have. With less, the same length comes back with
  -- CKR_BUFFER_TOO_SMALL and nothing is written; with that much or more the buffer is never too small.
  -- What is written is as long as is said, never longer than that length or than the buffer, and exactly
  -- that long when a key is wrapped.
  pub aes_key_wrap-query :
      (capacity n room : ℕ)
      → called false capacity ≡ record { status = ok tt; length = n; written = [] }
      → (room < n
          → called true room ≡ record { status = err buffer_too_small; length = n; written = [] })
        × (n ≤ room → (called true room).status ≢ err buffer_too_small)
        × ((called true room).status ≡ ok tt
            → (length (called true room).written ≡ (called true room).length)
              × ((called true room).length ≤ n)
              × ((called true room).length ≤ room)
              × (unwrapping ≡ false → (called true room).length ≡ n))
  aes_key_wrap-query capacity n room asked =
      let (m, runs) = called-runs capacity n asked in
      rw (runs true room)
        (run_wrap-query (is_padded m) capacity n room (sym (runs false capacity) ∙ asked))

-- The sizes that are accepted for unwrapping are those that wrapping produces.
is_input_size-required :
    (padded : Bool) (n : ℕ)
    → is_input_size false padded n ≡ true
    → is_input_size true padded (required_length false padded n) ≡ true
is_input_size-required true n fits =
    let up : 8 ≤ (n + 7) / 8 * 8 = ground (arith, fits) in
    let whole : ((n + 7) / 8 * 8 + 8) % 8 ≡ 0 = omega arith in ground (arith, up, whole)
is_input_size-required false n fits =
    let whole : n % 8 ≡ 0 = ground (arith, fits) in
    let still : (n + 8) % 8 ≡ 0 = omega (arith, whole) in
    let large : 16 ≤ n = ground (arith, fits) in ground (arith, still, large)

module _ (carrier : KeyCarrier) (good : Wraps carrier) (key : Object) (raw c : Bytes) where
  -- What was wrapped may be unwrapped.
  wrap_status-unwrapping :
      (mechanism : Option Mechanism) (m : Mechanism)
      → wrap_status false mechanism key (length raw) ≡ ok m
      → length c ≡ required_length false (is_padded m) (length raw)
      → length c ≤ 2147483647 - 16
      → wrap_status true mechanism key (length c) ≡ ok m
  unfolding wrap_status
  wrap_status-unwrapping none m passed sized small = absurd (ground arith)
  wrap_status-unwrapping (some given) m passed sized small =
      let same : given ≡ m = ground (arith, passed) in
      rw sized (
        ground (
          arith,
          same,
          passed,
          sized,
          small,
          is_input_size-required (is_padded given) (length raw),
        ))

  run_wrap-inverse :
      (padded : Bool) (room : ℕ)
      → run_wrap carrier false padded key.secret_value raw true room
        ≡ record { status = ok tt; length = length c; written = c }
      → (carrier.unwrap padded key.secret_value c ≡ some raw)
        × (length c ≡ required_length false padded (length raw))
        × (run_wrap carrier true padded key.secret_value c true (length c)
            ≡ record { status = ok tt; length = length raw; written = raw })
  unfolding run_wrap
  run_wrap-inverse padded room done =
      elim (Option-cases (carrier.wrap padded key.secret_value raw)) [
        | inl failed ↦ absurd (ground (arith, failed, done))
        | inr (c', e) ↦ ground (
          arith,
          e,
          done,
          good.size padded key.secret_value raw c',
          good.inverse padded key.secret_value raw c',
        )
      ]

  -- Where the wrap ciphers have the sizes and the inverse that their standards give them: what aesKeyWrap
  -- has wrapped it also unwraps, into a buffer of the input's size, as long as the wrapped key is not
  -- longer than it accepts.
  pub aes_key_wrap-inverse :
      (mechanism : Option Mechanism) (room : ℕ)
      → aes_key_wrap carrier false mechanism key raw true room
        ≡ record { status = ok tt; length = length c; written = c }
      → length c ≤ 2147483647 - 16
      → aes_key_wrap carrier true mechanism key c true (length c)
        ≡ record { status = ok tt; length = length raw; written = raw }
  unfolding aes_key_wrap
  aes_key_wrap-inverse mechanism room done small =
      elim (Result-cases (wrap_status false mechanism key (length raw))) [
        | inr (fault, e) ↦ absurd (ground (arith, e, done))
        | inl (m, e) ↦
            let run : run_wrap carrier false (is_padded m) key.secret_value raw true room
                ≡ record { status = ok tt; length = length c; written = c } =
              ground (arith, e, done) in
            let (inverse, sized, back) = run_wrap-inverse (is_padded m) room run in
            ground (arith, back, wrap_status-unwrapping mechanism m e sized small)
      ]
