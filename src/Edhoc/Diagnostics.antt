-- ===== src/Edhoc/Diagnostics.antt =====
-- src/edhoc/mod.rs: an error that one side encodes is the peer's error that the other side decodes.
use Prim.Native.Nat.{min}
use mathlib.Core.Path.{subst}
use native.Mathlib.Decide.{ℕ_discrete}
use coap_rs.Common.{
  ℕ, zero, suc, ◌≤◌, ◌<◌, ◌≡◌, refl, inl, inr, true, false, some, [], ◌∷◌, ◌++◌, Bytes, length,
  take, take_all, length-take_of_le, arith, Bool-cases, if◌then◌else◌,
}
use coap_rs.Common.Results.{err}
use coap_rs.Coap.{Status}
use coap_rs.Edhoc.{
  EdhocError, EdhocErrorMessage, CborDecoder, Printer, decode, diagnostic, is_char_boundary,
  boundary_below, text_head, unspecified_error, unspecified_code, wrong_selected_cipher_suite,
  unknown_credential_referenced, render, to_error_message, expect_changed, is_changed, protocol, io,
  unexpected_response, malformed, unknown_session, untrusted_credential,
  no_connection_identifier_available, peer,
}

-- The largest boundary up to a bound.
pub record IsLastBoundary (bound : ℕ) (text : Bytes) (len : ℕ) : Type 0 where
  pub within : len ≤ bound
  pub boundary : is_char_boundary len text ≡ true
  pub largest : (m : ℕ) → m ≤ bound → is_char_boundary m text ≡ true → m ≤ len

boundary_below-IsLastBoundary :
    (n : ℕ) (text : Bytes) → IsLastBoundary n text (boundary_below n text)
unfolding boundary_below is_char_boundary
boundary_below-IsLastBoundary zero text = record {
  within = omega arith;
  boundary = refl;
  largest = λ m h b. h;
}
boundary_below-IsLastBoundary (suc n) text =
    let r = boundary_below-IsLastBoundary n text in
    elim (Bool-cases (is_char_boundary (suc n) text)) [
      | inl here ↦
          rw (boundary_below, here)
            (record { within = omega arith; boundary = here; largest = λ m h b. h })
      | inr not_here ↦
          rw (boundary_below, not_here)
            (record {
              within = omega (arith, r.within);
              boundary = r.boundary;
              largest = λ m h b. elim (ℕ_discrete m (suc n)) [
                | yes top ↦ absurd (ground (arith, top, b))
                | no under ↦ r.largest m (omega (arith, under)) b
              ];
            })
    ]

is_char_boundary-end : (text : Bytes) → is_char_boundary (length text) text ≡ true
unfolding is_char_boundary
is_char_boundary-end [] = refl
is_char_boundary-end (b ∷ []) = refl
is_char_boundary-end (b ∷ c ∷ text) = is_char_boundary-end (c ∷ text)

-- The number of bytes that are sent of a text.
abbrev pub sent_length : Bytes → ℕ
sent_length text = boundary_below (min (length text) 255) text

sent_length-short : (text : Bytes) → length text ≤ 255 → sent_length text ≡ length text
sent_length-short text h =
    let r = boundary_below-IsLastBoundary (min (length text) 255) text in
    omega (arith, r.within, r.largest (length text) (omega arith) (is_char_boundary-end text))

-- The diagnostic of an unspecified error is the longest beginning of the text that ends at a
-- character and has at most 255 bytes: the whole text where that fits.
pub unspecified_error_lem :
    (text : Bytes)
    → (unspecified_error text
        ≡ unspecified_code ∷ (text_head (sent_length text) ++ take (sent_length text) text))
      × IsLastBoundary (min (length text) 255) text (sent_length text)
      × (length text ≤ 255 → take (sent_length text) text ≡ text)
unfolding unspecified_error
unspecified_error_lem text = (
  refl,
  boundary_below-IsLastBoundary (min (length text) 255) text,
  λ short. take_all (sent_length text) text (omega (arith, sent_length-short text short)),
)

module _ {E : Type 0} (decoder : CborDecoder) (printer : Printer E) where
  open decoder use {i8, any_as_encoded, str, utf8}

  -- CBOR, as far as the messages use it: small integers, `true`, and texts of at most 255 bytes.
  pub record DecodesCbor : Type 0 where
    pub small : (c : ℕ) (rest : Bytes) → c < 24 → i8 (c ∷ rest) ≡ some (c, rest)
    pub suite : any_as_encoded (0x02 ∷ []) ≡ some (0x02 ∷ [], [])
    pub truth : any_as_encoded (0xf5 ∷ []) ≡ some (0xf5 ∷ [], [])
    pub item :
        (text : Bytes)
        → length text ≤ 255
        → any_as_encoded (text_head (length text) ++ text)
          ≡ some (text_head (length text) ++ text, [])
    pub content :
        (text : Bytes) → length text ≤ 255 → str (text_head (length text) ++ text) ≡ some (text, [])

  -- The code that RFC 9528 gives an error.
  abbrev pub code_of : EdhocError E → ℕ
  code_of (protocol e) =
      if printer.is_unsupported_suite e then wrong_selected_cipher_suite else unspecified_code
  code_of untrusted_credential = unknown_credential_referenced
  code_of _ = unspecified_code

  -- What the other side makes of an error that was sent: its status, its code and, for an unspecified
  -- error, the text as far as it was sent.
  pub record IsHeard (status : Status) (code : ℕ) (text : Bytes) (m : EdhocErrorMessage)
      : Type 0 where
    pub same_status : m.status ≡ status
    pub coded : m.err_code ≡ code
    pub told : code ≡ unspecified_code → diagnostic decoder m ≡ some (take (sent_length text) text)

  Hears : Status × Bytes → ℕ → Bytes → Type 0
  Hears (status, payload) code text =
      (m : EdhocErrorMessage) × (decode decoder status payload ≡ some m)
      × IsHeard status code text m

  unspecified-Hears :
      DecodesCbor
      → (status : Status) (text : Bytes) → utf8 (take (sent_length text) text) ≡ true
      → Hears (status, unspecified_error text) unspecified_code text
  unfolding Hears unspecified_error decode diagnostic
  unspecified-Hears cbor status text valid =
      let len = sent_length text in
      let r = boundary_below-IsLastBoundary (min (length text) 255) text in
      let sent = take len text in
      let size : length sent ≡ len = length-take_of_le len text (omega (arith, r.within)) in
      let fits : length sent ≤ 255 = omega (arith, size, r.within) in
      let info = text_head len ++ sent in
      let encoded : any_as_encoded info ≡ some (info, []) =
        subst (λ n. any_as_encoded (text_head n ++ sent) ≡ some (text_head n ++ sent, [])) size
          (cbor.item sent fits) in
      let content : str info ≡ some (sent, []) =
        subst (λ n. str (text_head n ++ sent) ≡ some (sent, [])) size (cbor.content sent fits) in
      let code = cbor.small unspecified_code info (omega arith) in
      (
        record { status = status; err_code = unspecified_code; err_info = info },
        rw (code, encoded) refl,
        record { same_status = refl; coded = refl; told = λ _. rw (content, valid) refl },
      )

  suite-Hears :
      DecodesCbor
      → (status : Status) (text : Bytes)
      → Hears (status, wrong_selected_cipher_suite ∷ 0x02 ∷ []) wrong_selected_cipher_suite text
  unfolding Hears decode
  suite-Hears cbor status text = (
    record { status = status; err_code = wrong_selected_cipher_suite; err_info = 0x02 ∷ [] },
    rw (cbor.small wrong_selected_cipher_suite (0x02 ∷ []) (omega arith), cbor.suite) refl,
    record { same_status = refl; coded = refl; told = λ e. absurd (omega (arith, e)) },
  )

  truth-Hears :
      DecodesCbor
      → (status : Status) (text : Bytes)
      → Hears (status, unknown_credential_referenced ∷ 0xf5 ∷ []) unknown_credential_referenced text
  unfolding Hears decode
  truth-Hears cbor status text = (
    record { status = status; err_code = unknown_credential_referenced; err_info = 0xf5 ∷ [] },
    rw (cbor.small unknown_credential_referenced (0xf5 ∷ []) (omega arith), cbor.truth) refl,
    record { same_status = refl; coded = refl; told = λ e. absurd (omega (arith, e)) },
  )

  abbrev sends : EdhocError E → Status × Bytes
  sends e = to_error_message decoder printer e

  sends-Hears :
      DecodesCbor
      → (e : EdhocError E)
      → utf8 (take (sent_length (render decoder printer e)) (render decoder printer e)) ≡ true
      → Hears (sends e) (code_of e) (render decoder printer e)
  unfolding to_error_message
  sends-Hears cbor (protocol x) valid = elim (Bool-cases (printer.is_unsupported_suite x)) [
    | inl unsupported ↦ rw (to_error_message, unsupported) (suite-Hears cbor Status.bad_request _)
    | inr other ↦ rw (to_error_message, other) (unspecified-Hears cbor Status.bad_request _ valid)
  ]
  sends-Hears cbor untrusted_credential valid = truth-Hears cbor Status.bad_request _
  sends-Hears cbor (malformed what) valid = unspecified-Hears cbor Status.bad_request _ valid
  sends-Hears cbor unknown_session valid = unspecified-Hears cbor Status.bad_request _ valid
  sends-Hears cbor (io text) valid = unspecified-Hears cbor Status.internal_server_error _ valid
  sends-Hears cbor (unexpected_response status) valid =
      unspecified-Hears cbor Status.internal_server_error _ valid
  sends-Hears cbor no_connection_identifier_available valid =
      unspecified-Hears cbor Status.internal_server_error _ valid
  sends-Hears cbor (peer m) valid = unspecified-Hears cbor Status.internal_server_error _ valid

  sends-refuses : (e : EdhocError E) → is_changed decoder printer (sends e).0 ≡ false
  unfolding to_error_message
  sends-refuses (protocol x) = ground arith
  sends-refuses untrusted_credential = refl
  sends-refuses (malformed what) = refl
  sends-refuses unknown_session = refl
  sends-refuses (io text) = refl
  sends-refuses (unexpected_response status) = refl
  sends-refuses no_connection_identifier_available = refl
  sends-refuses (peer m) = refl

  -- An error that a Responder sends with the EDHOC content format is the peer's error to the
  -- Initiator, with the status, the code of the error and, for an unspecified error, the text of the
  -- error as far as it was sent. The decoder reads CBOR, and what is sent of the text is a text.
  pub expect_changed-to_error_message :
      DecodesCbor
      → (e : EdhocError E)
      → utf8 (take (sent_length (render decoder printer e)) (render decoder printer e)) ≡ true
      → let (status, payload) = to_error_message decoder printer e in
        (m : EdhocErrorMessage) × (expect_changed decoder printer status true payload
          ≡ err (peer m))
        × IsHeard status (code_of e) (render decoder printer e) m
  unfolding expect_changed Hears
  expect_changed-to_error_message cbor e valid =
      let (m, heard, is) = sends-Hears cbor e valid in (m, rw (sends-refuses e, heard) refl, is)
