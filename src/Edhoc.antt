-- ===== src/Edhoc.antt =====
-- src/edhoc/mod.rs: the errors of an EDHOC exchange and the messages that carry them.
pub mod Diagnostics
pub mod Responder
pub mod Initiator
use Prim.Native.Nat.{bit_or, min}
use coap_rs.Common.{
  ℕ, zero, suc, ◌%◌, Bool, true, false, not, ◌&&◌, ◌||◌, Option, none, some, List, [], ◌∷◌, ◌++◌,
  ◌==◌, ltb, leb, if◌then◌else◌, ◌>>=◌, Bytes, ascii, length, take,
}
use coap_rs.Common.Results.{Result, ok, err}
use coap_rs.Coap.{Status}

pub record EdhocErrorMessage : Type 0 where
  pub status : Status
  pub err_code : ℕ
  pub err_info : Bytes

-- `ERR_CODE`
abbrev pub unspecified_code : ℕ
unspecified_code = 1

abbrev pub wrong_selected_cipher_suite : ℕ
wrong_selected_cipher_suite = 2

abbrev pub unknown_credential_referenced : ℕ
unknown_credential_referenced = 3

-- What the program takes from the decoder of `lakers`: each takes an item off the front of the buffer
-- and leaves the rest. A negative code is its two's complement. `utf8` says which bytes are a text.
pub record CborDecoder : Type 0 where
  pub i8 : Bytes → Option (ℕ × Bytes)
  pub any_as_encoded : Bytes → Option (Bytes × Bytes)
  pub str : Bytes → Option (Bytes × Bytes)
  pub utf8 : Bytes → Bool

-- `EdhocError`, over the errors of `lakers`; an I/O error is held as it prints.
pub data EdhocError (E : Type 0) : Type 0 where
  protocol : E → EdhocError E
  io : Bytes → EdhocError E
  unexpected_response : Status → EdhocError E
  malformed : Bytes → EdhocError E
  unknown_session untrusted_credential no_connection_identifier_available : EdhocError E
  peer : EdhocErrorMessage → EdhocError E

module _ (decoder : CborDecoder) where
  open decoder use {i8, any_as_encoded, str, utf8}

  abbrev finished : Bytes → EdhocErrorMessage → Option EdhocErrorMessage
  finished [] m = some m
  finished (b ∷ bs) m = none

  unfoldable pub decode : Status → Bytes → Option EdhocErrorMessage
  decode status payload = do
    (code, rest) ← i8 payload
    (info, left) ← any_as_encoded rest
    finished left (record { status = status; err_code = code; err_info = info })

  abbrev text_of : Option (Bytes × Bytes) → Option Bytes
  text_of none = none
  text_of (some (text, rest)) = if utf8 text then some text else none

  unfoldable pub diagnostic : EdhocErrorMessage → Option Bytes
  diagnostic m = if m.err_code == unspecified_code then text_of (str m.err_info) else none

-- `is_char_boundary` for an index in the text or at its end: no continuation byte stands there.
unfoldable pub is_char_boundary : ℕ → Bytes → Bool
is_char_boundary zero text = true
is_char_boundary (suc n) [] = false
is_char_boundary (suc zero) (b ∷ []) = true
is_char_boundary (suc zero) (b ∷ c ∷ text) = ltb c 0x80 || leb 0xc0 c
is_char_boundary (suc (suc n)) (b ∷ text) = is_char_boundary (suc n) text

-- The loop that steps back to a boundary.
unfoldable pub boundary_below : ℕ → Bytes → ℕ
unfolding is_char_boundary
boundary_below zero text = 0
boundary_below (suc n) text =
    let rest = boundary_below n text in if is_char_boundary (suc n) text then suc n else rest

-- The head of a CBOR text string of fewer than 256 bytes.
unfoldable pub text_head : ℕ → Bytes
text_head len = if ltb len 24 then bit_or 0x60 len ∷ [] else 0x78 ∷ len ∷ []

unfoldable pub unspecified_error : Bytes → Bytes
unfolding boundary_below text_head
unspecified_error text =
    let len = boundary_below (min (length text) 255) text in
    unspecified_code ∷ (text_head len ++ take len text)

-- What the messages take from `lakers` and `coap_lite`: how an error, a status and a code print, and
-- which error is that of an unsupported cipher suite.
pub record Printer (E : Type 0) : Type 0 where
  pub debug_error : E → Bytes
  pub debug_status : Status → Bytes
  pub decimal : ℕ → Bytes
  pub is_unsupported_suite : E → Bool

module _ {E : Type 0} (decoder : CborDecoder) (printer : Printer E) where
  open printer use {debug_error, debug_status, decimal, is_unsupported_suite}

  -- `Display`
  unfoldable pub render : EdhocError E → Bytes
  unfolding diagnostic
  render (protocol e) = ascii "EDHOC error: " ++ debug_error e
  render (io text) = text
  render (unexpected_response status) = ascii "Unexpected response " ++ debug_status status
  render (malformed what) = ascii "Malformed `" ++ (what ++ ascii "`")
  render unknown_session = ascii "No pending session for this connection identifier"
  render untrusted_credential = ascii "Untrusted peer credential"
  render no_connection_identifier_available = ascii "No connection identifier available"
  render (peer m) = elim (diagnostic decoder m) [
    | some text ↦ ascii "Peer reported EDHOC error: " ++ text
    | none ↦ ascii "Peer reported EDHOC error code " ++ decimal m.err_code
  ]

  abbrev rejected : EdhocError E → Status × Bytes
  unfolding unspecified_error render
  rejected e = (Status.bad_request, unspecified_error (render e))

  abbrev broken : EdhocError E → Status × Bytes
  unfolding unspecified_error render
  broken e = (Status.internal_server_error, unspecified_error (render e))

  unfoldable pub to_error_message : EdhocError E → Status × Bytes
  unfolding rejected broken
  to_error_message (protocol e) =
      if is_unsupported_suite e
      then (Status.bad_request, wrong_selected_cipher_suite ∷ 0x02 ∷ [])
      else rejected (protocol e)
  to_error_message untrusted_credential =
      (Status.bad_request, unknown_credential_referenced ∷ 0xf5 ∷ [])
  to_error_message (malformed what) = rejected (malformed what)
  to_error_message unknown_session = rejected unknown_session
  to_error_message (io text) = broken (io text)
  to_error_message (unexpected_response status) = broken (unexpected_response status)
  to_error_message no_connection_identifier_available = broken no_connection_identifier_available
  to_error_message (peer m) = broken (peer m)

  abbrev pub is_changed : Status → Bool
  is_changed Status.changed = true
  is_changed _ = false

  abbrev refused : Status → Bool → Option EdhocErrorMessage → EdhocError E
  refused status true (some m) = peer m
  refused status _ _ = unexpected_response status

  -- `is_edhoc` is whether the response's first Content-Format option decodes to 64.
  unfoldable pub expect_changed : Status → Bool → Bytes → Result (EdhocError E) (Unit {0})
  unfolding decode
  expect_changed status is_edhoc payload =
      if is_changed status
      then ok tt
      else err (refused status is_edhoc (decode decoder status payload))
