-- ===== src/Edhoc/Initiator.antt =====
-- src/edhoc/mod.rs: `edhoc_initiate`.
pub mod Serving
pub mod Handshake
use coap_rs.Common.{
  ℕ, Bool, Option, none, some, List, [], ◌∷◌, ◌++◌, Bytes, ascii, take, if◌then◌else◌,
}
use coap_rs.Common.Results.{Result, ok, err, ◌>>=◌, map_err}
use coap_rs.Coap.{Status}
use coap_rs.Edhoc.{EdhocError, CborDecoder, Printer, protocol, io, malformed, expect_changed}
use coap_rs.Edhoc.Responder.{Lakers, EdhocIdentity, OscoreSecrets}

-- The response to a request: its status, whether its content format is EDHOC's, and its payload.
pub record Response : Type 0 where
  pub status : Status
  pub is_edhoc : Bool
  pub payload : Bytes

module _ (lakers : Lakers) where
  open lakers use {
    Error, ConnId, Credential, Key, IdCred, as_slice, as_cbor, fits, credential_check_or_fetch,
  }

  -- The states of the Initiator's protocol in `lakers` and the steps between them.
  pub record InitiatorLakers : Type 1 where
    pub WaitM2 : Type 0
    pub ProcessingM2 : Type 0
    pub ProcessedM2 : Type 0
    pub WaitM4 : Type 0
    pub Done : Type 0
    pub prepare_message_1 : ℕ → ConnId → Result Error (WaitM2 × Bytes)
    pub parse_message_2 : WaitM2 → Bytes → Result Error (ProcessingM2 × (ConnId × IdCred))
    pub set_identity : ProcessingM2 → Key → Credential → Result Error ProcessingM2
    pub verify_message_2 : ProcessingM2 → Credential → Result Error ProcessedM2
    pub prepare_message_3 : ProcessedM2 → Result Error (WaitM4 × (Bytes × Bytes))
    pub process_message_4 : WaitM4 → Bytes → Result Error Done
    pub exporter : Done → ℕ → ℕ → Bytes

  module _ (steps : InitiatorLakers) (decoder : CborDecoder) (printer : Printer Error) where
    open steps use {
      WaitM2, WaitM4, prepare_message_1, parse_message_2, set_identity, verify_message_2,
      prepare_message_3, process_message_4, exporter,
    }

    abbrev pub buffer : Bytes → Bytes → Result (EdhocError Error) Bytes
    buffer what payload = if fits payload then ok payload else err (malformed what)

    abbrev pub protocol_error : {A : Type 0} → Result Error A → Result (EdhocError Error) A
    protocol_error r = map_err protocol r

    -- The payload of a response that succeeded.
    unfoldable pub receive : Bytes → Result Bytes Response → Result (EdhocError Error) Bytes
    unfolding expect_changed
    receive what sent = do
      response ← map_err io sent
      _ ← expect_changed decoder printer response.status response.is_edhoc response.payload
      buffer what response.payload

    -- From `message_2` to `message_3`, with the Responder's identifier and `PRK_out`.
    unfoldable pub answer_message_2 :
        EdhocIdentity lakers
        → Option Credential
        → WaitM2
        → Bytes
        → Result (EdhocError Error) (ConnId × (WaitM4 × (Bytes × Bytes)))
    answer_message_2 own peer_credential initiator message_2 = do
      (processing, (c_r, id_cred_r)) ← protocol_error (parse_message_2 initiator message_2)
      credential ← protocol_error (credential_check_or_fetch peer_credential id_cred_r)
      identified ← protocol_error (set_identity processing own.private_key own.credential)
      processed ← protocol_error (verify_message_2 identified credential)
      prepared ← protocol_error (prepare_message_3 processed)
      ok (c_r, prepared)

    -- `first` and `second` are the responses to the two requests, as functions of their payloads; an
    -- I/O error is held as it prints. `c_i` is the identifier that was generated.
    unfoldable pub edhoc_initiate :
        ℕ
        → ConnId
        → EdhocIdentity lakers
        → Option Credential
        → (Bytes → Result Bytes Response)
        → (Bytes → Result Bytes Response)
        → Result (EdhocError Error) OscoreSecrets
    unfolding receive answer_message_2
    edhoc_initiate seed c_i own peer_credential first second = do
      (initiator, message_1) ← protocol_error (prepare_message_1 seed c_i)
      message_2 ← receive (ascii "message_2") (first (0xf5 ∷ message_1))
      (c_r, (waiting, (message_3, prk_out))) ←
          answer_message_2 own peer_credential initiator message_2
      message_4 ← receive (ascii "message_4") (second (as_cbor c_r ++ message_3))
      done ← protocol_error (process_message_4 waiting message_4)
      ok (record {
        master_secret = take 16 (exporter done 0 16);
        master_salt = take 8 (exporter done 1 8);
        sender_id = as_slice c_r;
        recipient_id = as_slice c_i;
        prk_out = prk_out;
      })
