-- ===== src/Client/Download.antt =====
-- src/client.rs: `handle_blockwise` and the two loops that fetch the blocks of a response.
pub mod Reassembly
pub mod Order
use coap_rs.Common.{
  ℕ, ◌+◌, ◌*◌, Bool, true, false, not, Option, none, some, List, [], ◌∷◌, ◌==◌, if◌then◌else◌,
  increment, Bytes, bytes_same, ite,
}
use coap_rs.Coap.{Block}
use coap_rs.Client.{
  Message, Codec, Outcome, ok, err, panicked, ErrorKind, first, get_block2_option, next_id,
}

pub record BlockState : Type 0 where
  pub cached_payload : Option Bytes
  pub expected_block_num : Option ℕ

abbrev pub empty_state : BlockState
empty_state = record { cached_payload = none; expected_block_num = none }

-- A request with its response and the state of the transfer.
pub record Exchange : Type 0 where
  pub request : Message
  pub response : Message
  pub state : BlockState

-- `Ok(true)` is `more`, `Ok(false)` is `done` and `Err` is `failed`.
pub data Handling : Type 0 where
  more done : Exchange → Handling
  failed overflow : Handling

-- `if let Some(expected) = state.expected_block_num { if block2.num != expected { … } }`
abbrev pub is_unexpected : Option ℕ → ℕ → Bool
is_unexpected none num = false
is_unexpected (some expected) num = not (num == expected)

abbrev pub cached : BlockState → Bytes
cached state = elim state.cached_payload [ none ↦ [] | some payload ↦ payload ]

abbrev pub reserve : ℕ
reserve = 16384

module _ (codec : Codec) where
  open codec use {block_size, splice, checked}

  -- The request for the block after `b`.
  pub request_next : Block → Bytes → Exchange → Handling
  request_next b payload x = elim (increment checked 16 b.num) [
    | none ↦ overflow
    | some next ↦ more (record x {
      request = record x.request {
        block1 = [];
        block2 = some (record b { num = next; more = false }) ∷ [];
      };
      state = record { cached_payload = some payload; expected_block_num = some next };
    })
  ]

  unfoldable pub finish : Bytes → Exchange → Handling
  finish payload x = done (record x {
    response = record x.response { payload = payload };
    state = record x.state { cached_payload = none };
  })

  unfoldable pub handle_block : Block → Exchange → Handling
  unfolding request_next finish
  handle_block b x =
      if is_unexpected x.state.expected_block_num b.num
      then failed
      else (let offset = b.num * block_size b in
          elim (splice (cached x.state) offset (offset + block_size b) x.response.payload reserve) [
            | none ↦ failed
            | some payload ↦ if b.more then request_next b payload x else finish payload x
          ])

  unfoldable pub handle_blockwise : Exchange → Handling
  unfolding handle_block get_block2_option
  handle_blockwise x = elim (get_block2_option x.response) [
    | none ↦ done x
    | some b ↦ handle_block b x
  ]

  -- The response that `send_single_request` brings is an argument: the next of the transport's answers,
  -- `none` where the transport fails. An exhausted list is a failing transport.
  unfoldable pub receive : List (Option Message) → ℕ → Exchange → Outcome
  unfolding handle_blockwise
  receive [] counter x = elim (handle_blockwise x) [
    | failed ↦ err ErrorKind.interrupted
    | overflow ↦ panicked
    | done x' ↦ ok x'.response
    | more x' ↦ err ErrorKind.transport
  ]
  receive (none ∷ answers) counter x = elim (handle_blockwise x) [
    | failed ↦ err ErrorKind.interrupted
    | overflow ↦ panicked
    | done x' ↦ ok x'.response
    | more x' ↦ err ErrorKind.transport
  ]
  receive (some answer ∷ answers) counter x = elim (handle_blockwise x) [
    | failed ↦ err ErrorKind.interrupted
    | overflow ↦ panicked
    | done x' ↦ ok x'.response
    | more x' ↦
        receive answers (next_id counter)
          (record x' { request = record x'.request { message_id = counter }; response = answer })
  ]

  -- Whether the first tag of a message is the expected one.
  abbrev pub etag_matches : Option Bytes → Message → Bool
  etag_matches none m = true
  etag_matches (some expected) m = elim (first m.etag) [
    | none ↦ false
    | some tag ↦ ite (bytes_same tag expected) true false
  ]

  unfoldable pub receive_with_etag_validation :
      Option Bytes → List (Option Message) → ℕ → Exchange → Outcome
  unfolding handle_blockwise
  receive_with_etag_validation expected [] counter x =
      if not (etag_matches expected x.response)
      then err ErrorKind.invalid_data
      else (elim (handle_blockwise x) [
        | failed ↦ err ErrorKind.interrupted
        | overflow ↦ panicked
        | done x' ↦ ok x'.response
        | more x' ↦ err ErrorKind.transport
      ])
  receive_with_etag_validation expected (none ∷ answers) counter x =
      if not (etag_matches expected x.response)
      then err ErrorKind.invalid_data
      else (elim (handle_blockwise x) [
        | failed ↦ err ErrorKind.interrupted
        | overflow ↦ panicked
        | done x' ↦ ok x'.response
        | more x' ↦ err ErrorKind.transport
      ])
  receive_with_etag_validation expected (some answer ∷ answers) counter x =
      if not (etag_matches expected x.response)
      then err ErrorKind.invalid_data
      else (elim (handle_blockwise x) [
        | failed ↦ err ErrorKind.interrupted
        | overflow ↦ panicked
        | done x' ↦ ok x'.response
        | more x' ↦
            receive_with_etag_validation expected answers (next_id counter) (record x' {
              request = record x'.request { message_id = counter };
              response = answer;
            })
      ])
