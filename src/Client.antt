-- ===== src/Client.antt =====
-- src/client.rs: the messages of a client, and the parts of its block-wise transfers.
pub mod Download
pub mod Upload
pub mod Transport
pub mod Observing
pub mod Urls
use coap_rs.Common.{ℕ, ◌+◌, ◌%◌, ◌^◌, Bool, false, Option, none, some, List, [], ◌∷◌, Bytes}
use coap_rs.Coap.{MessageType, MessageClass, Block}

-- What the client reads and writes of a message. An option holds the list of its values; a block
-- value is `none` where it does not decode.
pub record Message : Type 0 where
  pub kind : MessageType
  pub code : MessageClass
  pub message_id : ℕ
  pub token : Bytes
  pub block1 : List (Option Block)
  pub block2 : List (Option Block)
  pub etag : List Bytes
  pub payload : Bytes

-- `get_first_option` and `get_option(..).front()`
abbrev pub first {ℓ} : {A : Type ℓ} → List A → Option A
first [] = none
first (x ∷ xs) = some x

-- The kinds of `std::io::Error` that the transfers return; `transport` is an error of sending.
pub data ErrorKind : Type 0 where
  other unsupported invalid_data interrupted transport : ErrorKind

pub data Outcome : Type 0 where
  ok : Message → Outcome
  err : ErrorKind → Outcome
  panicked : Outcome

-- What the client takes from `coap_lite`: the size of a block value and its constructor, and
-- `extending_splice` on a vector, a range, the new items and the limit of the extension. `checked`
-- says whether the build has overflow checks.
pub record Codec : Type 0 where
  pub block_size : Block → ℕ
  pub block_new : ℕ → Bool → ℕ → Option Block
  pub splice : Bytes → ℕ → ℕ → Bytes → ℕ → Option Bytes
  pub checked : Bool

-- `get_block2_option`
unfoldable pub get_block2_option : Message → Option Block
get_block2_option m = elim (first m.block2) [ none ↦ none | some value ↦ value ]

unfoldable pub contains_more_blocks : Message → Bool
unfolding get_block2_option
contains_more_blocks m = elim (get_block2_option m) [ none ↦ false | some b ↦ b.more ]

-- `gen_message_id`: `fetch_add` on an `AtomicU16` wraps around in every build.
abbrev pub next_id : ℕ → ℕ
next_id counter = (counter + 1) % 2 ^ 16
