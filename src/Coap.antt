-- ===== src/Coap.antt =====
-- The messages as the program sees them. `coap_lite` owns the packet type and its codec; the records
-- here hold, one field for each, what the program reads and writes through its accessors.
-- `add_option` appends to an option's list of values, `clear_option` empties it, and
-- `get_first_option_as` reads its first value.
use coap_rs.Common.{ℕ, Bool, Option, List, Bytes}

pub data MessageType : Type 0 where
  confirmable non_confirmable acknowledgement reset : MessageType

-- The request methods that the program names.
pub data Method : Type 0 where
  get post put delete : Method
  other : ℕ → Method

-- The response codes that the program names.
pub data Status : Type 0 where
  content valid changed continue bad_request not_found internal_server_error : Status
  other : ℕ → Status

pub data MessageClass : Type 0 where
  empty : MessageClass
  request : Method → MessageClass
  response : Status → MessageClass
  reserved : ℕ → MessageClass

pub data ObserveOption : Type 0 where
  register deregister : ObserveOption

-- The public fields of `BlockValue`.
pub record Block : Type 0 where
  pub num : ℕ
  pub more : Bool
  pub size_exponent : ℕ

pub record Packet : Type 0 where
  pub kind : MessageType
  pub code : MessageClass
  pub message_id : ℕ
  pub token : Bytes
  pub observe : Option ℕ
  pub etag : List Bytes
  pub size2 : List Bytes
  pub block2 : List Block
  pub payload : Bytes

-- A request with the response prepared for it. `observe` is `none` without the option and
-- `some none` where its value is invalid; `block2` is `none` also where it does not decode.
pub record Request (A : Type 0) : Type 0 where
  pub kind : MessageType
  pub method : Method
  pub observe : Option (Option ObserveOption)
  pub message_id : ℕ
  pub token : Bytes
  pub path : Bytes
  pub block2 : Option Block
  pub payload : Bytes
  pub source : Option A
  pub response : Option Packet

-- `Arc<dyn Responder>`: a sink for bytes with the address that it answers to.
pub record Responder (A : Type 0) : Type 0 where
  pub id : ℕ
  pub address : A

-- What the program takes from `std` and `coap_lite`: socket addresses with their equality and
-- `Display`, the empty packet and the packet codec, the constructor and the size of a block value.
-- `checked` says whether the build has overflow checks.
pub record Endpoint : Type 1 where
  pub Addr : Type 0
  pub same_addr : Discrete Addr
  pub display : Addr → Bytes
  pub new_packet : Packet
  pub to_bytes : Packet → Option Bytes
  pub block_new : ℕ → Bool → ℕ → Option Block
  pub block_size : Block → ℕ
  pub checked : Bool
