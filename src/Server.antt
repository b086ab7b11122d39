-- ===== src/Server.antt =====
-- src/server.rs: the server's state and what it does with a request before and after the handler.
pub mod Interception
pub mod Runs
pub mod Multicast
pub mod Listening
use coap_rs.Common.{
  ℕ, Bool, true, false, not, ◌&&◌, Option, none, some, List, [], ◌∷◌, ◌++◌, if◌then◌else◌, ◌>>=◌,
  Bytes, length,
}
use coap_rs.Coap.{Packet, Request, Responder, Endpoint}
use coap_rs.Observer.{Observer, is_observing, get_resource_payload_and_etag}
use coap_rs.Observer.Encode.{encode_coap_uint}
use coap_rs.Observer.Handler.{request_handler, Handled}

-- `Ok` of whether the block handler has answered the request itself, or `Err`.
pub data Intercepted (E : Type 0) : Type 0 where
  ok : Bool → Intercepted E
  error : E → Intercepted E

module _ (net : Endpoint) where
  open net use {Addr, to_bytes}

  -- What the server takes from `coap_lite`: its handler of blockwise transfers, with its state, and
  -- the answer that is made from an error of it.
  pub record BlockHandler : Type 1 where
    pub State : Type 0
    pub HandlingError : Type 0
    pub intercept_request :
        Request Addr → State → Intercepted HandlingError × (Request Addr × State)
    pub intercept_response :
        Request Addr → State → Intercepted HandlingError × (Request Addr × State)
    pub apply_from_error : HandlingError → Request Addr → Request Addr

  module _ (blocks : BlockHandler) where
    pub record ServerCoapState : Type 0 where
      pub observer : Observer Addr
      pub block_handler : blocks.State
      pub disable_observe : Bool

    -- `ShouldForwardToHandler` with the state and the request as they are left.
    pub record Intercept : Type 0 where
      pub state : ServerCoapState
      pub request : Request Addr
      pub forward : Bool

    pub disable_observe_handling : Bool → ServerCoapState → ServerCoapState
    disable_observe_handling value s = record s { disable_observe = value }

    abbrev finish : ServerCoapState → Option (Handled net) → Option Intercept
    finish s handled = do
      h ← handled
      some (record {
        state = record s { observer = h.observer };
        request = h.request;
        forward = h.forward;
      })

    -- What follows the block handler's answer.
    unfoldable pub after_blocks :
        Intercepted blocks.HandlingError
        → Request Addr
        → Responder Addr
        → ServerCoapState
        → Option Intercept
    after_blocks (ok true) request responder s =
        some (record { state = s; request = request; forward = false })
    after_blocks (error e) request responder s =
        some (record { state = s; request = request; forward = false })
    after_blocks (ok false) request responder s =
        let handled = finish s (request_handler net request responder s.observer) in
        if s.disable_observe
        then some (record { state = s; request = request; forward = true })
        else handled

    unfoldable pub intercept_request :
        Request Addr → Responder Addr → ServerCoapState → Option Intercept
    unfolding after_blocks
    intercept_request request responder s =
        let (answer, (request', blocks')) = blocks.intercept_request request s.block_handler in
        after_blocks answer request' responder (record s { block_handler = blocks' })

    -- `clear_option` empties the list of values and `add_option` appends to it.
    pub describe_fetch : Bytes → Bytes → Packet → Packet
    describe_fetch payload etag packet = record packet {
      payload = payload;
      etag = [] ++ etag ∷ [];
      size2 = [] ++ encode_coap_uint (length payload) ∷ [];
    }

    pub answer_fetch : Option (Bytes × Bytes) → Request Addr → Request Addr
    unfolding describe_fetch
    answer_fetch none request = request
    answer_fetch (some (payload, etag)) request = elim request.response [
      | none ↦ request
      | some packet ↦ record request { response = some (describe_fetch payload etag packet) }
    ]

    abbrev pub is_absent : {A : Type 0} → Option A → Bool
    is_absent none = true
    is_absent (some a) = false

    abbrev observed_by : Observer Addr → Bytes → Option Addr → Bool
    observed_by s path none = false
    observed_by s path (some addr) = is_observing net s addr path

    -- `has_block2` is whether the request carries the option, also where it does not decode.
    pub is_block_fetch_for_observer : Bool → Request Addr → Observer Addr → Bool
    is_block_fetch_for_observer has_block2 request s =
        has_block2 && (is_absent request.observe && observed_by s request.path request.source)

    -- The request that the block handler is given after the application's handler.
    pub prepared : Bool → Request Addr → ServerCoapState → Request Addr
    unfolding is_block_fetch_for_observer answer_fetch
    prepared has_block2 request s =
        if is_block_fetch_for_observer has_block2 request s.observer
        then answer_fetch (get_resource_payload_and_etag net s.observer request.path) request
        else request

    pub apply_error : Intercepted blocks.HandlingError → Request Addr → Request Addr
    apply_error (ok _) request = request
    apply_error (error e) request = blocks.apply_from_error e request

    unfoldable pub intercept_response :
        Bool → Request Addr → ServerCoapState → ServerCoapState × Request Addr
    unfolding prepared apply_error
    intercept_response has_block2 request s =
        let (answer, (request', blocks')) =
          blocks.intercept_response (prepared has_block2 request s) s.block_handler in
        (record s { block_handler = blocks' }, apply_error answer request')

    -- The bytes that the responder is given, if any.
    unfoldable pub respond_to_request : Request Addr → Option Bytes
    respond_to_request request = do packet ← request.response; to_bytes packet
