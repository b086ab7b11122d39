-- ===== src/Server/Runs.antt =====
-- src/server.rs: the loop of `run`. A datagram is intercepted as it arrives; the handler of a request
-- that is forwarded runs as a task of its own, so tasks end in any order and between datagrams.
pub mod Soundness
use coap_rs.Common.{
  ℕ, zero, suc, ◌+◌, ◌≤◌, ◌≡◌, refl, ◌≢◌, Bool, true, false, Option, none, some, List, [], ◌∷◌,
  ◌++◌, Bytes, length, arith, Option-cases, inl, inr, Bool-cases, length-append, if◌then◌else◌,
  ◌>>=◌, ap, ◌∙◌, sym,
}
use coap_rs.Coap.{Request, Responder, Endpoint, Block}
use coap_rs.Observer.{Observer}
use coap_rs.Observer.Keys.{IsPlain}
use coap_rs.Observer.Invariant.{IsConsistent}
use coap_rs.Observer.Behaviour.{new-IsConsistent}
use coap_rs.Observer.Handler.Safety.{HasRoom, request_handler-Answers}
use coap_rs.Server.{
  BlockHandler, ServerCoapState, Intercept, Intercepted, ok, error, intercept_request, after_blocks,
  intercept_response, respond_to_request,
}

module _ (net : Endpoint) (blocks : BlockHandler net) where
  open net use {Addr, display, block_new, block_size}

  -- A server that runs: the state behind the lock, the tasks of the requests that the handler has,
  -- and the datagrams that the responders were given.
  pub record Server : Type 0 where
    pub coap_state : ServerCoapState net blocks
    pub tasks : List (Request Addr × Responder Addr)
    pub responses : List (Responder Addr × Bytes)

  -- `from_listeners`, given the state that a block handler starts with.
  unfoldable pub from_listeners : blocks.State → Server
  from_listeners start = record {
    coap_state = record {
      observer = coap_rs.Observer.new;
      block_handler = start;
      disable_observe = false;
    };
    tasks = [];
    responses = [];
  }

  abbrev pub responded :
      Responder Addr → Option Bytes → List (Responder Addr × Bytes) → List (Responder Addr × Bytes)
  responded respond none sent = sent
  responded respond (some bytes) sent = sent ++ (respond, bytes) ∷ []

  -- What the loop does with what `intercept_request` leaves.
  abbrev pub proceed : Responder Addr → Intercept net blocks → Server → Server
  proceed respond r w =
      let spawned = record w {
        coap_state = r.state;
        tasks = w.tasks ++ (r.request, respond) ∷ [];
      } in
      let answered = record w {
        coap_state = r.state;
        responses = responded respond (respond_to_request net blocks r.request) w.responses;
      } in
      if r.forward then spawned else answered

  -- A datagram arrives. `from_bytes` is the codec of packets with the request that is made from one
  -- and the address of its sender; `none` is a panic.
  unfoldable pub receive :
      (Bytes → Addr → Option (Request Addr)) → Bytes → Responder Addr → Server → Option Server
  unfolding intercept_request respond_to_request
  receive from_bytes bytes respond w = elim (from_bytes bytes respond.address) [
    | none ↦ some w
    | some request ↦ do
      r ← intercept_request net blocks request respond w.coap_state
      some (proceed respond r w)
  ]

  -- A task ends: the handler has made `request` of the request that it was given.
  unfoldable pub end_task :
      Bool → Request Addr → Responder Addr → List (Request Addr × Responder Addr) → Server → Server
  unfolding intercept_response respond_to_request
  end_task has_block2 request respond others w =
      let (state, request') = intercept_response net blocks has_block2 request w.coap_state in
      record {
        coap_state = state;
        tasks = others;
        responses = responded respond (respond_to_request net blocks request') w.responses;
      }

  -- The counters of the observer have room for the request of a datagram, as the block handler
  -- leaves it.
  abbrev pub Fits :
      (Bytes → Addr → Option (Request Addr)) → Bytes → Responder Addr → Server → Type 0
  Fits from_bytes bytes respond w =
      (request : Request Addr)
      → from_bytes bytes respond.address ≡ some request
      → HasRoom net (blocks.intercept_request request w.coap_state.block_handler).1.0
          w.coap_state.observer

  module _ (from_bytes : Bytes → Addr → Option (Request Addr)) (start : blocks.State) where
    -- The states that a new server comes to, with the number of datagrams that have arrived.
    pub data Reach : ℕ → Server → Type 0 where
      starts : Reach 0 (from_listeners start)
      receives :
          {n : ℕ} {w : Server} (bytes : Bytes) (respond : Responder Addr) (v : Server)
          → Reach n w
          → Fits from_bytes bytes respond w
          → receive from_bytes bytes respond w ≡ some v
          → Reach (suc n) v
      ends :
          {n : ℕ} {w : Server} (before after : List (Request Addr × Responder Addr))
          (request handled : Request Addr) (respond : Responder Addr) (has_block2 : Bool)
          → Reach n w
          → w.tasks ≡ before ++ (request, respond) ∷ after
          → Reach n (end_task has_block2 handled respond (before ++ after) w)
