-- ===== src/Server/Runs/Soundness.antt =====
-- src/server.rs: a server that runs does not panic, and answers no more than it is asked.
use coap_rs.Common.{ℕ, ◌+◌, ◌≤◌, ◌≡◌, ◌≢◌, true, Option, none, some, Bytes, length}
use coap_rs.Coap.{Request, Endpoint, Block}
use coap_rs.Observer.Keys.{IsPlain}
use coap_rs.Observer.Invariant.{IsConsistent}
use coap_rs.Server.{BlockHandler, Intercept, intercept_request}
use coap_rs.Server.Runs.{Server}

module _ (net : Endpoint) (blocks : BlockHandler net)
    (from_bytes : Bytes → net.Addr → Option (Request net.Addr)) (start : blocks.State) where
  open net use {Addr, display, block_new, block_size}

  module _ (plain : (a : Addr) → IsPlain (display a))
      (sized : (b : Block) → block_new 0 true (block_size b) ≢ none)
      (sourced : (bytes : Bytes) (a : Addr) (r : Request Addr)
        → from_bytes bytes a ≡ some r
        → r.source ≡ some a)
      (keeps : (r : Request Addr) (s : blocks.State)
        → (blocks.intercept_request r s).1.0.source ≡ r.source) where
    -- An intercepted request leaves a consistent observer.
    abbrev Intercepts : Option (Intercept net blocks) → Type 0
    Intercepts m = (r : Intercept net blocks) × (m ≡ some r) × IsConsistent net r.state.observer

    -- The observer's maps agree, and no more responses are sent or prepared than datagrams have come.
    record IsSound (n : ℕ) (w : Server net blocks) : Type 0 where
      consistent : IsConsistent net w.coap_state.observer
      counted : length w.responses + length w.tasks ≤ n
