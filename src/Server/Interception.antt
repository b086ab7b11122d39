-- ===== src/Server/Interception.antt =====
-- src/server.rs: which requests reach the application's handler, and what an observer that fetches
-- the rest of a notification is answered.
use coap_rs.Common.{
  ◌≡◌, refl, true, false, none, some, [], ◌∷◌, bytes_key, lookup, length, arith, Option-cases, inl,
  inr, ◌⊎◌, Bool-cases, ap, ◌∙◌,
}
use coap_rs.Coap.{Packet, Request, Responder, Endpoint}
use coap_rs.Observer.{
  ResourceItem, is_observing, get_resource_payload_and_etag, format_register_resource,
}
use coap_rs.Observer.Encode.{encode_coap_uint}
use coap_rs.Observer.Keys.{IsPlain}
use coap_rs.Observer.Views.{path_of_at, listed_at-inv}
use coap_rs.Observer.Invariant.{IsConsistent}
use coap_rs.Observer.Removal.{found-resource}
use coap_rs.Observer.Handler.{request_handler, Handled}
use coap_rs.Server.{
  BlockHandler, ServerCoapState, Intercept, Intercepted, ok, error, intercept_request, after_blocks,
  prepared, is_block_fetch_for_observer, answer_fetch, describe_fetch,
}

module _ (net : Endpoint) (blocks : BlockHandler net) where
  open net use {Addr, display}

  -- What a forwarded request has passed, after the block handler's answer to it.
  abbrev Passed :
      Intercepted blocks.HandlingError
      → Request Addr
      → Responder Addr
      → ServerCoapState net blocks
      → Intercept net blocks
      → Type 0
  Passed answer request responder s r =
      (answer ≡ ok false)
      × (r.state.block_handler ≡ s.block_handler)
      × (((s.disable_observe ≡ true) × (r.state.observer ≡ s.observer) × (r.request ≡ request))
          ⊎ ((h : Handled net) × (request_handler net request responder s.observer ≡ some h)
              × (h.forward ≡ true)
              × (r.state.observer ≡ h.observer)
              × (r.request ≡ h.request)))

  after_blocks-Passed :
      (answer : Intercepted blocks.HandlingError) (request : Request Addr)
      (responder : Responder Addr) (s : ServerCoapState net blocks) (r : Intercept net blocks)
      → after_blocks net blocks answer request responder s ≡ some r
      → r.forward ≡ true
      → Passed answer request responder s r
  unfolding after_blocks
  after_blocks-Passed (ok true) request responder s r e f = absurd (ground arith)
  after_blocks-Passed (error x) request responder s r e f = absurd (ground arith)
  after_blocks-Passed (ok false) request responder s r e f = elim (Bool-cases s.disable_observe) [
    | inl bypass ↦ (refl, ground arith, inl (bypass, ground arith, ground arith))
    | inr active ↦ elim (Option-cases (request_handler net request responder s.observer)) [
      | inl none_left ↦ absurd (ground arith)
      | inr (h, handled) ↦
          (refl, ground arith, inr (h, handled, ground arith, ground arith, ground arith))
    ]
  ]

  -- Where a request is forwarded to the application, the block handler has not answered it, and
  -- either the observer is bypassed and not touched, or the observer's handler lets it pass.
  pub intercept_request-forward :
      (request : Request Addr) (responder : Responder Addr) (s : ServerCoapState net blocks)
      (r : Intercept net blocks)
      → intercept_request net blocks request responder s ≡ some r
      → r.forward ≡ true
      → (let (answer, (request', left)) = blocks.intercept_request request s.block_handler in
          Passed answer request' responder (record s { block_handler = left }) r)
  unfolding intercept_request
  intercept_request-forward request responder s r e f =
      let (answer, (request', left)) = blocks.intercept_request request s.block_handler in
      after_blocks-Passed answer request' responder (record s { block_handler = left }) r e f

  -- An address that observes a path observes a resource, so where it fetches a block of it without
  -- the Observe option, the block handler is given the stored payload with the stored tag and size,
  -- each option once, whatever the application has answered.
  pub intercept_response-fetch :
      (plain : (a : Addr) → IsPlain (display a)) (s : ServerCoapState net blocks)
      → IsConsistent net s.observer
      → (request : Request Addr) (addr : Addr) (packet : Packet) → request.source ≡ some addr
      → request.observe ≡ none
      → request.response ≡ some packet
      → is_observing net s.observer addr request.path ≡ true
      → (resource : ResourceItem) × (lookup request.path s.observer.resources ≡ some resource)
        × (prepared net blocks true request s ≡ record request {
          response = some (record packet {
            payload = resource.payload;
            etag = resource.etag ∷ [];
            size2 = encode_coap_uint (length resource.payload) ∷ [];
          });
        })
  unfolding prepared is_block_fetch_for_observer answer_fetch describe_fetch is_observing
      get_resource_payload_and_etag
  intercept_response-fetch plain s c request addr packet from bare answer watching =
      let key = format_register_resource net addr request.path in
      elim (Option-cases (lookup key s.observer.register_resources)) [
        | inl e ↦ absurd (ground arith)
        | inr (item, e) ↦
            let same = found-resource net plain c addr request.path [] item e in
            let on =
              path_of_at net key item s.observer.register_resources e ∙ ap (λ q. some q) same in
            let (resource, there, _) =
              listed_at-inv request.path key s.observer.resources
                ((c.listed key request.path).0 on) in
            (resource, there, ground arith)
      ]
