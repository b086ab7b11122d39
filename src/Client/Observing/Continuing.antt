-- ===== src/Client/Observing/Continuing.antt =====
-- src/client.rs: what the requests of an observation's continuation do to the registry.
use coap_rs.Common.{
  ℕ, ◌≡◌, refl, ◌≢◌, inl, inr, Bool, Option, none, some, List, [], ◌∷◌, Bytes, bytes_key, lookup,
  set_entry, arith, suc, Option-cases, Bool-cases, lookup-set_entry, lookup-remove,
}
use coap_rs.Coap.{MessageClass}
use coap_rs.Client.{Message, Codec, next_id, first, get_block2_option}
use coap_rs.Client.Download.{Exchange, etag_matches, handle_blockwise, empty_state}
use coap_rs.Client.Download.Order.{Handling-cases}
use coap_rs.Client.Transport.{Failure, Delivery, TransportSynchronizer, set_sender, remove_sender}
use coap_rs.Client.Observing.{
  ObserveRequest, exchange_registry, transfer_registry, fetch_registry, notice_registry,
  registration_registry, continuation,
}

module _ (codec : Codec) (would_block : Failure → Bool) where
  -- The requests of a continuation touch no other token.
  exchange_registry-other :
      (token other : Bytes) (channel : ℕ) (s : TransportSynchronizer)
      → other ≢ token
      → lookup other (exchange_registry token channel s).outgoing ≡ lookup other s.outgoing
  unfolding exchange_registry set_sender remove_sender
  exchange_registry-other token other channel s differs = elim (Option-cases s.fail_error) [
    | inl fine ↦
        let there = lookup-set_entry token other channel s.outgoing in
        let still = lookup-remove token other (set_entry token channel s.outgoing) in
        ground (arith, fine, there, still)
    | inr (e, broken_before) ↦
        let still = lookup-remove token other s.outgoing in ground (arith, broken_before, still)
  ]

  transfer_registry-other :
      (expected : Option Bytes) (token other : Bytes) (channel : ℕ)
      (answers : List (Option Message)) (counter : ℕ) (x : Exchange) (s : TransportSynchronizer)
      → other ≢ token
      → lookup other
          (transfer_registry codec would_block expected token channel answers counter x s).outgoing
        ≡ lookup other s.outgoing
  unfolding transfer_registry
  transfer_registry-other expected token other channel [] counter x s differs =
      ground (arith, exchange_registry-other token other channel s differs)
  transfer_registry-other expected token other channel (none ∷ answers) counter x s differs =
      ground (arith, exchange_registry-other token other channel s differs)
  transfer_registry-other expected token other channel (some answer ∷ answers) counter x s differs =
      let once = exchange_registry-other token other channel s differs in
      elim (Bool-cases (etag_matches codec expected x.response)) [
        | inr bad ↦ ground (arith, bad)
        | inl right ↦ elim (Handling-cases codec (handle_blockwise codec x)) [
          | inl (x', e) ↦
              let later =
                transfer_registry-other expected token other (suc channel) answers (next_id counter)
                  (record x' {
                    request = record x'.request { message_id = counter };
                    response = answer;
                  })
                  (exchange_registry token channel s) differs in
              ground (arith, right, e, once, later)
          | inr (inl (x', e)) ↦ ground (arith, right, e)
          | inr (inr (inl e)) ↦ ground (arith, right, e)
          | inr (inr (inr e)) ↦ ground (arith, right, e)
        ]
      ]

  fetch_registry-other :
      (token other : Bytes) (channel : ℕ) (answers : List (Option Message)) (counter : ℕ)
      (response : Message) (request : Option ObserveRequest) (s : TransportSynchronizer)
      → other ≢ token
      → lookup other
          (fetch_registry codec would_block token channel answers counter response request
            s).outgoing
        ≡ lookup other s.outgoing
  fetch_registry-other token other channel answers counter response none s differs = refl
  fetch_registry-other token other channel answers counter response (some request) s differs =
      transfer_registry-other (first response.etag) token other channel answers (next_id counter)
        (record { request = request.message; response = response; state = empty_state }) s differs

  pub registration_registry-other :
      (is_error : MessageClass → Bool) (token other : Bytes) (channel counter : ℕ)
      (answers : List (Option Message)) (request : ObserveRequest) (sent : Delivery)
      (s : TransportSynchronizer)
      → other ≢ token
      → lookup other
          (registration_registry codec would_block is_error token channel counter answers request
            sent s).outgoing
        ≡ lookup other s.outgoing
  unfolding registration_registry notice_registry
  registration_registry-other is_error token other channel counter answers request
        (Delivery.failed e) s differs =
      ground arith
  registration_registry-other is_error token other channel counter answers request
        (Delivery.packet response) s differs =
      elim (Option-cases (get_block2_option response)) [
        | inl whole ↦ ground (arith, whole)
        | inr (b, part) ↦
            let rest =
              fetch_registry-other token other channel answers counter response
                (continuation codec.checked token counter b request) s differs in
            ground (arith, part, rest)
      ]
