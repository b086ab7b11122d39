-- ===== src/Observer/Handler/Retransmission.antt =====
-- src/observer.rs: what a notification carries, and the number under which a pending one is sent
-- again.
use coap_rs.Common.{
  ℕ, ◌<◌, ◌≡◌, refl, ◌≢◌, true, Option, none, some, List, [], ◌∷◌, ◌++◌, Bytes, nat_key, bytes_key,
  lookup, arith, Option-cases, inl, inr, ltb, ◌⊎◌, length, drop, take-append-drop,
  length-take_of_le, Bool-cases, ◌∙◌, ap, sym, false,
}
use coap_rs.Coap.{Endpoint, Packet, Block, MessageType, MessageClass, Status}
use coap_rs.Observer.{
  ResourceItem, RegisterResourceItem, Observer, remove_unacknowledge_message,
  try_unacknowledge_message, count_try, default_try_times, UnacknowledgeMessageItem,
}
use coap_rs.Observer.Encode.{encode_coap_uint}
use coap_rs.Observer.Views.{owner-inv, pending_of_at, path_of_at, listed_at-inv}
use coap_rs.Observer.Invariant.{IsConsistent, count_try-IsConsistent}
use coap_rs.Observer.Handler.{
  first_block, describe, notification, retry, notify_register_with_newest_resource, respond,
}
use coap_rs.Observer.Handler.Notices.{has_some, notification-total, resend-IsConsistent}

module _ (net : Endpoint) where
  open net use {Addr, new_packet, block_new, to_bytes}

  -- A first message holds the whole payload and no block option, or just the first block of a longer
  -- payload with the option that says so.
  pub first_block_lem :
      (preferred : Option ℕ) (payload : Bytes) (blocks : List Block) (start : Bytes)
      → first_block net preferred payload ≡ some (blocks, start)
      → ((blocks ≡ []) × (start ≡ payload))
        ⊎ ((size : ℕ) × (b : Block) × (preferred ≡ some size)
            × (block_new 0 true size ≡ some b)
            × (blocks ≡ b ∷ [])
            × (size < length payload)
            × (length start ≡ size)
            × (start ++ drop size payload ≡ payload))
  unfolding first_block
  first_block_lem none payload blocks start e = inl (cc, cc)
  first_block_lem (some size) payload blocks start e =
      elim (Bool-cases (ltb size (length payload))) [
        | inr short ↦ inl (ground arith, ground arith)
        | inl long ↦ elim (Option-cases (block_new 0 true size)) [
          | inl bad ↦ absurd (ground arith)
          | inr (b, good) ↦ inr (
            size,
            b,
            refl,
            good,
            ground arith,
            ground arith,
            ground (arith, length-take_of_le size payload),
            ground (arith, take-append-drop size payload),
          )
        ]
      ]

  -- A notification is confirmable, has the number that it is given and the registration's token, and
  -- tells the resource's sequence number, tag and size.
  pub notification-fields :
      (id : ℕ) (item : RegisterResourceItem Addr) (resource : ResourceItem) (m : Packet)
      → notification net id item resource ≡ some m
      → (m.kind ≡ MessageType.confirmable)
        × (m.code ≡ MessageClass.response Status.content)
        × (m.message_id ≡ id)
        × (m.token ≡ item.token)
        × (m.observe ≡ some resource.sequence)
        × (m.etag ≡ new_packet.etag ++ resource.etag ∷ [])
        × (m.size2 ≡ new_packet.size2 ++ encode_coap_uint (length resource.payload) ∷ [])
  unfolding notification describe
  notification-fields id item resource m e = ground arith

  -- An acknowledgement with a token that is not the waiting registration's changes nothing.
  unsettled :
      {s : Observer Addr} (c : IsConsistent net s) (id : ℕ) (token other : Bytes)
      (late : RegisterResourceItem Addr)
      → lookup other s.register_resources ≡ some late
      → late.unacknowledge_message ≡ some id
      → late.token ≢ token
      → remove_unacknowledge_message net id token s ≡ some s
  unfolding remove_unacknowledge_message
  unsettled {s} c id token other late there waits differ =
      let owned =
        (c.awaited other id).0 (pending_of_at net other late s.register_resources there ∙ waits) in
      let (message, listed, same) = owner-inv id other s.unacknowledge_messages owned in
      ground arith

  -- Two registrations that wait for one number are the same.
  one_owner :
      {s : Observer Addr} (c : IsConsistent net s) (id : ℕ) (key other : Bytes)
      (item late : RegisterResourceItem Addr)
      → lookup key s.register_resources ≡ some item
      → item.unacknowledge_message ≡ some id
      → lookup other s.register_resources ≡ some late
      → late.unacknowledge_message ≡ some id
      → item ≡ late
  one_owner {s} c id key other item late found pending there waits =
      let mine =
        (c.awaited key id).0 (pending_of_at net key item s.register_resources found ∙ pending) in
      let theirs =
        (c.awaited other id).0 (pending_of_at net other late s.register_resources there ∙ waits) in
      ground (arith, mine, theirs)

  module _ (encodes : (m : Packet) → to_bytes m ≢ none) where
    -- Where a registration waits for a message that has not been tried too often, and another one with
    -- another token waits for the last number given out, a retry sends the first one a notification
    -- with its token under that last number, which is not the one that it waits for. It goes on
    -- waiting for its own number, and its client's acknowledgement of what was sent changes nothing.
    -- The maps agree and every packet can be encoded.
    pub stale_acknowledgement :
        {s : Observer Addr} (c : IsConsistent net s) (key : Bytes)
        (item : RegisterResourceItem Addr) (id : ℕ) (message : UnacknowledgeMessageItem)
        (other : Bytes) (late : RegisterResourceItem Addr)
        → lookup key s.register_resources ≡ some item
        → item.unacknowledge_message ≡ some id
        → lookup id s.unacknowledge_messages ≡ some message
        → ltb default_try_times message.try_times ≡ false
        → lookup other s.register_resources ≡ some late
        → late.unacknowledge_message ≡ some s.current_message_id
        → late.token ≢ item.token
        → (t : Observer Addr) × (m : Packet) × (b : Bytes) × (retry net key s ≡ some t)
          × (t.sent ≡ s.sent ++ (item.registered_responder, b) ∷ [])
          × (to_bytes m ≡ some b)
          × (m.message_id ≡ s.current_message_id)
          × (m.token ≡ item.token)
          × (m.message_id ≢ id)
          × (lookup key t.register_resources ≡ some item)
          × (remove_unacknowledge_message net m.message_id m.token t ≡ some t)
    unfolding retry try_unacknowledge_message count_try notify_register_with_newest_resource respond
    stale_acknowledgement {s} c key item id message other late found pending tried few there waits
          differ =
        let c' = count_try-IsConsistent net c key item found id message tried (ground arith) in
        let (resource, listed, _) =
          listed_at-inv item.resource key s.resources
            ((c.listed key item.resource).0 (path_of_at net key item s.register_resources found)) in
        let (m, built) = has_some net (notification net s.current_message_id item resource) (
          notification-total net s.current_message_id item resource
            (λ size e. c.sized key item size found e)) in
        let (b, coded) = has_some net (to_bytes m) (encodes m) in
        let fields = notification-fields s.current_message_id item resource m built in
        let number = fields.2 in
        let token = fields.3 in
        let sent = s.sent ++ (item.registered_responder, b) ∷ [] in
        let t = record (count_try net id message s) { sent = sent } in
        (
          t,
          m,
          b,
          rw (found, pending, tried, few) (ground (arith, found, listed, built, coded)),
          refl,
          coded,
          number,
          token,
          (λ same.
              let one =
                one_owner c id key other item late found pending there
                  (waits ∙ ap some (sym number ∙ same)) in
              differ (ap (λ (i : RegisterResourceItem Addr). i.token) (sym one))),
          found,
          ap (λ k. remove_unacknowledge_message net k m.token t) number
              ∙ unsettled (resend-IsConsistent net sent c') s.current_message_id m.token other late
                  there waits (λ e. differ (e ∙ token)),
        )
