-- ===== src/Observer/Handler/Notices.antt =====
-- src/observer.rs: one notification and the loop of `resource_changed` over the observers.
use coap_rs.Common.{
  ℕ, ◌+◌, ◌<◌, ◌^◌, ◌≡◌, refl, ◌≢◌, true, Option, none, some, List, [], ◌∷◌, ◌++◌, Bytes, nat_key,
  bytes_key, lookup, length, arith, Option-cases, inl, inr, ap, sym, ◌∙◌,
}
use coap_rs.Coap.{Endpoint, Packet, Responder}
use coap_rs.Observer.{
  ResourceItem, RegisterResourceItem, Observer, await, record_unacknowledge_message,
}
use coap_rs.Observer.Views.{
  owner, path_of, pending_of, listed_at-inv, path_of_at, path_of-insert, path_of-inv,
  pending_of-insert,
}
use coap_rs.Observer.Invariant.{IsConsistent, await-IsConsistent}
use coap_rs.Observer.Handler.{
  first_block, respond, describe, notification, notify_register_with_newest_resource,
  gen_message_id, notify_anew, notify_all,
}

-- `P` at every key.
abbrev pub All : (Bytes → Type 0) → List Bytes → Type 0
All P [] = Unit
All P (key ∷ keys) = P key × All P keys

module _ (net : Endpoint) where
  open net use {Addr, to_bytes, block_new, checked}

  abbrev resend : List (Responder Addr × Bytes) → Observer Addr → Observer Addr
  resend sent s = record s { sent = sent }

  -- The invariant does not read what has been sent.
  pub resend-IsConsistent :
      {s : Observer Addr} (sent : List (Responder Addr × Bytes))
      → IsConsistent net s
      → IsConsistent net (record s { sent = sent })
  resend-IsConsistent sent c = record {
    named = c.named;
    listed = c.listed;
    enrolled = c.enrolled;
    awaited = c.awaited;
    issued = c.issued;
    tried = c.tried;
    sized = c.sized;
    unique = c.unique;
  }

  pub respond-sent :
      (responder : Responder Addr) (packet : Packet) (s : Observer Addr)
      → (sent : List (Responder Addr × Bytes)) × (respond net responder packet s
          ≡ record s { sent = sent })
  unfolding respond
  respond-sent responder packet s = elim (Option-cases (to_bytes packet)) [
    | inl e ↦ (s.sent, ground arith)
    | inr (b, e) ↦ (s.sent ++ (responder, b) ∷ [], ground arith)
  ]

  pub first_block-total :
      (preferred : Option ℕ) (payload : Bytes)
      → ((size : ℕ) → preferred ≡ some size → block_new 0 true size ≢ none)
      → first_block net preferred payload ≢ none
  unfolding first_block
  first_block-total none payload h = cc
  first_block-total (some size) payload h = ground (arith, h size refl)

  pub describe-total :
      (resource : ResourceItem) (preferred : Option ℕ) (packet : Packet)
      → ((size : ℕ) → preferred ≡ some size → block_new 0 true size ≢ none)
      → describe net resource preferred packet ≢ none
  unfolding describe
  describe-total resource preferred packet h =
      ground (arith, first_block-total preferred resource.payload h)

  pub notification-total :
      (id : ℕ) (item : RegisterResourceItem Addr) (resource : ResourceItem)
      → ((size : ℕ) → item.preferred_block_size ≡ some size → block_new 0 true size ≢ none)
      → notification net id item resource ≢ none
  unfolding notification
  notification-total id item resource h =
      ground (arith, first_block-total item.preferred_block_size resource.payload h)

  pub has_some {ℓ} : {A : Type ℓ} (o : Option A) → o ≢ none → (a : A) × (o ≡ some a)
  has_some none h = absurd (h refl)
  has_some (some a) h = (a, refl)

  -- `m` returns `s` with more sent.
  abbrev pub Sends : Option (Observer Addr) → Observer Addr → Type 0
  Sends m s = (sent : List (Responder Addr × Bytes)) × (m ≡ some (record s { sent = sent }))

  module _ {s : Observer Addr} (c : IsConsistent net s) where
    pub notify-Sends :
        (key path : Bytes)
        → path_of net s.register_resources key ≡ some path
        → Sends (notify_register_with_newest_resource net key s) s
    unfolding notify_register_with_newest_resource
    notify-Sends key path h =
        let (item, found, same) = path_of-inv net key path s.register_resources h in
        let (resource, there, _) = listed_at-inv path key s.resources ((c.listed key path).0 h) in
        let (message, built) = has_some (notification net s.current_message_id item resource) (
          notification-total s.current_message_id item resource
            (λ size e. c.sized key item size found e)) in
        let (sent, e) = respond-sent item.registered_responder message s in
        (sent, ground (arith, found, there, built, e))

    -- A new number for the next message.
    abbrev pub numbered : Observer Addr
    numbered = record s { current_message_id = s.current_message_id + 1 }

    pub gen_message_id_lem :
        s.current_message_id + 1 < 2 ^ 16 → gen_message_id net s ≡ some numbered
    unfolding gen_message_id
    gen_message_id_lem h = ground arith

    pub numbered-IsConsistent : IsConsistent net numbered
    numbered-IsConsistent = record {
      named = c.named;
      listed = c.listed;
      enrolled = c.enrolled;
      awaited = c.awaited;
      issued = λ k i h. omega (arith, c.issued k i h);
      tried = c.tried;
      sized = c.sized;
      unique = c.unique;
    }

    pub numbered-fresh : owner s.unacknowledge_messages (s.current_message_id + 1) ≡ none
    numbered-fresh =
        elim (Option-cases (owner s.unacknowledge_messages (s.current_message_id + 1))) [
          | inl e ↦ e
          | inr (key, e) ↦
              let late =
                c.issued key (s.current_message_id + 1)
                  ((c.awaited key (s.current_message_id + 1)).1 e) in
              absurd (omega (arith, late))
        ]

  module _ (key : Bytes) (item : RegisterResourceItem Addr) (s : Observer Addr) where
    await-number : (await net key item s).current_message_id ≡ s.current_message_id
    unfolding await
    await-number = refl

    await-path_of :
        lookup key s.register_resources ≡ some item
        → (j : Bytes)
        → path_of net (await net key item s).register_resources j
          ≡ path_of net s.register_resources j
    unfolding await
    await-path_of found j =
        grind (arith, path_of-insert, path_of_at net key item s.register_resources found)

    await-pending_of :
        pending_of net (await net key item s).register_resources key ≡ some s.current_message_id
    unfolding await
    await-pending_of = grind (arith, pending_of-insert)

  -- One observer notified: the message has the next number, and awaits its acknowledgement.
  pub record Notified (key : Bytes) (s : Observer Addr) (m : Option (Observer Addr)) : Type 0 where
    pub observer : Observer Addr
    pub returned : m ≡ some observer
    pub consistent : IsConsistent net observer
    pub counted : observer.current_message_id ≡ s.current_message_id + 1
    pub same_paths :
        (j : Bytes) → path_of net observer.register_resources j ≡ path_of net s.register_resources j
    pub awaits : pending_of net observer.register_resources key ≡ some observer.current_message_id

  pub notify_anew-Notified :
      {s : Observer Addr} (c : IsConsistent net s) (key path : Bytes)
      → path_of net s.register_resources key ≡ some path
      → s.current_message_id + 1 < 2 ^ 16
      → Notified key s (notify_anew net key s)
  unfolding notify_anew record_unacknowledge_message
  notify_anew-Notified {s} c key path h room =
      let n = numbered-IsConsistent c in
      let (sent, e) = notify-Sends n key path h in
      let (item, found, same) = path_of-inv net key path s.register_resources h in
      let notified : Observer Addr = record (numbered c) { sent = sent } in
      record {
        observer = await net key item notified;
        returned = ground (arith, gen_message_id_lem c room, e, found);
        consistent =
            await-IsConsistent net (resend-IsConsistent sent n) key item found (numbered-fresh c);
        counted = await-number key item notified;
        same_paths = λ j. await-path_of key item notified found j;
        awaits =
            await-pending_of key item notified ∙ ap some (sym (await-number key item notified));
      }

  All-moved :
      (keys : List Bytes) (path : Bytes) (s t : Observer Addr)
      → ((j : Bytes) → path_of net t.register_resources j ≡ path_of net s.register_resources j)
      → All (λ key. path_of net s.register_resources key ≡ some path) keys
      → All (λ key. path_of net t.register_resources key ≡ some path) keys
  All-moved [] path s t same h = tt
  All-moved (key ∷ keys) path s t same (h, hs) = (same key ∙ h, All-moved keys path s t same hs)

  -- Every observer is notified in turn.
  pub record AllNotified (keys : List Bytes) (s : Observer Addr) (m : Option (Observer Addr))
      : Type 0 where
    pub observer : Observer Addr
    pub returned : m ≡ some observer
    pub consistent : IsConsistent net observer
    pub counted : observer.current_message_id ≡ s.current_message_id + length keys
    pub same_paths :
        (j : Bytes) → path_of net observer.register_resources j ≡ path_of net s.register_resources j

  -- Where the keys are of registrations on one path, the maps agree and the counter has room for one
  -- number a key, the loop over the keys does not panic, takes a number for each key, keeps the maps
  -- in agreement and leaves each registration on its path.
  pub notify_all-AllNotified :
      (keys : List Bytes) {s : Observer Addr} (c : IsConsistent net s) (path : Bytes)
      → All (λ key. path_of net s.register_resources key ≡ some path) keys
      → s.current_message_id + length keys < 2 ^ 16
      → AllNotified keys s (notify_all net keys s)
  unfolding notify_all
  notify_all-AllNotified [] {s} c path h room = record {
    observer = s;
    returned = refl;
    consistent = c;
    counted = omega arith;
    same_paths = λ j. refl;
  }
  notify_all-AllNotified (key ∷ keys) {s} c path (h, hs) room =
      let first = notify_anew-Notified c key path h (omega arith) in
      let rest =
        notify_all-AllNotified keys first.consistent path
          (All-moved keys path s first.observer (λ j. first.same_paths j) hs)
          (omega (arith, first.counted)) in
      record {
        observer = rest.observer;
        returned = rw first.returned rest.returned;
        consistent = rest.consistent;
        counted = omega (arith, rest.counted, first.counted);
        same_paths = λ j. rest.same_paths j ∙ first.same_paths j;
      }
