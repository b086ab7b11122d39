-- ===== src/Observer/Handler/Deliveries.antt =====
-- src/observer.rs: what the loop over a resource's observers sends, and to whom.
use mathlib.Core.Path.{subst}
use coap_rs.Common.{
  ℕ, ◌+◌, ◌<◌, ◌^◌, ◌≡◌, refl, ◌≢◌, Option, none, some, List, [], ◌∷◌, ◌++◌, Bytes, bytes_same,
  bytes_key, nat_key, lookup, insert, length, ite, arith, Option-cases, inl, inr, ap, sym, ◌∙◌,
  append_assoc, append-nil, lookup-insert, increment,
}
use coap_rs.Coap.{Endpoint, Packet, Responder}
use coap_rs.Observer.{
  ResourceItem, RegisterResourceItem, Observer, await, record_unacknowledge_message,
}
use coap_rs.Observer.Views.{path_of}
use coap_rs.Observer.Invariant.{IsConsistent}
use coap_rs.Observer.Handler.{
  respond, notification, notify_register_with_newest_resource, gen_message_id, notify_anew,
  notify_all,
}
use coap_rs.Observer.Handler.Notices.{All, notify_all-AllNotified}
use coap_rs.Observer.Handler.Retransmission.{notification-fields}

module _ (net : Endpoint) where
  open net use {Addr, new_packet, to_bytes}

  -- The responder, the token and the path of a registration.
  abbrev pub Target : Type 0
  Target = Responder Addr × (Bytes × Bytes)

  abbrev target_of : RegisterResourceItem Addr → Target
  target_of item = (item.registered_responder, (item.token, item.resource))

  pub target : List (Bytes × RegisterResourceItem Addr) → Bytes → Option Target
  target m key = elim (lookup key m) [ none ↦ none | some item ↦ some (target_of item) ]

  target-insert :
      (key j : Bytes) (item : RegisterResourceItem Addr)
      (m : List (Bytes × RegisterResourceItem Addr))
      → target (insert key item m) j ≡ ite (bytes_same key j) (some (target_of item)) (target m j)
  unfolding target
  target-insert key j item m = grind (arith, lookup-insert)

  target_at :
      (key : Bytes) (item : RegisterResourceItem Addr)
      (m : List (Bytes × RegisterResourceItem Addr))
      → lookup key m ≡ some item
      → target m key ≡ some (target_of item)
  unfolding target
  target_at key item m h = ground arith

  -- The datagram is a notification to the registration at `key`: it goes to its responder, has its
  -- token, and tells the sequence number and the tag of its resource.
  pub record Tells (s : Observer Addr) (key : Bytes) (d : Responder Addr × Bytes) : Type 0 where
    pub path : Bytes
    pub message : Packet
    pub resource : ResourceItem
    pub registered : target s.register_resources key ≡ some (d.0, (message.token, path))
    pub there : lookup path s.resources ≡ some resource
    pub sequence : message.observe ≡ some resource.sequence
    pub tag : message.etag ≡ new_packet.etag ++ resource.etag ∷ []
    pub encoded : to_bytes message ≡ some d.1

  abbrev pub AllTold : Observer Addr → List Bytes → List (Responder Addr × Bytes) → Type 0
  AllTold s [] [] = Unit {0}
  AllTold s (key ∷ keys) (d ∷ ds) = Tells s key d × AllTold s keys ds
  AllTold s _ _ = ⊥

  -- What one round leaves as it was.
  record SameView (s t : Observer Addr) : Type 0 where
    targets : (j : Bytes) → target t.register_resources j ≡ target s.register_resources j
    resources : t.resources ≡ s.resources

  Tells-back :
      (s t : Observer Addr) (key : Bytes) (d : Responder Addr × Bytes)
      → SameView s t
      → Tells t key d
      → Tells s key d
  Tells-back s t key d v h = record {
    path = h.path;
    message = h.message;
    resource = h.resource;
    registered = sym (v.targets key) ∙ h.registered;
    there = ap (λ m. lookup h.path m) (sym v.resources) ∙ h.there;
    sequence = h.sequence;
    tag = h.tag;
    encoded = h.encoded;
  }

  AllTold-back :
      (s t : Observer Addr) (keys : List Bytes) (ds : List (Responder Addr × Bytes))
      → SameView s t
      → AllTold t keys ds
      → AllTold s keys ds
  AllTold-back s t [] [] v h = tt
  AllTold-back s t (key ∷ keys) (d ∷ ds) v (h, hs) =
      (Tells-back s t key d v h, AllTold-back s t keys ds v hs)
  AllTold-back s t [] (d ∷ ds) v h = absurd h
  AllTold-back s t (key ∷ keys) [] v h = absurd h

  module _ (encodes : (m : Packet) → to_bytes m ≢ none) where
    record Told (s t : Observer Addr) (key : Bytes) : Type 0 where
      datagram : Responder Addr × Bytes
      tells : Tells s key datagram
      added : t.sent ≡ s.sent ++ datagram ∷ []
      view : SameView s t

    -- The state that a round leaves.
    abbrev told : Bytes → RegisterResourceItem Addr → ℕ → Bytes → Observer Addr → Observer Addr
    told key item id b s =
        await net key item (record s {
          current_message_id = id;
          sent = s.sent ++ (item.registered_responder, b) ∷ [];
        })

    told-Told :
        (key : Bytes) (item : RegisterResourceItem Addr) (resource : ResourceItem) (id : ℕ)
        (m : Packet) (b : Bytes) (s : Observer Addr)
        → lookup key s.register_resources ≡ some item
        → lookup item.resource s.resources ≡ some resource
        → notification net id item resource ≡ some m
        → to_bytes m ≡ some b
        → Told s (told key item id b s) key
    unfolding await
    told-Told key item resource id m b s found there built coded =
        let (kind, code, number, token, observe, tag, size) =
          notification-fields net id item resource m built in
        let at = target_at key item s.register_resources found in
        record {
          datagram = (item.registered_responder, b);
          tells = record {
            path = item.resource;
            message = m;
            resource = resource;
            registered =
                at ∙ ap (λ t. some (item.registered_responder, (t, item.resource))) (sym token);
            there = there;
            sequence = observe;
            tag = tag;
            encoded = coded;
          };
          added = refl;
          view = record { targets = λ j. grind (arith, target-insert, at); resources = refl };
        }

    round-told :
        (key : Bytes) (s t : Observer Addr)
        → notify_anew net key s ≡ some t
        → (item : RegisterResourceItem Addr) × (resource : ResourceItem) × (id : ℕ) × (m : Packet)
          × (b : Bytes) × (lookup key s.register_resources ≡ some item)
          × (lookup item.resource s.resources ≡ some resource)
          × (notification net id item resource ≡ some m)
          × (to_bytes m ≡ some b)
          × (t ≡ told key item id b s)
    unfolding notify_anew gen_message_id notify_register_with_newest_resource
        record_unacknowledge_message respond await
    round-told key s t e = elim (Option-cases (increment net.checked 16 s.current_message_id)) [
      | inl over ↦ absurd (ground arith)
      | inr (id, i) ↦ elim (Option-cases (lookup key s.register_resources)) [
        | inl gone ↦ absurd (ground arith)
        | inr (item, found) ↦ elim (Option-cases (lookup item.resource s.resources)) [
          | inl lost ↦ absurd (ground arith)
          | inr (resource, there) ↦ elim (Option-cases (notification net id item resource)) [
            | inl bad ↦ absurd (ground arith)
            | inr (m, built) ↦ elim (Option-cases (to_bytes m)) [
              | inl uncoded ↦ absurd (encodes m uncoded)
              | inr (b, coded) ↦
                  (item, resource, id, m, b, found, there, built, coded, ground arith)
            ]
          ]
        ]
      ]
    ]

    notify_anew-Told :
        (key : Bytes) (s t : Observer Addr) → notify_anew net key s ≡ some t → Told s t key
    notify_anew-Told key s t e =
        let (item, resource, id, m, b, found, there, built, coded, same) = round-told key s t e in
        subst (λ q. Told s q key) (sym same)
          (told-Told key item resource id m b s found there built coded)

    notify_all-Told :
        (keys : List Bytes) (s t : Observer Addr)
        → notify_all net keys s ≡ some t
        → (ds : List (Responder Addr × Bytes)) × (t.sent ≡ s.sent ++ ds) × AllTold s keys ds
    unfolding notify_all
    notify_all-Told [] s t e = ([], ground (arith, append-nil s.sent), tt)
    notify_all-Told (key ∷ keys) s t e = elim (Option-cases (notify_anew net key s)) [
      | inl bad ↦ absurd (ground arith)
      | inr (next, first) ↦
          let one = notify_anew-Told key s next first in
          let (ds, more, all) = notify_all-Told keys next t (ground arith) in
          (
            one.datagram ∷ ds,
            more ∙ (ap (λ q. q ++ ds) one.added ∙ append_assoc s.sent (one.datagram ∷ []) ds),
            (one.tells, AllTold-back s next keys ds one.view all),
          )
    ]

    -- Where the keys are of registrations on one path, the maps agree, every packet can be encoded
    -- and the counter has room for one number a key, the loop over the keys sends just one datagram
    -- a key, in order: a notification to that registration with its token and the sequence number and
    -- the tag of its resource.
    pub notify_all-AllTold :
        (keys : List Bytes) {s : Observer Addr} (c : IsConsistent net s) (path : Bytes)
        → All (λ key. path_of net s.register_resources key ≡ some path) keys
        → s.current_message_id + length keys < 2 ^ 16
        → (t : Observer Addr) × (notify_all net keys s ≡ some t)
          × ((ds : List (Responder Addr × Bytes)) × (t.sent ≡ s.sent ++ ds) × AllTold s keys ds)
    notify_all-AllTold keys {s} c path h room =
        let all = notify_all-AllNotified net keys c path h room in
        (all.observer, all.returned, notify_all-Told keys s all.observer all.returned)
