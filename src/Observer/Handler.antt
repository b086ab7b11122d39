-- ===== src/Observer/Handler.antt =====
-- src/observer.rs: the handlers of the observer, built from the operations on its maps.
pub mod Notices
pub mod Changes
pub mod Retries
pub mod Retransmission
pub mod Deliveries
pub mod Safety
use coap_rs.Common.{
  ℕ, Bool, true, false, Option, none, some, List, [], ◌∷◌, ◌++◌, ltb, if◌then◌else◌, ◌>>=◌,
  increment, length, take, Bytes, bytes_key, nat_key, lookup, ite,
}
use coap_rs.Coap.{
  MessageType, MessageClass, Status, ObserveOption, Method, Block, Packet, Request, Responder,
  Endpoint,
}
use coap_rs.Observer.{
  RegisterResourceItem, ResourceItem, Observer, Pending, record_register_resource,
  remove_register_resource, record_resource, record_unacknowledge_message,
  try_unacknowledge_message, remove_unacknowledge_message, settle,
}
use coap_rs.Observer.Encode.{encode_coap_uint}

module _ (net : Endpoint) where
  open net use {Addr, same_addr, new_packet, to_bytes, block_new, block_size, checked}

  -- The Block2 option and the payload of a first message: the start of a payload that is longer than
  -- the preferred block.
  unfoldable pub first_block : Option ℕ → Bytes → Option (List Block × Bytes)
  first_block none payload = some ([], payload)
  first_block (some size) payload =
      if ltb size (length payload)
      then (do block ← block_new 0 true size; some (block ∷ [], take size payload))
      else some ([], payload)

  -- `if let Ok(b) = message.to_bytes() { responder.respond(b).await; }`
  pub respond : Responder Addr → Packet → Observer Addr → Observer Addr
  respond responder packet s = elim (to_bytes packet) [
    | none ↦ s
    | some b ↦ record s { sent = s.sent ++ (responder, b) ∷ [] }
  ]

  -- The options and the payload that describe a resource, set on a packet.
  unfoldable pub describe : ResourceItem → Option ℕ → Packet → Option Packet
  unfolding first_block
  describe resource preferred packet = do
    (blocks, payload) ← first_block preferred resource.payload
    some (record packet {
      observe = some resource.sequence;
      etag = packet.etag ++ resource.etag ∷ [];
      size2 = packet.size2 ++ encode_coap_uint (length resource.payload) ∷ [];
      block2 = packet.block2 ++ blocks;
      payload = payload;
    })

  unfoldable pub notification : ℕ → RegisterResourceItem Addr → ResourceItem → Option Packet
  unfolding describe
  notification id item resource = describe resource item.preferred_block_size (record new_packet {
    kind = MessageType.confirmable;
    code = MessageClass.response Status.content;
    token = item.token;
    message_id = id;
  })

  pub notify_register_with_newest_resource : Bytes → Observer Addr → Option (Observer Addr)
  unfolding notification respond
  notify_register_with_newest_resource key s = do
    item ← lookup key s.register_resources
    resource ← lookup item.resource s.resources
    message ← notification s.current_message_id item resource
    some (respond item.registered_responder message s)

  pub gen_message_id : Observer Addr → Option (Observer Addr)
  gen_message_id s = do
    id ← increment checked 16 s.current_message_id
    some (record s { current_message_id = id })

  -- One round of the loop of `resource_changed`.
  pub notify_anew : Bytes → Observer Addr → Option (Observer Addr)
  unfolding gen_message_id notify_register_with_newest_resource
  notify_anew key s = do
    numbered ← gen_message_id s
    notified ← notify_register_with_newest_resource key numbered
    record_unacknowledge_message net key notified

  pub notify_all : List Bytes → Observer Addr → Option (Observer Addr)
  unfolding notify_anew
  notify_all [] s = some s
  notify_all (key ∷ keys) s = do s' ← notify_anew key s; notify_all keys s'

  pub resource_changed : Request Addr → Observer Addr → Option (Observer Addr)
  unfolding notify_all
  resource_changed request s = do
    (s', resource) ← record_resource net request.path request.payload s
    notify_all resource.register_resources s'

  abbrev pub block_size? : Option Block → Option ℕ
  block_size? none = none
  block_size? (some b) = some (block_size b)

  -- The answer to a registration, from the response that was prepared for the request.
  pub acceptance : ResourceItem → Option ℕ → Packet → Option Packet
  unfolding describe
  acceptance resource preferred response =
      describe resource preferred (record response { kind = MessageType.non_confirmable })

  pub reply_not_found : Responder Addr → Option Packet → Observer Addr → Observer Addr
  unfolding respond
  reply_not_found responder none s = s
  reply_not_found responder (some response) s =
      respond responder (record response { code = MessageClass.response Status.not_found }) s

  pub send_accepted :
      Responder Addr
      → ResourceItem
      → Option ℕ
      → Option Packet
      → Observer Addr
      → Option (Observer Addr)
  unfolding acceptance respond
  send_accepted responder resource preferred none s = some s
  send_accepted responder resource preferred (some response) s = do
    accepted ← acceptance resource preferred response
    some (respond responder accepted s)

  pub reply_accepted :
      Responder Addr → Bytes → Option ℕ → Option Packet → Observer Addr → Option (Observer Addr)
  unfolding send_accepted
  reply_accepted responder path preferred response s = do
    resource ← lookup path s.resources
    send_accepted responder resource preferred response s

  -- `register` takes the response out of the request: it is sent here and not by the caller.
  pub register :
      Request Addr → Responder Addr → Observer Addr → Option (Observer Addr × Request Addr)
  unfolding reply_not_found reply_accepted
  register request responder s =
      let taken = record request { response = none } in
      elim (lookup request.path s.resources) [
        | none ↦ some (reply_not_found responder request.response s, taken)
        | some _ ↦ do
          let preferred = block_size? request.block2
          recorded ← record_register_resource net responder request.path request.token preferred s
          replied ← reply_accepted responder request.path preferred request.response recorded
          some (replied, taken)
      ]

  pub deregister : Request Addr → Observer Addr → Option (Observer Addr)
  deregister request s = do
    address ← request.source
    (s', _) ← remove_register_resource net address request.path request.token s
    some s'

  abbrev pub is_source : Option Addr → Addr → Bool
  is_source none address = false
  is_source (some source) address = ite (same_addr source address) true false

  pub reset_notification : Request Addr → Observer Addr → Option (Observer Addr)
  reset_notification request s = elim (lookup request.message_id s.unacknowledge_messages) [
    | none ↦ some s
    | some message ↦ elim (lookup message.register_resource s.register_resources) [
      | none ↦ some s
      | some item ↦
          let address = item.registered_responder.address in
          if is_source request.source address
          then (do
            let cleared = settle net request.message_id message.register_resource item s
            (s', _) ← remove_register_resource net address item.resource item.token cleared
            some s')
          else some s
    ]
  ]

  pub acknowledge : Request Addr → Observer Addr → Option (Observer Addr)
  acknowledge request s = remove_unacknowledge_message net request.message_id request.token s

  -- What `request_handler` leaves: the observer, the request, and whether the request goes on to the
  -- application's handler.
  pub record Handled : Type 0 where
    pub observer : Observer Addr
    pub request : Request Addr
    pub forward : Bool

  pub keep : Request Addr → Bool → Option (Observer Addr) → Option Handled
  keep request forward m = do
    s ← m
    some (record { observer = s; request = request; forward = forward })

  -- The match on the method and the observe flag.
  pub handle_method :
      Method
      → Option (Option ObserveOption)
      → Request Addr
      → Responder Addr
      → Observer Addr
      → Option Handled
  unfolding keep register deregister resource_changed
  handle_method Method.get (some (some ObserveOption.register)) request responder s = do
    (s', request') ← register request responder s
    some (record { observer = s'; request = request'; forward = false })
  handle_method Method.get (some (some ObserveOption.deregister)) request responder s =
      keep request true (deregister request s)
  handle_method Method.put _ request responder s = keep request true (resource_changed request s)
  handle_method _ _ request responder s = keep request true (some s)

  -- The match on the message type.
  pub handle_kind : MessageType → Request Addr → Responder Addr → Observer Addr → Option Handled
  unfolding handle_method acknowledge reset_notification
  handle_kind MessageType.acknowledgement request responder s =
      keep request false (acknowledge request s)
  handle_kind MessageType.reset request responder s =
      keep request false (reset_notification request s)
  handle_kind _ request responder s =
      handle_method request.method request.observe request responder s

  pub request_handler : Request Addr → Responder Addr → Observer Addr → Option Handled
  unfolding handle_kind
  request_handler request responder s = handle_kind request.kind request responder s

  -- `values()` of the map of pending messages.
  pub awaiting : Pending → List Bytes
  awaiting [] = []
  awaiting ((_, message) ∷ m) = message.register_resource ∷ awaiting m

  -- One round of the loop of `timer_handler`.
  pub retry : Bytes → Observer Addr → Option (Observer Addr)
  unfolding notify_register_with_newest_resource
  retry key s = do
    (s', again) ← try_unacknowledge_message net key s
    if again then notify_register_with_newest_resource key s' else some s'

  pub retry_all : List Bytes → Observer Addr → Option (Observer Addr)
  unfolding retry
  retry_all [] s = some s
  retry_all (key ∷ keys) s = do s' ← retry key s; retry_all keys s'

  pub timer_handler : Observer Addr → Option (Observer Addr)
  unfolding retry_all awaiting
  timer_handler s = retry_all (awaiting s.unacknowledge_messages) s
