-- ===== src/Client/Observing.antt =====
-- src/client.rs: the observation of a resource. Message numbers and tokens that a step draws, and what
-- the transport answers, are arguments.
pub mod Continuing
pub mod Registering
pub mod Notices
use coap_rs.Common.{
  ℕ, suc, not, Bool, true, false, Option, none, some, List, [], ◌∷◌, ◌==◌, if◌then◌else◌, increment,
  Bytes,
}
use coap_rs.Common.Results.{Result, ok, err}
use coap_rs.Coap.{Block, MessageClass, ObserveOption}
use coap_rs.Client.{
  Message, Codec, Outcome, ErrorKind, first, get_block2_option, contains_more_blocks, next_id,
}
use coap_rs.Client.Download.{
  receive_with_etag_validation, empty_state, Exchange, etag_matches, handle_blockwise, more,
}
use coap_rs.Client.Transport.{Failure, Delivery, TransportSynchronizer, set_sender, remove_sender}

-- A request with its Observe option, which is `some none` where the value is invalid, and its path.
pub record ObserveRequest : Type 0 where
  pub message : Message
  pub observe : Option (Option ObserveOption)
  pub path : Bytes

-- What the handler is told: a message, the error of a transfer or the error of the transport.
pub data Told : Type 0 where
  message : Message → Told
  transfer : ErrorKind → Told
  broken : Failure → Told

-- What comes of a message: the handler is told something, or nothing, or the task panics.
pub data Notice : Type 0 where
  tells : Told → Notice
  quiet panics : Notice

abbrev drawn_id : ℕ → Message → Message
drawn_id counter m = if m.message_id == 0 then record m { message_id = counter } else m

abbrev drawn_token : Bytes → Message → Message
drawn_token token m = elim m.token [ [] ↦ record m { token = token } | _ ∷ _ ↦ m ]

-- The registration that `observe_with` makes of a request.
unfoldable pub register_packet : ℕ → Bytes → ObserveRequest → ObserveRequest
register_packet counter token request = record request {
  message = drawn_token token (drawn_id counter request.message);
  observe = some (some ObserveOption.register);
}

-- The request that fetches the blocks after the first one, `none` where the block's number overflows.
unfoldable pub continuation : Bool → Bytes → ℕ → Block → ObserveRequest → Option ObserveRequest
continuation checked token counter b request = elim (increment checked 16 b.num) [
  | none ↦ none
  | some next ↦ some (record request {
    message = record request.message {
      token = token;
      message_id = counter;
      block2 = some (record b { num = next; more = false }) ∷ [];
    };
    observe = none;
  })
]

abbrev pub tell_outcome : Outcome → Notice
tell_outcome (Outcome.ok m) = tells (Told.message m)
tell_outcome (Outcome.err e) = tells (Told.transfer e)
tell_outcome Outcome.panicked = panics

-- The kinds of the errors of a registration.
pub data RegistrationError : Type 0 where
  invalid_input not_found : RegistrationError
  transport : Failure → RegistrationError

-- What the task of an observation waits for: something in its channel, which is closed at `none`,
-- the message to terminate, or that its handle is dropped.
pub data Event : Type 0 where
  received : Bytes → ℕ → List (Option Message) → Option Delivery → Event
  terminates : ℕ → Event
  dropped : Event

-- `terminate_observe`: the request that deregisters, made of the registration's path and token.
unfoldable pub terminate_observe : Bytes → Bytes → ℕ → ObserveRequest → ObserveRequest
terminate_observe path token counter template = record {
  message = record template.message { message_id = counter; token = token; block2 = [] };
  observe = some (some ObserveOption.deregister);
  path = path;
}

-- A task that panics ends.
abbrev pub goes_on :
    Notice → List Notice × Option ObserveRequest → List Notice × Option ObserveRequest
goes_on panics later = (panics ∷ [], none)
goes_on notice (told, end) = (notice ∷ told, end)

-- `do_request_response_for_packet`, as far as the registry goes.
unfoldable pub exchange_registry : Bytes → ℕ → TransportSynchronizer → TransportSynchronizer
unfolding set_sender remove_sender
exchange_registry token channel s = remove_sender token (set_sender token channel s)

module _ (codec : Codec) (would_block : Failure → Bool) where
  -- The rest of a message whose first block has come.
  abbrev pub fetch_rest : List (Option Message) → ℕ → Message → Option ObserveRequest → Notice
  fetch_rest answers counter response none = panics
  fetch_rest answers counter response (some request) = tell_outcome (
      receive_with_etag_validation codec (first response.etag) answers (next_id counter)
        (record { request = request.message; response = response; state = empty_state }))

  -- What the requests for the rest do to the registry: each enters a channel of its own under the
  -- continuation's token, and removes it when it has its response or has failed.
  unfoldable pub transfer_registry :
      Option Bytes
      → Bytes
      → ℕ
      → List (Option Message)
      → ℕ
      → Exchange
      → TransportSynchronizer
      → TransportSynchronizer
  unfolding handle_blockwise exchange_registry
  transfer_registry expected token channel [] counter x s =
      if not (etag_matches codec expected x.response)
      then s
      else (elim (handle_blockwise codec x) [ more x' ↦ exchange_registry token channel s | _ ↦ s ])
  transfer_registry expected token channel (none ∷ answers) counter x s =
      if not (etag_matches codec expected x.response)
      then s
      else (elim (handle_blockwise codec x) [ more x' ↦ exchange_registry token channel s | _ ↦ s ])
  transfer_registry expected token channel (some answer ∷ answers) counter x s =
      if not (etag_matches codec expected x.response) then s else (elim (handle_blockwise codec x) [
        | more x' ↦
            transfer_registry expected token (suc channel) answers (next_id counter)
              (record x' {
                request = record x'.request { message_id = counter };
                response = answer;
              })
              (exchange_registry token channel s)
        | _ ↦ s
      ])

  abbrev pub fetch_registry :
      Bytes
      → ℕ
      → List (Option Message)
      → ℕ
      → Message
      → Option ObserveRequest
      → TransportSynchronizer
      → TransportSynchronizer
  fetch_registry token channel answers counter response none s = s
  fetch_registry token channel answers counter response (some request) s =
      transfer_registry (first response.etag) token channel answers (next_id counter)
        (record { request = request.message; response = response; state = empty_state }) s

  unfoldable pub notice_registry :
      Bytes
      → ℕ
      → ℕ
      → List (Option Message)
      → ObserveRequest
      → Message
      → TransportSynchronizer
      → TransportSynchronizer
  unfolding continuation transfer_registry
  notice_registry token channel counter answers request response s =
      elim (get_block2_option response) [
        | none ↦ s
        | some b ↦
            if contains_more_blocks response
            then fetch_registry token channel answers counter response
                (continuation codec.checked token counter b request) s
            else s
      ]

  unfoldable pub receive_and_handle_message_observe :
      Bytes → ℕ → List (Option Message) → ObserveRequest → Delivery → Notice
  unfolding continuation
  receive_and_handle_message_observe token counter answers request (Delivery.failed e) =
      if would_block e then quiet else tells (Told.broken e)
  receive_and_handle_message_observe token counter answers request (Delivery.packet response) =
      let whole = tells (Told.message response) in
      elim (get_block2_option response) [
        | none ↦ whole
        | some b ↦
            if contains_more_blocks response
            then fetch_rest answers counter response
                (continuation codec.checked token counter b request)
            else whole
      ]

  -- `is_error` says whether a response code is an error.
  unfoldable pub send_observe_registration :
      (MessageClass → Bool)
      → Bytes
      → ℕ
      → List (Option Message)
      → ObserveRequest
      → Delivery
      → Result RegistrationError Notice
  unfolding receive_and_handle_message_observe
  send_observe_registration is_error token counter answers request sent =
      let answered = (elim sent as (λ _. Result RegistrationError Notice) [
        | Delivery.failed e ↦ err (RegistrationError.transport e)
        | Delivery.packet response ↦
            if is_error response.code
            then err RegistrationError.not_found
            else ok (
                receive_and_handle_message_observe token counter answers request
                  (Delivery.packet response))
      ]) in
      elim request.observe [
        | some (some ObserveOption.register) ↦ answered
        | _ ↦ err RegistrationError.invalid_input
      ]

  -- What a registration does to the registry besides, by the rest of its first notification.
  unfoldable pub registration_registry :
      (MessageClass → Bool)
      → Bytes
      → ℕ
      → ℕ
      → List (Option Message)
      → ObserveRequest
      → Delivery
      → TransportSynchronizer
      → TransportSynchronizer
  unfolding notice_registry
  registration_registry is_error token channel counter answers request sent s =
      let answered = (elim sent as (λ _. TransportSynchronizer) [
        | Delivery.failed e ↦ s
        | Delivery.packet response ↦
            if is_error response.code
            then s
            else notice_registry token channel counter answers request response s
      ]) in
      elim request.observe [ some (some ObserveOption.register) ↦ answered | _ ↦ s ]

  -- The sender goes again where the registration has failed.
  unfoldable pub keep_registered :
      Bytes
      → TransportSynchronizer
      → Result RegistrationError Notice
      → TransportSynchronizer × Result RegistrationError Notice
  unfolding remove_sender
  keep_registered key s (ok told) = (s, ok told)
  keep_registered key s (err e) = (remove_sender key s, err e)

  -- `observe_with`, up to the task that it spawns: the sender of the observation's channel is entered
  -- under the token; `next` is the token of a continuation, and `channel` its first channel.
  unfoldable pub observe_with :
      (MessageClass → Bool)
      → ℕ
      → Bytes
      → Bytes
      → ℕ
      → ℕ
      → List (Option Message)
      → ObserveRequest
      → (Message → Delivery)
      → TransportSynchronizer
      → TransportSynchronizer × Result RegistrationError Notice
  unfolding register_packet send_observe_registration registration_registry set_sender
      keep_registered
  observe_with is_error sender token next channel counter answers request transmit s =
      let packet = register_packet counter token request in
      let entered = set_sender packet.message.token sender s in
      let sent = transmit packet.message in
      keep_registered packet.message.token
        (registration_registry is_error next channel (next_id counter) answers packet sent entered)
        (send_observe_registration is_error next (next_id counter) answers packet sent)

  -- The task's loop: what comes of each message, and the request that it ends with, if any. Where
  -- the handle is gone the future that is `watched` is replaced by one that never comes.
  unfoldable pub run :
      Bool → Bytes → Bytes → ObserveRequest → List Event → List Notice × Option ObserveRequest
  unfolding receive_and_handle_message_observe terminate_observe
  run watched path token template [] = ([], none)
  run watched path token template (received next counter answers none ∷ events) = ([], none)
  run watched path token template (received next counter answers (some d) ∷ events) =
      let later = run watched path token template events in
      goes_on (receive_and_handle_message_observe next counter answers template d) later
  run true path token template (terminates counter ∷ events) =
      ([], some (terminate_observe path token counter template))
  run false path token template (terminates counter ∷ events) = run false path token template events
  run watched path token template (dropped ∷ events) = run false path token template events
