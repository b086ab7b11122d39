-- ===== src/Client/Transport/Receivers.antt =====
-- src/client.rs: `MessageReceiver`, the receiver of several answers to one request. A task that drops
-- a receiver removes the sender at some later time; `drop` is that removal.
use coap_rs.Common.{
  ℕ, ◌≡◌, refl, sym, ◌∙◌, ap, Option, none, some, List, [], ◌∷◌, ◌++◌, Bytes, arith, map, lookup,
  set_entry, remove, bytes_key, bytes_same, append_assoc, append-nil, lookup-set_entry,
  lookup-remove,
}
use mathlib.Core.Logic.{if_pos}
use coap_rs.Coap.{MessageClass, Status}
use coap_rs.Client.{Message}
use coap_rs.Client.Transport.{
  TransportSynchronizer, Delivery, Failure, packet, failed, send_to, get_sender, set_sender,
  remove_sender, dispatch, hand_over,
}

pub record MessageReceiver : Type 0 where
  pub receiver : ℕ
  pub token : Bytes

-- What the channel gives is the result, and an error where its senders are gone.
unfoldable pub receive : ℕ → Option Delivery → Delivery
receive dropped (some d) = d
receive dropped none = failed (Failure.other dropped)

-- `sender` is the new channel.
unfoldable pub create_receiver_for :
    Message → ℕ → TransportSynchronizer → MessageReceiver × TransportSynchronizer
unfolding set_sender
create_receiver_for request sender s =
    (record { receiver = sender; token = request.token }, set_sender request.token sender s)

unfoldable pub drop : MessageReceiver → TransportSynchronizer → TransportSynchronizer
unfolding remove_sender
drop r s = remove_sender r.token s

-- Responses with the token.
pub data Answering (token : Bytes) : List Message → Type 0 where
  none_left : Answering token []
  answering :
      {m : Message} {ms : List Message} {status : Status}
      → m.code ≡ MessageClass.response status
      → m.token ≡ token
      → Answering token ms
      → Answering token (m ∷ ms)

pub dispatch_all : List Message → TransportSynchronizer → TransportSynchronizer
dispatch_all [] s = s
dispatch_all (m ∷ ms) s = dispatch_all ms (dispatch m.code m s)

dispatch-waits :
    (token : Bytes) (m : Message) (status : Status) (sender : ℕ) (s : TransportSynchronizer)
    → m.code ≡ MessageClass.response status
    → m.token ≡ token
    → lookup token s.outgoing ≡ some sender
    → dispatch m.code m s ≡ send_to sender (packet m) s
unfolding dispatch hand_over get_sender
dispatch-waits token m status sender s code own waits = ground (arith, code, own, waits)

dispatch-gone :
    (token : Bytes) (m : Message) (status : Status) (s : TransportSynchronizer)
    → m.code ≡ MessageClass.response status
    → m.token ≡ token
    → lookup token s.outgoing ≡ none
    → dispatch m.code m s ≡ s
unfolding dispatch hand_over get_sender
dispatch-gone token m status s code own gone = ground (arith, code, own, gone)

dispatch_all-waits :
    (token : Bytes) (ms : List Message) (sender : ℕ) (s : TransportSynchronizer)
    → Answering token ms
    → lookup token s.outgoing ≡ some sender
    → dispatch_all ms s ≡ record s { delivered = s.delivered ++ map (λ m. (sender, packet m)) ms }
unfolding dispatch_all
dispatch_all-waits token [] sender s none_left waits =
    ap (λ ds. record s { delivered = ds }) (sym (append-nil s.delivered))
dispatch_all-waits token (m ∷ ms) sender s (answering {status = status} code own rest) waits =
    ap (dispatch_all ms) (dispatch-waits token m status sender s code own waits)
    ∙ dispatch_all-waits token ms sender (send_to sender (packet m) s) rest waits
    ∙ ap (λ ds. record s { delivered = ds })
        (append_assoc s.delivered ((sender, packet m) ∷ []) (map (λ x. (sender, packet x)) ms))

dispatch_all-gone :
    (token : Bytes) (ms : List Message) (s : TransportSynchronizer)
    → Answering token ms
    → lookup token s.outgoing ≡ none
    → dispatch_all ms s ≡ s
unfolding dispatch_all
dispatch_all-gone token [] s none_left gone = refl
dispatch_all-gone token (m ∷ ms) s (answering {status = status} code own rest) gone =
    ap (dispatch_all ms) (dispatch-gone token m status s code own gone)
    ∙ dispatch_all-gone token ms s rest gone

lookup-entry_same : (k : Bytes) (v : ℕ) (m : List (Bytes × ℕ)) → lookup k (set_entry k v m) ≡ some v
lookup-entry_same k v m =
    lookup-set_entry k k v m ∙ if_pos (bytes_same k k) refl (some v) (lookup k m)

lookup-remove_same : (k : Bytes) (m : List (Bytes × ℕ)) → lookup k (remove k m) ≡ none
lookup-remove_same k m = lookup-remove k k m ∙ if_pos (bytes_same k k) refl none (lookup k m)

-- A receiver for a request is given all the responses with its token, in order, where the transport
-- has not failed before, and none that come after it is dropped.
pub create_receiver_for_lem :
    (request : Message) (sender : ℕ) (s : TransportSynchronizer) (ms later : List Message)
    → s.fail_error ≡ none
    → Answering request.token ms
    → Answering request.token later
    → ((dispatch_all ms (create_receiver_for request sender s).1).delivered
        ≡ s.delivered ++ map (λ m. (sender, packet m)) ms)
      × ((dispatch_all later (
            drop
              (create_receiver_for request sender s).0
              (dispatch_all ms (create_receiver_for request sender s).1))).delivered
          ≡ s.delivered ++ map (λ m. (sender, packet m)) ms)
unfolding create_receiver_for set_sender drop remove_sender
create_receiver_for_lem request sender s ms later sound answers after =
    let key = request.token in
    let opened = record s { outgoing = set_entry key sender s.outgoing } in
    let entered : set_sender key sender s ≡ opened = ground (arith, sound) in
    let all_given =
      ap (dispatch_all ms) entered
      ∙ dispatch_all-waits key ms sender opened answers (lookup-entry_same key sender s.outgoing) in
    let closed = remove_sender key (dispatch_all ms (set_sender key sender s)) in
    let unheard =
      dispatch_all-gone key later closed after
        (lookup-remove_same key (dispatch_all ms (set_sender key sender s)).outgoing) in
    let given = ap (λ (q : TransportSynchronizer). q.delivered) all_given in
    (given, ap (λ (q : TransportSynchronizer). q.delivered) unheard ∙ given)
