-- ===== src/Tests/Transports.antt =====
-- src/client.rs: the theorems on two waiting requests and on three attempts.
use Prim.Native.Nat.{ℕ, ◌≤◌}
use native.Mathlib.Decide.{ℕ_discrete}
use coap_rs.Common.{
  ◌≡◌, refl, none, some, List, [], ◌∷◌, ◌++◌, Bytes, bytes_same, bytes_key, lookup, set_entry,
  place, less, remove, ascii, map,
}
use coap_rs.Coap.{MessageType, MessageClass, Status}
use coap_rs.Client.{Message}
use coap_rs.Client.Transport.{
  TransportSynchronizer, Failure, Delivery, packet, failed, Received, elapsed, broken, arrived,
  Attempt, fail, set_sender, send_to, receive_loop, try_send_non_confirmable_message, await_reply,
  try_send_confirmable_message, try_from, proceed, do_request_response_for_packet_inner,
  establish_receiver_for, dispatch, hand_over, get_sender,
}
use coap_rs.Client.Transport.Waiting.{failures, AllOwn, fail_lem, receive_loop-AllOwn}
use coap_rs.Client.Transport.Requests.{World, Reach, starts, steps, establishes, receives}
use coap_rs.Client.Transport.Answers.{do_request_response_for_packet_inner-token}
use coap_rs.Client.Transport.Receivers.{
  create_receiver_for, drop, dispatch_all, answering, none_left, create_receiver_for_lem,
}
use coap_rs.Client.Transport.Attempts.{answer_or_last, results, try_send_confirmable_message_lem}

abbrev content : Message
content = record {
  kind = MessageType.confirmable;
  code = MessageClass.response Status.content;
  message_id = 9;
  token = ascii "b";
  block1 = [];
  block2 = [];
  etag = [];
  payload = ascii "19 C";
}

abbrev two_wait : TransportSynchronizer
two_wait = record {
  outgoing = (ascii "a", 0) ∷ (ascii "b", 1) ∷ [];
  fail_error = none;
  delivered = [];
}

fail_lem_example :
    (fail (Failure.other 5) two_wait ≡ record {
      outgoing = [];
      fail_error = some (Failure.other 5);
      delivered = [] ++ failures (Failure.other 5) two_wait.outgoing;
    })
    × ((key : Bytes) (sender : ℕ)
        → set_sender key sender (fail (Failure.other 5) two_wait)
          ≡ send_to sender (failed (Failure.other 5)) (fail (Failure.other 5) two_wait))
unfolding less lookup bytes_same ℕ_discrete
fail_lem_example = fail_lem (Failure.other 5) two_wait ((refl, tt), (tt, tt))

abbrev events : List Received
events = elapsed ∷ arrived content none ∷ broken (Failure.other 5) ∷ []

receive_loop-AllOwn_example :
    (ds : List (ℕ × Delivery)) × ((receive_loop content events two_wait).synchronizer.delivered
      ≡ [] ++ ds)
    × AllOwn two_wait.outgoing ds
unfolding lookup bytes_same ℕ_discrete
receive_loop-AllOwn_example = receive_loop-AllOwn content events two_wait (refl, (refl, tt))

abbrev lost : Attempt
lost = record { send_error = none; reply = none }

abbrev answered : Attempt
answered = record { send_error = none; reply = some (packet content) }

try_send_confirmable_message_lem_example :
    ((try_send_confirmable_message (some (ascii "x")) (lost ∷ answered ∷ []) 5).sends ≤ 5)
    × ((try_send_confirmable_message (some (ascii "x")) (lost ∷ answered ∷ []) 5).result
        ≡ answer_or_last
            (failed Failure.invalid_data)
            (results (some (ascii "x")) (lost ∷ answered ∷ [])))
try_send_confirmable_message_lem_example =
    try_send_confirmable_message_lem (some (ascii "x")) (lost ∷ answered ∷ []) 5

-- The requests with the tokens "a" and "b" wait, and the second is answered.
abbrev both_asked : World
both_asked = record {
  synchronizer = record two_wait {
    outgoing = (ascii "a", 0) ∷ (ascii "b", 1) ∷ [];
    delivered = (1, packet content) ∷ [];
  };
  opened = (1, ascii "b") ∷ (0, ascii "a") ∷ [];
}

both_asked-Reach : Reach content both_asked
unfolding establish_receiver_for set_sender set_entry place less remove receive_loop dispatch
    hand_over get_sender lookup bytes_same ℕ_discrete
both_asked-Reach =
    steps
      (steps (steps starts (establishes (record content { token = ascii "a" }) 0 refl))
        (establishes content 1 refl))
      (receives (arrived content none ∷ []))

abbrev heard : Attempt
heard = record { send_error = none; reply = some (packet content) }

do_request_response_for_packet_inner-token_example : ascii "b" ≡ ascii "b"
unfolding do_request_response_for_packet_inner try_send_confirmable_message try_from proceed
    try_send_non_confirmable_message await_reply lookup ℕ_discrete
do_request_response_for_packet_inner-token_example =
    do_request_response_for_packet_inner-token content {w = both_asked} 1 (ascii "b")
      MessageType.confirmable (some (ascii "m")) heard [] 5 content both_asked-Reach refl
      (([], [], refl), tt) refl

-- A request whose token is "b".
create_receiver_for_lem_example :
    ((dispatch_all (content ∷ content ∷ []) (create_receiver_for content 4 two_wait).1).delivered
      ≡ [] ++ map (λ m. (4, packet m)) (content ∷ content ∷ []))
    × ((dispatch_all (content ∷ []) (
          drop (create_receiver_for content 4 two_wait).0 (
            dispatch_all
              (content ∷ content ∷ [])
              (create_receiver_for content 4 two_wait).1))).delivered
        ≡ [] ++ map (λ m. (4, packet m)) (content ∷ content ∷ []))
create_receiver_for_lem_example =
    create_receiver_for_lem content 4 two_wait (content ∷ content ∷ []) (content ∷ []) refl
      (answering refl refl (answering refl refl none_left)) (answering refl refl none_left)
