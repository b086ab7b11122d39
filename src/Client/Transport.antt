-- ===== src/Client/Transport.antt =====
-- src/client.rs: the waiting requests of a client, the loop that receives for them, and the attempts
-- to send a message. A sender of a channel is a number, and `delivered` lists what the channels were
-- given, the oldest first; a receiver that is gone changes nothing for the others.
pub mod Waiting
pub mod Attempts
pub mod Requests
pub mod Answers
pub mod Receivers
use coap_rs.Common.{
  ℕ, zero, suc, ◌+◌, Option, none, some, List, [], ◌∷◌, ◌++◌, Bytes, bytes_key, lookup, set_entry,
  remove,
}
use coap_rs.Coap.{MessageType, MessageClass}
use coap_rs.Client.{Message}

-- The kinds of `std::io::Error`.
pub data Failure : Type 0 where
  invalid_data timed_out : Failure
  other : ℕ → Failure

-- An `IoResult<Packet>`
pub data Delivery : Type 0 where
  packet : Message → Delivery
  failed : Failure → Delivery

-- `outgoing` is a `BTreeMap`, whose keys ascend.
pub record TransportSynchronizer : Type 0 where
  pub outgoing : List (Bytes × ℕ)
  pub fail_error : Option Failure
  pub delivered : List (ℕ × Delivery)

abbrev pub new : TransportSynchronizer
new = record { outgoing = []; fail_error = none; delivered = [] }

-- `sender.send(..)`
abbrev pub send_to : ℕ → Delivery → TransportSynchronizer → TransportSynchronizer
send_to sender d s = record s { delivered = s.delivered ++ (sender, d) ∷ [] }

-- One round of the loop of `fail` over the keys.
pub fail_key : Failure → Bytes → TransportSynchronizer → TransportSynchronizer
fail_key e k s = elim (lookup k s.outgoing) [
  | none ↦ record s { outgoing = remove k s.outgoing }
  | some sender ↦ send_to sender (failed e) (record s { outgoing = remove k s.outgoing })
]

pub fail_keys : Failure → List Bytes → TransportSynchronizer → TransportSynchronizer
unfolding fail_key
fail_keys e [] s = s
fail_keys e (k ∷ ks) s = fail_keys e ks (fail_key e k s)

abbrev pub keys : List (Bytes × ℕ) → List Bytes
keys [] = []
keys ((k, _) ∷ m) = k ∷ keys m

pub fail : Failure → TransportSynchronizer → TransportSynchronizer
unfolding fail_keys
fail e s = fail_keys e (keys s.outgoing) (record s { fail_error = some e })

unfoldable pub get_sender : Bytes → TransportSynchronizer → Option ℕ
get_sender key s = lookup key s.outgoing

-- `check_for_error` tells the sender of an earlier failure, and nothing is entered then.
unfoldable pub set_sender : Bytes → ℕ → TransportSynchronizer → TransportSynchronizer
set_sender key sender s = elim s.fail_error [
  | none ↦ record s { outgoing = set_entry key sender s.outgoing }
  | some e ↦ send_to sender (failed e) s
]

unfoldable pub remove_sender : Bytes → TransportSynchronizer → TransportSynchronizer
remove_sender key s = record s { outgoing = remove key s.outgoing }

-- `make_ack`, as the message before it is encoded; `blank` is `Message::new()`.
pub make_ack : Message → Message → Message
make_ack blank m = record blank {
  kind = MessageType.acknowledgement;
  message_id = m.message_id;
  code = MessageClass.empty;
}

pub parse_ack_of : MessageType → MessageClass → Message → Message → Option Message
unfolding make_ack
parse_ack_of MessageType.confirmable (MessageClass.response _) blank m = some (make_ack blank m)
parse_ack_of _ _ blank m = none

pub parse_for_ack : Message → Message → Option Message
unfolding parse_ack_of
parse_for_ack blank m = parse_ack_of m.kind m.code blank m

-- What `receive_packet` comes to in a round, and the error of sending an acknowledgement, if any.
pub data Received : Type 0 where
  elapsed malformed : Received
  broken : Failure → Received
  arrived : Message → Option Failure → Received

unfoldable pub hand_over : Message → TransportSynchronizer → TransportSynchronizer
unfolding get_sender
hand_over m s = elim (get_sender m.token s) [ none ↦ s | some sender ↦ send_to sender (packet m) s ]

-- A packet that is not a response is passed over.
unfoldable pub dispatch : MessageClass → Message → TransportSynchronizer → TransportSynchronizer
unfolding hand_over
dispatch (MessageClass.response _) m s = hand_over m s
dispatch _ m s = s

-- The acknowledgements that were sent, and the error that ended the loop, if one has.
pub record Reception : Type 0 where
  pub synchronizer : TransportSynchronizer
  pub acknowledged : List Message
  pub ended : Option Failure

abbrev acknowledge : Message → Reception → Reception
acknowledge ack r = record r { acknowledged = ack ∷ r.acknowledged }

-- An error of sending an acknowledgement leaves the loop by `?`, without `fail`.
unfoldable pub receive_loop : Message → List Received → TransportSynchronizer → Reception
unfolding fail dispatch parse_for_ack
receive_loop blank [] s = record { synchronizer = s; acknowledged = []; ended = none }
receive_loop blank (elapsed ∷ rest) s = receive_loop blank rest s
receive_loop blank (malformed ∷ rest) s = receive_loop blank rest s
receive_loop blank (broken e ∷ rest) s = record {
  synchronizer = fail e s;
  acknowledged = [];
  ended = some e;
}
receive_loop blank (arrived m none ∷ rest) s =
    let later = receive_loop blank rest (dispatch m.code m s) in
    elim (parse_for_ack blank m) [ none ↦ later | some ack ↦ acknowledge ack later ]
receive_loop blank (arrived m (some e) ∷ rest) s =
    let later = receive_loop blank rest (dispatch m.code m s) in
    elim (parse_for_ack blank m) [
      | none ↦ later
      | some ack ↦ record { synchronizer = s; acknowledged = []; ended = some e }
    ]

-- `establish_receiver_for`, with the sender of the new channel.
unfoldable pub establish_receiver_for : Message → ℕ → TransportSynchronizer → TransportSynchronizer
unfolding set_sender
establish_receiver_for m sender s = set_sender m.token sender s

-- One attempt: the error of `send`, if any, and what the receiver gives before the timeout, if
-- anything.
pub record Attempt : Type 0 where
  pub send_error : Option Failure
  pub reply : Option Delivery

-- The number of datagrams that were sent, and the result.
pub record Tried : Type 0 where
  pub sends : ℕ
  pub result : Delivery

unfoldable pub await_reply : Option Delivery → Delivery
await_reply none = failed Failure.timed_out
await_reply (some d) = d

-- `encode_message` comes first: `encoded` is the bytes of the message, if it can be encoded.
unfoldable pub try_send_non_confirmable_message : Option Bytes → Attempt → Tried
unfolding await_reply
try_send_non_confirmable_message none a = record { sends = 0; result = failed Failure.invalid_data }
try_send_non_confirmable_message (some bytes) a = elim a.send_error [
  | none ↦ record { sends = 1; result = await_reply a.reply }
  | some e ↦ record { sends = 0; result = failed e }
]

-- What follows an attempt: its answer ends the loop, and an error leads to the later attempts.
unfoldable pub proceed : Tried → Delivery → Tried → Tried
proceed t (packet m) later = t
proceed t (failed e) later = record later { sends = t.sends + later.sends }

-- The loop over the retries, with the result so far; the attempts that the world has for it.
unfoldable pub try_from : Option Bytes → Delivery → List Attempt → ℕ → Tried
unfolding try_send_non_confirmable_message proceed
try_from encoded res attempts zero = record { sends = 0; result = res }
try_from encoded res [] (suc retries) = record { sends = 0; result = res }
try_from encoded res (a ∷ attempts) (suc retries) =
    let t = try_send_non_confirmable_message encoded a in
    proceed t t.result (try_from encoded t.result attempts retries)

unfoldable pub try_send_confirmable_message : Option Bytes → List Attempt → ℕ → Tried
unfolding try_from
try_send_confirmable_message encoded attempts retries =
    try_from encoded (failed Failure.invalid_data) attempts retries

-- Only a confirmable message is sent more than once; `a` is the first attempt.
unfoldable pub do_request_response_for_packet_inner :
    MessageType → Option Bytes → Attempt → List Attempt → ℕ → Tried
unfolding try_send_confirmable_message try_send_non_confirmable_message
do_request_response_for_packet_inner MessageType.confirmable encoded a attempts retries =
    try_send_confirmable_message encoded (a ∷ attempts) retries
do_request_response_for_packet_inner _ encoded a attempts retries =
    try_send_non_confirmable_message encoded a
