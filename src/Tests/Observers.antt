-- ===== src/Tests/Observers.antt =====
-- src/observer.rs and src/server.rs: the theorems on a resource with two observers.
use Prim.Native.Nat.{ℕ, min, ◌≤◌, ◌-◌, ◌^◌}
use native.Mathlib.Decide.{ℕ_discrete}
use coap_rs.Common.{
  List, ◌≡◌, refl, ◌≢◌, true, false, Option, none, some, [], ◌∷◌, ◌++◌, Bytes, nat_key, bytes_key,
  bytes_same, lookup, insert, remove, add, erase, ite, arith, ascii, length, ap,
}
use coap_rs.Coap.{Packet, Block, Request, MessageType, Method}
use coap_rs.Observer.{
  Observer, ResourceItem, recorded, enter, forget_existing, await, is_observing,
  format_register_resource, record_register_resource, remove_register_resource,
  remove_unacknowledge_message,
}
use coap_rs.Observer.Encode.{encode_coap_uint}
use coap_rs.Observer.Encode.Laws.{decode_uint, IsShort, encode_coap_uint_lem}
use coap_rs.Observer.Views.{path_of}
use coap_rs.Observer.Invariant.{IsConsistent}
use coap_rs.Observer.Removal.{Returns}
use coap_rs.Observer.Behaviour.{
  record_register_resource-observing, remove_register_resource-observing,
}
use coap_rs.Observer.Handler.{Handled, request_handler, timer_handler, notify_all, retry}
use coap_rs.Observer.Handler.Notices.{AllNotified, notify_all-AllNotified}
use coap_rs.Coap.{Responder}
use coap_rs.Observer.Handler.Deliveries.{AllTold, notify_all-AllTold}
use coap_rs.Observer.Handler.Retries.{timer_handler-Returns}
use coap_rs.Observer.Handler.Safety.{HasRoom, request_handler-Answers}
use coap_rs.Observer.Handler.Retransmission.{stale_acknowledgement}
use coap_rs.Tests.Endpoints.{
  net, plain, sized, path, client, other_client, client_key, other_key, observed,
  observed-IsConsistent, both, both-IsConsistent, client_item, waiting, waiting-IsConsistent,
  first_waits, second_waits, both_wait, both_wait-IsConsistent,
}

abbrev put : Request ℕ
put = record {
  kind = MessageType.confirmable;
  method = Method.put;
  observe = none;
  message_id = 7;
  token = ascii "c";
  path = path;
  block2 = none;
  payload = ascii "20 C";
  source = some 3;
  response = none;
}

abbrev first_byte : Bytes → ℕ
first_byte [] = 0
first_byte (b ∷ bs) = b

abbrev counts : Option ResourceItem → ℕ × ℕ
counts none = (0, 0)
counts (some r) = (length r.register_resources, r.sequence)

put-HasRoom : HasRoom net put observed
unfolding recorded lookup insert remove bytes_same ℕ_discrete add erase
put-HasRoom = record {
  number = omega arith;
  numbers = λ r e. omega (arith, ap (λ o. (counts o).0) e);
  sequence = λ r e. omega (arith, ap (λ o. (counts o).1) e);
}

request_handler-Answers_example :
    (h : Handled net) × (request_handler net put client observed ≡ some h)
    × IsConsistent net h.observer
request_handler-Answers_example =
    request_handler-Answers net plain sized observed-IsConsistent put client 3 refl put-HasRoom

timer_handler-Returns_example : Returns net (timer_handler net waiting)
timer_handler-Returns_example = timer_handler-Returns net waiting-IsConsistent

notify_all-AllNotified_example :
    AllNotified net
      (other_key ∷ client_key ∷ [])
      both
      (notify_all net (other_key ∷ client_key ∷ []) both)
unfolding path_of recorded enter forget_existing lookup insert remove bytes_same ℕ_discrete
notify_all-AllNotified_example =
    notify_all-AllNotified net (other_key ∷ client_key ∷ []) both-IsConsistent path
      (refl, (refl, tt)) (omega arith)

record_register_resource-observing_example :
    is_observing net both 1 path
    ≡ ite (bytes_same other_key client_key) true (is_observing net observed 1 path)
unfolding record_register_resource recorded lookup insert remove bytes_same ℕ_discrete add
record_register_resource-observing_example =
    record_register_resource-observing net other_client path (ascii "b") none observed both 1 path
      refl

client_item-there : lookup client_key both.register_resources ≡ some client_item
unfolding recorded enter forget_existing lookup insert remove bytes_same ℕ_discrete
client_item-there = refl

remove_register_resource-observing_example :
    (client_item.token ≢ ascii "a"
      → remove_register_resource net 1 path (ascii "a") both ≡ some (both, false))
    × (client_item.token ≡ ascii "a"
        → (s' : Observer ℕ) × (remove_register_resource net 1 path (ascii "a") both
            ≡ some (s', true))
          × ((a : ℕ) (p : Bytes)
              → is_observing net s' a p
                ≡ ite
                    (bytes_same client_key (format_register_resource net a p))
                    false
                    (is_observing net both a p)))
remove_register_resource-observing_example =
    remove_register_resource-observing net plain both-IsConsistent 1 path (ascii "a") client_item
      client_item-there

encode_coap_uint_lem_example :
    (decode_uint 0 (encode_coap_uint 4096) ≡ min 4096 (2 ^ 32 - 1))
    × (length (encode_coap_uint 4096) ≤ 4)
    × IsShort (encode_coap_uint 4096)
encode_coap_uint_lem_example = encode_coap_uint_lem 4096

abbrev long : Bytes
long = ascii "The temperature is 20 C"

abbrev start_block : Block
start_block = record { num = 0; more = true; size_exponent = 0 }

-- The first client waits for message 1 and the second one for message 2.
stale_acknowledgement_example :
    (t : Observer ℕ) × (m : Packet) × (b : Bytes) × (retry net client_key both_wait ≡ some t)
    × (t.sent ≡ both_wait.sent ++ (client, b) ∷ [])
    × (net.to_bytes m ≡ some b)
    × (m.message_id ≡ 2)
    × (m.token ≡ ascii "a")
    × (m.message_id ≢ 1)
    × (lookup client_key t.register_resources ≡ some first_waits)
    × (remove_unacknowledge_message net m.message_id m.token t ≡ some t)
unfolding recorded await enter forget_existing lookup insert remove bytes_same ℕ_discrete
stale_acknowledgement_example =
    stale_acknowledgement net (λ m e. absurd (cc)) both_wait-IsConsistent client_key first_waits 1
      (record { try_times = 1; register_resource = client_key }) other_key second_waits refl refl
      refl refl refl refl (λ e. omega (arith, ap first_byte e))

notify_all-AllTold_example :
    (t : Observer ℕ) × (notify_all net (other_key ∷ client_key ∷ []) both ≡ some t)
    × ((ds : List (Responder ℕ × Bytes)) × (t.sent ≡ both.sent ++ ds)
        × AllTold net both (other_key ∷ client_key ∷ []) ds)
unfolding path_of recorded enter forget_existing lookup insert remove bytes_same ℕ_discrete
notify_all-AllTold_example =
    notify_all-AllTold net (λ m e. absurd (cc)) (other_key ∷ client_key ∷ []) both-IsConsistent path
      (refl, (refl, tt)) (omega arith)
