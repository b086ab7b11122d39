-- ===== src/Tests/Observations.antt =====
-- src/client.rs: the theorems on an observation whose notification has two blocks.
use native.Mathlib.Decide.{ℕ_discrete}
use coap_rs.Common.{
  ◌≡◌, refl, ◌⊎◌, inr, Bool, true, false, none, some, [], ◌∷◌, arith, ascii, bytes_same, bytes_key,
  lookup,
}
use coap_rs.Common.Results.{ok, err}
use coap_rs.Coap.{ObserveOption}
use coap_rs.Client.{Message}
use coap_rs.Client.Transport.{Failure, Delivery, TransportSynchronizer}
use coap_rs.Client.Observing.{
  ObserveRequest, Notice, Told, RegistrationError, Event, register_packet,
  receive_and_handle_message_observe, observe_with, run,
}
use coap_rs.Client.Observing.Registering.{observe_with-lookup, run-terminates}
use coap_rs.Client.Observing.Notices.{receive_and_handle_message_observe-payload}
use coap_rs.Tests.Clients.{codec, ask, part, text, part-IsBlock, last-IsBlock}

abbrev request : ObserveRequest
request = record { message = ask; observe = none; path = ascii "temp" }

abbrev idle : TransportSynchronizer
idle = record { outgoing = (ascii "b", 4) ∷ []; fail_error = none; delivered = [] }

abbrev would_block : Failure → Bool
would_block e = false

abbrev refused : Message → Delivery
refused m = Delivery.failed Failure.timed_out

observe_with-lookup_example :
    let (left, r) =
      observe_with codec would_block
        (λ code. false)
        9
        (ascii "t")
        (ascii "u")
        10
        2
        []
        request
        refused
        idle in
    (((told : Notice) × (r ≡ ok told) × (lookup (ascii "a") left.outgoing ≡ some 9))
      ⊎ ((e : RegistrationError) × (r ≡ err e) × (lookup (ascii "a") left.outgoing ≡ none)))
    × (lookup (ascii "b") left.outgoing ≡ lookup (ascii "b") idle.outgoing)
unfolding register_packet
observe_with-lookup_example =
    observe_with-lookup codec would_block (λ code. false) 2 (ascii "t") (ascii "u") 9 10 [] request
      refused idle (ascii "b") refl (λ e. ground arith) (λ e. ground arith) (λ e. ground arith)

abbrev lost : Event
lost = Event.received (ascii "u") 5 [] (some (refused ask))

run-terminates_example :
    (run codec would_block true
        (ascii "temp")
        (ascii "a")
        request
        (lost ∷ Event.terminates 7 ∷ Event.terminates 8 ∷ [])
      ≡ (
        (run codec would_block true (ascii "temp") (ascii "a") request (lost ∷ [])).0,
        some (record {
          message = record ask { message_id = 7; token = ascii "a"; block2 = [] };
          observe = some (some ObserveOption.deregister);
          path = ascii "temp";
        }),
      ))
    × ((run codec would_block true
          (ascii "temp")
          (ascii "a")
          request
          (lost ∷ Event.dropped ∷ Event.terminates 8 ∷ [])).1
        ≡ none)
unfolding receive_and_handle_message_observe
run-terminates_example =
    run-terminates codec would_block (ascii "temp") (ascii "a") request (lost ∷ [])
      (Event.terminates 8 ∷ []) 7 ((λ e. absurd (ground arith)), tt)

receive_and_handle_message_observe-payload_example :
    (m : Message) × (receive_and_handle_message_observe codec would_block
        (ascii "u")
        5
        (some (part 1 false (ascii "!")) ∷ [])
        request
        (Delivery.packet (part 0 true (ascii "CoAP")))
      ≡ Notice.tells (Told.message m))
    × (m.payload ≡ text)
unfolding bytes_same ℕ_discrete
receive_and_handle_message_observe-payload_example =
    receive_and_handle_message_observe-payload codec 4 text (λ old new h. refl)
      (λ k h. omega (arith, h)) would_block (ascii "u") 5 (some (part 1 false (ascii "!")) ∷ [])
      request (part 0 true (ascii "CoAP")) (part-IsBlock, inr (last-IsBlock, omega arith))
      (refl, tt)
