-- ===== src/Client/Observing/Registering.antt =====
-- src/client.rs: when an observation is entered and how it ends.
use coap_rs.Common.{
  ℕ, ◌≡◌, refl, ◌≢◌, ◌⊎◌, inl, inr, Bool, true, false, Option, none, some, List, [], ◌∷◌, ◌++◌,
  Bytes, bytes_key, lookup, arith, All, ◌∙◌, lookup-set_entry, lookup-remove,
}
use coap_rs.Common.Results.{Result, ok, err}
use coap_rs.Coap.{MessageClass, ObserveOption}
use coap_rs.Client.{Message, Codec, next_id}
use coap_rs.Client.Transport.{Failure, Delivery, TransportSynchronizer, set_sender, remove_sender}
use coap_rs.Client.Observing.{
  ObserveRequest, Notice, RegistrationError, register_packet, send_observe_registration,
  observe_with, keep_registered, Event, terminates, received, dropped, run, terminate_observe,
  goes_on, receive_and_handle_message_observe, registration_registry,
}
use coap_rs.Client.Observing.Continuing.{registration_registry-other}

module _ (codec : Codec) (would_block : Failure → Bool) where
  abbrev Leads :
      Bytes
      → Bytes
      → ℕ
      → TransportSynchronizer
      → TransportSynchronizer × Result RegistrationError Notice
      → Type 0
  Leads key other sender s (left, r) =
      (((told : Notice) × (r ≡ ok told) × (lookup key left.outgoing ≡ some sender))
        ⊎ ((e : RegistrationError) × (r ≡ err e) × (lookup key left.outgoing ≡ none)))
      × (lookup other left.outgoing ≡ lookup other s.outgoing)

  keep_registered-Leads :
      (key other : Bytes) (sender : ℕ) (s after : TransportSynchronizer)
      (r : Result RegistrationError Notice)
      → lookup key after.outgoing ≡ some sender
      → lookup other after.outgoing ≡ lookup other s.outgoing
      → other ≢ key
      → Leads key other sender s (keep_registered codec would_block key after r)
  unfolding keep_registered remove_sender
  keep_registered-Leads key other sender s after (ok told) here there differs =
      (inl (told, refl, here), there)
  keep_registered-Leads key other sender s after (err e) here there differs =
      let gone = lookup-remove key key after.outgoing in
      let still = lookup-remove key other after.outgoing in
      (inr (e, refl, ground (arith, gone)), ground (arith, there, still))

  -- An observation is entered for its token just where it is registered: with a transport that has
  -- not failed, the token leads to the observation's channel afterwards, and where the registration
  -- fails it leads to no channel. Another token leads where it did. The token that is drawn for the
  -- rest of a long notification is none of the two.
  pub observe_with-lookup :
      (is_error : MessageClass → Bool) (counter : ℕ) (token next : Bytes) (sender channel : ℕ)
      (answers : List (Option Message)) (request : ObserveRequest) (transmit : Message → Delivery)
      (s : TransportSynchronizer) (other : Bytes)
      → s.fail_error ≡ none
      → other ≢ (register_packet counter token request).message.token
      → (register_packet counter token request).message.token ≢ next
      → other ≢ next
      → let (left, r) =
          observe_with codec would_block is_error sender token next channel counter answers request
            transmit s in
        let key = (register_packet counter token request).message.token in
        (((told : Notice) × (r ≡ ok told) × (lookup key left.outgoing ≡ some sender))
          ⊎ ((e : RegistrationError) × (r ≡ err e) × (lookup key left.outgoing ≡ none)))
        × (lookup other left.outgoing ≡ lookup other s.outgoing)
  unfolding observe_with set_sender
  observe_with-lookup is_error counter token next sender channel answers request transmit s other
        fine differs fresh apart =
      let packet = register_packet counter token request in
      let key = packet.message.token in
      let sent = transmit packet.message in
      let entered = set_sender key sender s in
      let after =
        registration_registry codec would_block is_error next channel (next_id counter) answers
          packet sent entered in
      let kept =
        registration_registry-other codec would_block is_error next key channel (next_id counter)
          answers packet sent entered fresh in
      let left_alone =
        registration_registry-other codec would_block is_error next other channel (next_id counter)
          answers packet sent entered apart in
      let here = lookup-set_entry key key sender s.outgoing in
      let there = lookup-set_entry key other sender s.outgoing in
      let entry : lookup key entered.outgoing ≡ some sender = ground (arith, fine, here) in
      let others : lookup other entered.outgoing ≡ lookup other s.outgoing =
        ground (arith, fine, there, differs) in
      keep_registered-Leads key other sender s after
        (send_observe_registration codec would_block is_error next (next_id counter) answers packet
          sent)
        (kept ∙ entry) (left_alone ∙ others) differs

  goes_on-terminates :
      (n : Notice) {later : List Notice × Option ObserveRequest}
      (end : List Notice × Option ObserveRequest) {last : ObserveRequest}
      → later ≡ (end.0, some last)
      → n ≢ Notice.panics
      → goes_on n later ≡ ((goes_on n end).0, some last)
  goes_on-terminates Notice.panics end e fine = absurd (fine refl)
  goes_on-terminates (Notice.tells t) end e fine = ground (arith, e)
  goes_on-terminates Notice.quiet end e fine = ground (arith, e)

  -- What the task goes on after while its handle is there: a message of whatever kind that does not
  -- make it panic.
  abbrev Continues : ObserveRequest → Event → Type 0
  Continues template (received next counter answers (some d)) =
      receive_and_handle_message_observe codec would_block next counter answers template d
      ≢ Notice.panics
  Continues template (received next counter answers none) = ⊥
  Continues template (terminates counter) = ⊥
  Continues template dropped = ⊥

  run_before :
      (path token : Bytes) (template : ObserveRequest) (before after : List Event) (counter : ℕ)
      → All (Continues template) before
      → run codec would_block true path token template (before ++ terminates counter ∷ after) ≡ (
        (run codec would_block true path token template before).0,
        some (terminate_observe path token counter template),
      )
  unfolding run
  run_before path token template [] after counter going = refl
  run_before path token template (dropped ∷ before) after counter (never, _) = absurd never
  run_before path token template (received next c answers none ∷ before) after counter (never, _) =
      absurd never
  run_before path token template (terminates c ∷ before) after counter (never, _) = absurd never
  run_before path token template (received next c answers (some d) ∷ before) after counter
        (fine, going) =
      goes_on-terminates
        (receive_and_handle_message_observe codec would_block next c answers template d)
        (run codec would_block true path token template before)
        (run_before path token template before after counter going) fine

  goes_on_unended :
      (n : Notice) (later : List Notice × Option ObserveRequest)
      → later.1 ≡ none
      → (goes_on n later).1 ≡ none
  goes_on_unended Notice.panics later e = refl
  goes_on_unended (Notice.tells t) later e = e
  goes_on_unended Notice.quiet later e = e

  run_unwatched :
      (path token : Bytes) (template : ObserveRequest) (events : List Event)
      → (run codec would_block false path token template events).1 ≡ none
  unfolding run
  run_unwatched path token template [] = refl
  run_unwatched path token template (received next c answers none ∷ events) = refl
  run_unwatched path token template (received next c answers (some d) ∷ events) =
      goes_on_unended
        (receive_and_handle_message_observe codec would_block next c answers template d)
        (run codec would_block false path token template events)
        (run_unwatched path token template events)
  run_unwatched path token template (terminates c ∷ events) =
      run_unwatched path token template events
  run_unwatched path token template (dropped ∷ events) = run_unwatched path token template events

  run-dropped :
      (path token : Bytes) (template : ObserveRequest) (before after : List Event)
      → All (Continues template) before
      → (run codec would_block true path token template (before ++ dropped ∷ after)).1 ≡ none
  unfolding run
  run-dropped path token template [] after going = run_unwatched path token template after
  run-dropped path token template (dropped ∷ before) after (never, _) = absurd never
  run-dropped path token template (received next c answers none ∷ before) after (never, _) =
      absurd never
  run-dropped path token template (terminates c ∷ before) after (never, _) = absurd never
  run-dropped path token template (received next c answers (some d) ∷ before) after (fine, going) =
      goes_on_unended
        (receive_and_handle_message_observe codec would_block next c answers template d)
        (run codec would_block true path token template (before ++ dropped ∷ after))
        (run-dropped path token template before after going)

  -- While messages come and none makes the task panic, the message to terminate ends it: all that
  -- came before has been handled, nothing that comes later is, and the last request deregisters the
  -- path with the registration's token and without a block option. If the handle is dropped first,
  -- the observation is never deregistered, whatever comes later.
  pub run-terminates :
      (path token : Bytes) (template : ObserveRequest) (before after : List Event) (counter : ℕ)
      → All (Continues template) before
      → (run codec would_block true path token template (before ++ terminates counter ∷ after) ≡ (
        (run codec would_block true path token template before).0,
        some (record {
          message = record template.message { message_id = counter; token = token; block2 = [] };
          observe = some (some ObserveOption.deregister);
          path = path;
        }),
      ))
        × ((run codec would_block true path token template (before ++ dropped ∷ after)).1 ≡ none)
  unfolding terminate_observe
  run-terminates path token template before after counter going = (
    run_before path token template before after counter going,
    run-dropped path token template before after going,
  )
