-- ===== src/Server/Listening.antt =====
-- src/server.rs and src/dtls.rs: the loops that feed the server, over what the sockets bring. An
-- address is of any type, and an error of the system is a number.
use coap_rs.Common.{
  ℕ, ◌≤◌, ◌≡◌, refl, Bool, true, false, ◌||◌, Option, none, some, List, [], ◌∷◌, ◌==◌, ltb,
  if◌then◌else◌, Bytes, length, take, arith, All, Bool-cases, inl, inr, length-take_of_le,
}
use coap_rs.Common.Results.{Result, ok, err}

module _ (Addr : Type 0) where
  -- What `select!` comes to: a datagram, and whether the server's channel takes it, or a response,
  -- and the error of sending it, if any.
  pub data Event : Type 0 where
    received : Result ℕ (Bytes × Addr) → Bool → Event
    response : Option (Bytes × Addr) → Option ℕ → Event

  pub data Ended : Type 0 where
    returned channel_closed : Ended
    failed : ℕ → Ended

  -- What was handed to the server, what was sent, and how the loop ended, if it has.
  pub record Loop : Type 0 where
    pub forwarded : List (Bytes × Addr)
    pub sent : List (Bytes × Addr)
    pub ended : Option Ended

  abbrev pub ends : Ended → Loop
  ends e = record { forwarded = []; sent = []; ended = some e }

  -- `receive_loop` of the UDP listener.
  unfoldable pub receive_loop : List Event → Loop
  receive_loop [] = record { forwarded = []; sent = []; ended = none }
  receive_loop (received (err e) taken ∷ events) = ends (failed e)
  receive_loop (received (ok d) false ∷ events) = ends channel_closed
  receive_loop (received (ok d) true ∷ events) =
      let later = receive_loop events in record later { forwarded = d ∷ later.forwarded }
  receive_loop (response none sent_error ∷ events) = ends returned
  receive_loop (response (some d) (some e) ∷ events) = ends (failed e)
  receive_loop (response (some d) none ∷ events) =
      let later = receive_loop events in record later { sent = d ∷ later.sent }

  -- The datagrams and the responses among some events.
  abbrev datagrams : List Event → List (Bytes × Addr)
  datagrams [] = []
  datagrams (received (ok d) taken ∷ events) = d ∷ datagrams events
  datagrams (_ ∷ events) = datagrams events

  abbrev responses : List Event → List (Bytes × Addr)
  responses [] = []
  responses (response (some d) sent_error ∷ events) = d ∷ responses events
  responses (_ ∷ events) = responses events

  -- While the loop runs, it has handed on every datagram with its sender, and sent every response to
  -- its address, in order.
  pub receive_loop-all :
      (events : List Event)
      → (receive_loop events).ended ≡ none
      → ((receive_loop events).forwarded ≡ datagrams events)
        × ((receive_loop events).sent ≡ responses events)
  unfolding receive_loop
  receive_loop-all [] e = (refl, refl)
  receive_loop-all (received (err x) taken ∷ events) e = absurd (ground (arith, e))
  receive_loop-all (received (ok d) false ∷ events) e = absurd (ground (arith, e))
  receive_loop-all (received (ok d) true ∷ events) e =
      let ih = receive_loop-all events e in (ground (arith, ih), ih.1)
  receive_loop-all (response none sent_error ∷ events) e = absurd (ground (arith, e))
  receive_loop-all (response (some d) (some x) ∷ events) e = absurd (ground (arith, e))
  receive_loop-all (response (some d) none ∷ events) e =
      let ih = receive_loop-all events e in (ih.0, ground (arith, ih))

abbrev pub vector_length : ℕ
vector_length = 1600

-- What `recv` of a DTLS connection comes to, `none` where it fails: the buffer that it leaves and the
-- number of bytes that it has read, and whether the server's channel takes them.
pub record Read : Type 0 where
  pub buffer : Bytes
  pub rx : ℕ
  pub taken : Bool

-- The requests that the loop of a connection hands to the server.
unfoldable pub spawn_webrtc_conn : List (Option Read) → List Bytes
spawn_webrtc_conn [] = []
spawn_webrtc_conn (none ∷ reads) = []
spawn_webrtc_conn (some r ∷ reads) =
    let later = spawn_webrtc_conn reads in
    if r.rx == 0 || ltb vector_length r.rx
    then []
    else if r.taken
    then take r.rx r.buffer ∷ later
    else []

-- Each request that a connection hands on has between 1 and 1600 bytes, where the buffers have the
-- length that they are made with.
pub spawn_webrtc_conn-length :
    (reads : List (Option Read))
    → All
        (λ o. elim o as (λ _. Type 0) [ none ↦ Unit | some r ↦ length r.buffer ≡ vector_length ])
        reads
    → All (λ m. (1 ≤ length m) × (length m ≤ 1600)) (spawn_webrtc_conn reads)
unfolding spawn_webrtc_conn
spawn_webrtc_conn-length [] full = tt
spawn_webrtc_conn-length (none ∷ reads) full = tt
spawn_webrtc_conn-length (some r ∷ reads) (whole, full) =
    elim (Bool-cases (r.rx == 0 || ltb vector_length r.rx)) [
      | inl bad ↦ rw bad tt
      | inr fine ↦ elim (Bool-cases r.taken) [
        | inr closed ↦ rw (fine, closed) tt
        | inl open_still ↦
            let low : 1 ≤ r.rx = ground arith in
            let high : r.rx ≤ 1600 = ground arith in
            let size = length-take_of_le r.rx r.buffer (omega (arith, whole, high)) in
            rw (fine, open_still)
              (
                (omega (arith, size, low), omega (arith, size, high)),
                spawn_webrtc_conn-length reads full,
              )
      ]
    ]
