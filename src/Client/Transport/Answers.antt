-- ===== src/Client/Transport/Answers.antt =====
-- src/client.rs: a request is answered by a packet with its own token.
use mathlib.Core.Path.{subst}
use coap_rs.Common.{
  ℕ, zero, suc, ◌≡◌, inl, inr, Option, none, some, List, [], ◌∷◌, ◌++◌, Bytes, bytes_key, nat_key,
  lookup, arith, All, All-mono, All-middle, Option-cases,
}
use coap_rs.Coap.{MessageType}
use coap_rs.Client.{Message}
use coap_rs.Client.Transport.{
  Delivery, packet, failed, Failure, Attempt, Tried, try_from, proceed, await_reply,
  try_send_confirmable_message, try_send_non_confirmable_message,
  do_request_response_for_packet_inner,
}
use coap_rs.Client.Transport.Requests.{World, Reach, Carries, Reach-IsOwned}

-- What an attempt receives is something that its channel was given.
abbrev pub Came : World → ℕ → Option Delivery → Type 0
Came w sender none = Unit
Came w sender (some d) =
    (before : List (ℕ × Delivery)) × (after : List (ℕ × Delivery)) × (w.synchronizer.delivered
      ≡ before ++ (sender, d) ∷ after)

Came-Carries :
    (blank : Message) {w : World} (r : Reach blank w) (sender : ℕ) (reply : Option Delivery)
    → Came w sender reply
    → Carries w.opened (sender, await_reply reply)
unfolding await_reply
Came-Carries blank r sender none came = tt
Came-Carries blank {w} r sender (some d) (before, after, e) =
    All-middle (Carries w.opened) before (sender, d) after
      (subst (λ l. All (Carries w.opened) l) e (Reach-IsOwned blank r).carried)

module _ (opened : List (ℕ × Bytes)) (sender : ℕ) where
  one-Carries :
      (encoded : Option Bytes) (a : Attempt)
      → Carries opened (sender, await_reply a.reply)
      → Carries opened (sender, (try_send_non_confirmable_message encoded a).result)
  unfolding try_send_non_confirmable_message
  one-Carries none a h = tt
  one-Carries (some bytes) a h = elim (Option-cases a.send_error) [
    | inl fine ↦ rw fine h
    | inr (e, wrong) ↦ rw wrong tt
  ]

  proceed-Carries :
      (t : Tried) (d : Delivery) (later : Tried)
      → Carries opened (sender, t.result)
      → Carries opened (sender, later.result)
      → Carries opened (sender, (proceed t d later).result)
  unfolding proceed
  proceed-Carries t (packet m) later h k = h
  proceed-Carries t (failed e) later h k = k

  try_from-Carries :
      (encoded : Option Bytes) (res : Delivery) (attempts : List Attempt) (retries : ℕ)
      → Carries opened (sender, res)
      → All (λ (a : Attempt). Carries opened (sender, await_reply a.reply)) attempts
      → Carries opened (sender, (try_from encoded res attempts retries).result)
  unfolding try_from
  try_from-Carries encoded res attempts zero h all = h
  try_from-Carries encoded res [] (suc retries) h all = h
  try_from-Carries encoded res (a ∷ attempts) (suc retries) h (came, all) =
      let t = try_send_non_confirmable_message encoded a in
      proceed-Carries t t.result (try_from encoded t.result attempts retries)
        (one-Carries encoded a came)
        (try_from-Carries encoded t.result attempts retries (one-Carries encoded a came) all)

  inner-Carries :
      (kind : MessageType) (encoded : Option Bytes) (a : Attempt) (attempts : List Attempt)
      (retries : ℕ)
      → All (λ (b : Attempt). Carries opened (sender, await_reply b.reply)) (a ∷ attempts)
      → Carries opened
          (sender, (do_request_response_for_packet_inner kind encoded a attempts retries).result)
  unfolding do_request_response_for_packet_inner try_send_confirmable_message
  inner-Carries MessageType.confirmable encoded a attempts retries all =
      try_from-Carries encoded (failed Failure.invalid_data) (a ∷ attempts) retries tt all
  inner-Carries _ encoded a attempts retries (came, all) = one-Carries encoded a came

-- However the requests of a client and the packets that arrive interleave, also where requests use
-- one token or a failure has struck, the answer to a request carries the token that its channel was
-- opened for. Each attempt receives what the request's channel was given, or nothing.
pub do_request_response_for_packet_inner-token :
    (blank : Message) {w : World} (sender : ℕ) (token : Bytes) (kind : MessageType)
    (encoded : Option Bytes) (a : Attempt) (attempts : List Attempt) (retries : ℕ) (m : Message)
    → Reach blank w
    → lookup sender w.opened ≡ some token
    → All (λ (b : Attempt). Came w sender b.reply) (a ∷ attempts)
    → (do_request_response_for_packet_inner kind encoded a attempts retries).result ≡ packet m
    → m.token ≡ token
do_request_response_for_packet_inner-token blank {w} sender token kind encoded a attempts retries m
      r there came got =
    let all =
      All-mono (λ (b : Attempt). Came w sender b.reply)
        (λ (b : Attempt). Carries w.opened (sender, await_reply b.reply)) (a ∷ attempts)
        (λ b. Came-Carries blank r sender b.reply) came in
    let carries =
      subst (λ d. Carries w.opened (sender, d)) got
        (inner-Carries w.opened sender kind encoded a attempts retries all) in
    ground (arith, carries, there)
