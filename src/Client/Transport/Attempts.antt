-- ===== src/Client/Transport/Attempts.antt =====
-- src/client.rs: how often a message is sent, and which answer its sender gets.
use coap_rs.Common.{
  ℕ, zero, suc, ◌≤◌, ◌≡◌, Option, none, some, List, [], ◌∷◌, Bytes, arith, map, take, refl,
}
use coap_rs.Client.Transport.{
  Attempt, Delivery, Failure, Tried, packet, failed, try_send_non_confirmable_message, proceed,
  try_from, try_send_confirmable_message,
}

one_send :
    (encoded : Option Bytes) (a : Attempt) → (try_send_non_confirmable_message encoded a).sends ≤ 1
unfolding try_send_non_confirmable_message
one_send none a = omega arith
one_send (some bytes) a = ground arith

sends-proceed :
    (t : Tried) (d : Delivery) (later : Tried) (n : ℕ)
    → t.sends ≤ 1
    → later.sends ≤ n
    → (proceed t d later).sends ≤ suc n
unfolding proceed
sends-proceed t (packet m) later n p q = omega (arith, p)
sends-proceed t (failed e) later n p q = omega (arith, p, q)

sends-try_from :
    (encoded : Option Bytes) (res : Delivery) (attempts : List Attempt) (retries : ℕ)
    → (try_from encoded res attempts retries).sends ≤ retries
unfolding try_from
sends-try_from encoded res attempts zero = omega arith
sends-try_from encoded res [] (suc retries) = omega arith
sends-try_from encoded res (a ∷ attempts) (suc retries) =
    let t = try_send_non_confirmable_message encoded a in
    sends-proceed t t.result (try_from encoded t.result attempts retries) retries
      (one_send encoded a) (sends-try_from encoded t.result attempts retries)

-- The first answer, or else the last error, where `last` is what came before.
abbrev pub answer_or_last : Delivery → List Delivery → Delivery
answer_or_last last [] = last
answer_or_last last (packet m ∷ later) = packet m
answer_or_last last (failed e ∷ later) = answer_or_last (failed e) later

-- What the attempts come to when each is made.
abbrev pub results : Option Bytes → List Attempt → List Delivery
results encoded = map (λ a. (try_send_non_confirmable_message encoded a).result)

proceed-result :
    (t : Tried) (d : Delivery) (ds : List Delivery) (last : Delivery) (later : Tried)
    → t.result ≡ d
    → later.result ≡ answer_or_last d ds
    → (proceed t d later).result ≡ answer_or_last last (d ∷ ds)
unfolding proceed
proceed-result t (packet m) ds last later same e = same
proceed-result t (failed x) ds last later same e = e

try_from-result :
    (encoded : Option Bytes) (res : Delivery) (attempts : List Attempt) (retries : ℕ)
    → (try_from encoded res attempts retries).result
      ≡ answer_or_last res (results encoded (take retries attempts))
unfolding try_from
try_from-result encoded res attempts zero = refl
try_from-result encoded res [] (suc retries) = refl
try_from-result encoded res (a ∷ attempts) (suc retries) =
    let t = try_send_non_confirmable_message encoded a in
    proceed-result t t.result (results encoded (take retries attempts)) res
      (try_from encoded t.result attempts retries) refl
      (try_from-result encoded t.result attempts retries)

-- However the attempts end, a confirmable message is sent at most as often as the retries say, and
-- the result is the first answer among the attempts that the retries allow, or the last error where
-- none is answered; without a retry it is an error of invalid data.
pub try_send_confirmable_message_lem :
    (encoded : Option Bytes) (attempts : List Attempt) (retries : ℕ)
    → ((try_send_confirmable_message encoded attempts retries).sends ≤ retries)
      × ((try_send_confirmable_message encoded attempts retries).result
          ≡ answer_or_last (failed Failure.invalid_data) (results encoded (take retries attempts)))
unfolding try_send_confirmable_message
try_send_confirmable_message_lem encoded attempts retries = (
  sends-try_from encoded (failed Failure.invalid_data) attempts retries,
  try_from-result encoded (failed Failure.invalid_data) attempts retries,
)
