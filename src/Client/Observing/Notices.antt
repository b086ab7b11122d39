-- ===== src/Client/Observing/Notices.antt =====
-- src/client.rs: a notification in blocks is told as a whole.
use coap_rs.Common.{
  ℕ, ◌+◌, ◌*◌, ◌≤◌, ◌<◌, ◌^◌, ◌≡◌, true, false, take, drop, take_all, Option, none, some, List, [],
  ◌∷◌, ◌++◌, Bytes, length, arith, ◌∙◌, ap, inl, inr, Bool, Bool-cases,
}
use coap_rs.Coap.{Block}
use coap_rs.Client.{Message, Codec, first, contains_more_blocks, next_id}
use coap_rs.Client.Download.{
  Exchange, handle_blockwise, receive, receive_with_etag_validation, etag_matches, empty_state,
  reserve,
}
use coap_rs.Client.Download.Reassembly.{IsBlock, Serves, receive-payload}
use coap_rs.Client.Download.Order.{Handling-cases}
use coap_rs.Client.Transport.{Failure, Delivery}
use coap_rs.Client.Observing.{
  ObserveRequest, Told, Notice, continuation, receive_and_handle_message_observe,
}

module _ (codec : Codec) where
  open codec use {splice, checked}

  -- Every answer carries the expected tag first.
  abbrev pub AllTagged : Option Bytes → List (Option Message) → Type 0
  AllTagged tag [] = Unit
  AllTagged tag (none ∷ answers) = AllTagged tag answers
  AllTagged tag (some m ∷ answers) = (etag_matches codec tag m ≡ true) × AllTagged tag answers

  -- Where the tags match, validating them changes nothing.
  validated :
      (tag : Option Bytes) (answers : List (Option Message)) (counter : ℕ) (x : Exchange)
      → etag_matches codec tag x.response ≡ true
      → AllTagged tag answers
      → receive_with_etag_validation codec tag answers counter x ≡ receive codec answers counter x
  unfolding receive receive_with_etag_validation
  validated tag [] counter x right tagged = ground (arith, right)
  validated tag (none ∷ answers) counter x right tagged = ground (arith, right)
  validated tag (some m ∷ answers) counter x right (next, tagged) =
      elim (Handling-cases codec (handle_blockwise codec x)) [
        | inl (x', e) ↦
            let later =
              validated tag answers (next_id counter)
                (record x' { request = record x'.request { message_id = counter }; response = m })
                next tagged in
            ground (arith, right, e, later)
        | inr (inl (x', e)) ↦ ground (arith, right, e)
        | inr (inr (inl e)) ↦ ground (arith, right, e)
        | inr (inr (inr e)) ↦ ground (arith, right, e)
      ]

  etag_matches_self : (m : Message) → etag_matches codec (first m.etag) m ≡ true
  etag_matches_self m = ground arith

  module _ (size : ℕ) (payload : Bytes)
      (splice_end : (old new : Bytes)
        → length new ≤ size
        → splice old (length old) (length old + size) new reserve ≡ some (old ++ new))
      (numbered : (k : ℕ) → k * size ≤ length payload → k + 1 < 2 ^ 16) where
    Serves-IsBlock :
        (m : Message) (answers : List (Option Message))
        → Serves codec size payload 0 m answers
        → IsBlock codec size payload 0 m
    Serves-IsBlock m [] (b, _) = b
    Serves-IsBlock m (none ∷ answers) (b, _) = b
    Serves-IsBlock m (some next ∷ answers) (b, _) = b

    continued :
        (token : Bytes) (counter : ℕ) (b : Block) (request : ObserveRequest)
        → b.num ≡ 0
        → (r : ObserveRequest) × (continuation checked token counter b request ≡ some r)
    unfolding continuation
    continued token counter b request zeroth = (
      record request {
        message = record request.message {
          token = token;
          message_id = counter;
          block2 = some (record b { num = 1; more = false }) ∷ [];
        };
        observe = none;
      },
      ground arith,
    )

    -- A notification whose message and the answers to the requests that follow it are the blocks of a
    -- payload in order, up to the last one, all with the tag of the first, is told to the handler as
    -- one message with the whole payload.
    pub receive_and_handle_message_observe-payload :
        (would_block : Failure → Bool) (token : Bytes) (counter : ℕ)
        (answers : List (Option Message)) (request : ObserveRequest) (response : Message)
        → Serves codec size payload 0 response answers
        → AllTagged (first response.etag) answers
        → (m : Message) × (receive_and_handle_message_observe codec would_block token counter
              answers request
              (Delivery.packet response)
            ≡ Notice.tells (Told.message m))
          × (m.payload ≡ payload)
    unfolding receive_and_handle_message_observe contains_more_blocks
    receive_and_handle_message_observe-payload would_block token counter answers request response
          serves tagged =
        let b = Serves-IsBlock response answers serves in
        elim (Bool-cases b.block.more) [
          | inr last ↦
              let start : 0 * size ≡ 0 = omega arith in
              let short : length payload ≤ size = ground (arith, b.followed, last) in
              (
                response,
                ground (arith, b.named, last),
                b.part ∙ ap (λ n. take size (drop n payload)) start ∙ take_all size payload short,
              )
          | inl follow ↦
              let (r, built) = continued token counter b.block request b.number in
              let (m, got, whole) =
                receive-payload codec size payload splice_end numbered answers (next_id counter)
                  r.message response serves in
              let same =
                validated (first response.etag) answers (next_id counter)
                  (record { request = r.message; response = response; state = empty_state })
                  (etag_matches_self response) tagged in
              (m, ground (arith, b.named, follow, built, got, same), whole)
        ]
