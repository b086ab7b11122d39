-- ===== src/Client/Download/Reassembly.antt =====
-- src/client.rs: the blocks of a payload, fetched in order, give the payload back.
use coap_rs.Common.{
  ℕ, ◌+◌, ◌*◌, ◌≤◌, ◌<◌, ◌^◌, ◌≡◌, refl, false, Option, none, some, List, [], ◌∷◌, ◌++◌, Bytes,
  length, take, drop, arith, ◌∙◌, ap, sym, ltb, ◌⊎◌, inl, inr, ap₂, Bool-cases, take-add, take_all,
  length-take_of_le, length-take_le,
}
use coap_rs.Coap.{Block}
use coap_rs.Client.{Message, Codec, ok, get_block2_option, next_id}
use coap_rs.Client.Download.{
  Exchange, BlockState, empty_state, handle_block, handle_blockwise, receive, reserve, more, done,
  cached, is_unexpected,
}

module _ (codec : Codec) (size : ℕ) (payload : Bytes) where
  open codec use {block_size, splice}

  -- The message is the block of number `k` of the payload.
  pub record IsBlock (k : ℕ) (m : Message) : Type 0 where
    pub block : Block
    pub named : get_block2_option m ≡ some block
    pub number : block.num ≡ k
    pub sized : block_size block ≡ size
    pub part : m.payload ≡ take size (drop (k * size) payload)
    pub followed : block.more ≡ ltb (k * size + size) (length payload)

  -- The answers go on with the later blocks, up to the last one.
  abbrev pub Serves : ℕ → Message → List (Option Message) → Type 0
  Serves k m (some next ∷ answers) =
      IsBlock k m × ((length payload ≤ k * size + size) ⊎ Serves (k + 1) next answers)
  Serves k m _ = IsBlock k m × (length payload ≤ k * size + size)

  -- A transfer that has the blocks below `k`.
  pub record HasBlocks (k : ℕ) (state : BlockState) : Type 0 where
    pub start : cached state ≡ take (k * size) payload
    pub inside : k * size ≤ length payload
    pub expects : is_unexpected state.expected_block_num k ≡ false

  module _
      (splice_end : (old new : Bytes)
        → length new ≤ size
        → splice old (length old) (length old + size) new reserve ≡ some (old ++ new)) where
    spliced :
        (k : ℕ) (x : Exchange) (b : IsBlock k x.response)
        → HasBlocks k x.state
        → splice
            (cached x.state)
            (b.block.num * block_size b.block)
            (b.block.num * block_size b.block + block_size b.block)
            x.response.payload
            reserve
          ≡ some (take (k * size + size) payload)
    spliced k x b h =
        let full : length (cached x.state) ≡ k * size =
          ap length h.start ∙ length-take_of_le (k * size) payload h.inside in
        let short : length x.response.payload ≤ size =
          omega (arith, ap length b.part, length-take_le size (drop (k * size) payload)) in
        let e = splice_end (cached x.state) x.response.payload short in
        let whole = take-add (k * size) size payload in
        let at : b.block.num * block_size b.block ≡ length (cached x.state) =
          rw (b.sized, b.number) (sym full) in
        ap (λ n. splice (cached x.state) n (n + block_size b.block) x.response.payload reserve) at
        ∙ ap
            (λ n.
              splice (cached x.state) (length (cached x.state)) (length (cached x.state) + n)
                x.response.payload reserve)
            b.sized
        ∙ e
        ∙ ap some (ap₂ ◌++◌ h.start b.part ∙ sym whole)

    -- One block handled: the transfer goes on after a block that others follow, and ends otherwise.
    pub handled :
        (k : ℕ) (x : Exchange)
        → IsBlock k x.response
        → HasBlocks k x.state
        → k + 1 < 2 ^ 16
        → ((x' : Exchange) × (handle_blockwise codec x ≡ more x')
            × (k * size + size < length payload)
            × HasBlocks (k + 1) x'.state)
          ⊎ ((x' : Exchange) × (handle_blockwise codec x ≡ done x')
              × (length payload ≤ k * size + size)
              × (x'.response.payload ≡ payload))
    unfolding handle_blockwise handle_block
    handled k x b h room =
        let part = spliced k x b h in
        let right : is_unexpected x.state.expected_block_num b.block.num ≡ false =
          ap (is_unexpected x.state.expected_block_num) b.number ∙ h.expects in
        elim (Bool-cases b.block.more) [
          | inl follow ↦
              let long : k * size + size < length payload = ground (arith, b.followed, follow) in
              inl (
                record {
                  request = record x.request {
                    block1 = [];
                    block2 = some (record b.block { num = k + 1; more = false }) ∷ [];
                  };
                  response = x.response;
                  state = record {
                    cached_payload = some (take (k * size + size) payload);
                    expected_block_num = some (k + 1);
                  };
                },
                ground (arith, b.named, right, part, follow, b.number),
                long,
                record {
                  start = ap (λ n. take n payload) (omega arith);
                  inside = omega arith;
                  expects = ground arith;
                },
              )
          | inr last ↦
              let short : length payload ≤ k * size + size = ground (arith, b.followed, last) in
              inr (
                record {
                  request = x.request;
                  response = record x.response { payload = take (k * size + size) payload };
                  state = record x.state { cached_payload = none };
                },
                ground (arith, b.named, right, part, last),
                short,
                take_all (k * size + size) payload short,
              )
        ]

    -- Each block that the payload has can be numbered.
    module _ (numbered : (k : ℕ) → k * size ≤ length payload → k + 1 < 2 ^ 16) where
      receive_from :
          (answers : List (Option Message)) (k counter : ℕ) (x : Exchange)
          → HasBlocks k x.state
          → Serves k x.response answers
          → (m : Message) × (receive codec answers counter x ≡ ok m) × (m.payload ≡ payload)
      unfolding receive
      receive_from [] k counter x h (b, last) = elim (handled k x b h (numbered k h.inside)) [
        | inl (_, _, long, _) ↦ absurd (omega arith)
        | inr (x', e, _, whole) ↦ (x'.response, ground (arith, e), whole)
      ]
      receive_from (none ∷ answers) k counter x h (b, last) =
          elim (handled k x b h (numbered k h.inside)) [
            | inl (_, _, long, _) ↦ absurd (omega arith)
            | inr (x', e, _, whole) ↦ (x'.response, ground (arith, e), whole)
          ]
      receive_from (some next ∷ answers) k counter x h (b, follows) =
          elim (handled k x b h (numbered k h.inside)) [
            | inr (x', e, _, whole) ↦ (x'.response, ground (arith, e), whole)
            | inl (x', e, long, h') ↦ elim follows [
              | inl short ↦ absurd (omega arith)
              | inr later ↦
                  let (m, got, whole) =
                    receive_from answers (k + 1) (next_id counter)
                      (record x' {
                        request = record x'.request { message_id = counter };
                        response = next;
                      })
                      h' later in
                  (m, ground (arith, e, got), whole)
            ]
          ]

      zero_times : 0 ≡ 0 * size
      zero_times = omega arith

      -- Where the first response and the answers of the transport are the blocks of a payload in
      -- order, up to the last one, `receive` returns a message with the whole payload.
      pub receive-payload :
          (answers : List (Option Message)) (counter : ℕ) (request response : Message)
          → Serves 0 response answers
          → (m : Message) × (receive codec answers counter
                (record { request = request; response = response; state = empty_state })
              ≡ ok m)
            × (m.payload ≡ payload)
      receive-payload answers counter request response serves =
          receive_from answers 0 counter
            (record { request = request; response = response; state = empty_state })
            (record {
              start = ap (λ n. take n payload) zero_times;
              inside = omega arith;
              expects = refl;
            })
            serves
