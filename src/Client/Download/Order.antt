-- ===== src/Client/Download/Order.antt =====
-- src/client.rs: a transfer stops at a block out of order, and at a tag that differs from the first.
use coap_rs.Common.{
  ℕ, take, ◌+◌, ◌*◌, ◌≤◌, ◌<◌, ◌^◌, length, ◌++◌, Option-cases, ◌≡◌, refl, ◌≢◌, true, false, Option,
  none, some, List, [], ◌∷◌, Bytes, arith, Bool-cases, inl, inr, ap, ◌∙◌, ◌⊎◌,
}
use coap_rs.Coap.{Block}
use coap_rs.Client.{Message, Codec, ok, err, ErrorKind, first, get_block2_option, next_id}
use coap_rs.Client.Download.Reassembly.{IsBlock, HasBlocks, handled}
use coap_rs.Client.Download.{
  reserve, empty_state, Exchange, Handling, handle_block, handle_blockwise, request_next, finish,
  receive, receive_with_etag_validation, etag_matches, more, done, failed, overflow,
}

module _ (codec : Codec) where
  stray_fails :
      (answers : List (Option Message)) (counter expected : ℕ) (x : Exchange) (b : Block)
      → get_block2_option x.response ≡ some b
      → x.state.expected_block_num ≡ some expected
      → b.num ≢ expected
      → receive codec answers counter x ≡ err ErrorKind.interrupted
  unfolding receive handle_blockwise handle_block
  stray_fails [] counter expected x b named waits differ = ground arith
  stray_fails (none ∷ answers) counter expected x b named waits differ = ground arith
  stray_fails (some next ∷ answers) counter expected x b named waits differ = ground arith

  -- A transfer that goes on knows the number of the next block.
  more_expects :
      (x x' : Exchange)
      → handle_blockwise codec x ≡ more x'
      → (n : ℕ) × (x'.state.expected_block_num ≡ some n)
  unfolding handle_blockwise handle_block finish request_next
  more_expects x x' e = elim (Option-cases x'.state.expected_block_num) [
    | inr (n, known) ↦ (n, known)
    | inl unknown ↦ absurd (ground arith)
  ]

  -- A block of another number.
  abbrev pub Stray : ℕ → Message → Type 0
  Stray k m = (b : Block) × (get_block2_option m ≡ some b) × (b.num ≢ k)

  module _ (size : ℕ) (payload : Bytes) where
    -- From the block `k` on the answers go on in order, until a stray block comes while more are due.
    abbrev pub Strays : ℕ → Message → List (Option Message) → Type 0
    Strays k m (some next ∷ answers) =
        IsBlock codec size payload k m
        × (k * size + size < length payload)
        × (Stray (k + 1) next ⊎ Strays (k + 1) next answers)
    Strays k m _ = ⊥

    module _
        (splice_end : (old new : Bytes)
          → length new ≤ size
          → codec.splice old (length old) (length old + size) new reserve ≡ some (old ++ new))
        (numbered : (k : ℕ) → k * size ≤ length payload → k + 1 < 2 ^ 16) where
      receive_from-Strays :
          (answers : List (Option Message)) (k counter : ℕ) (x : Exchange)
          → HasBlocks codec size payload k x.state
          → Strays k x.response answers
          → receive codec answers counter x ≡ err ErrorKind.interrupted
      unfolding receive
      receive_from-Strays [] k counter x h never = absurd never
      receive_from-Strays (none ∷ answers) k counter x h never = absurd never
      receive_from-Strays (some next ∷ answers) k counter x h (b, long, follows) =
          elim (handled codec size payload splice_end k x b h (numbered k h.inside)) [
            | inr (x', e, short, _) ↦ absurd (omega (arith, long, short))
            | inl (x', e, _, h') ↦
                let y = record x' {
                  request = record x'.request { message_id = counter };
                  response = next;
                } in
                let (n, known) = more_expects x x' e in
                let due : n ≡ k + 1 = ground (arith, known, h'.expects) in
                let rest : receive codec answers (next_id counter) y ≡ err ErrorKind.interrupted =
                  elim follows [
                    | inl (stray, named, differs) ↦
                        stray_fails answers (next_id counter) n y stray named known
                          (λ same. differs (same ∙ due))
                    | inr later ↦ receive_from-Strays answers (k + 1) (next_id counter) y h' later
                  ] in
                ground (arith, e, rest)
          ]

      -- Where the blocks of a payload come in order from the first on, and then, while more are due, a
      -- block of another number than the next, `receive` ends with `Interrupted` at that block,
      -- whatever the transport would answer later. A splice at the end of a vector appends, and each
      -- block that the payload has can be numbered.
      pub receive-out_of_order :
          (answers : List (Option Message)) (counter : ℕ) (request response : Message)
          → Strays 0 response answers
          → receive codec answers counter
              (record { request = request; response = response; state = empty_state })
            ≡ err ErrorKind.interrupted
      receive-out_of_order answers counter request response strays =
          let zero_times : 0 ≡ 0 * size = omega arith in
          receive_from-Strays answers 0 counter
            (record { request = request; response = response; state = empty_state })
            (record {
              start = ap (λ n. take n payload) zero_times;
              inside = omega arith;
              expects = refl;
            })
            strays

  -- Whatever comes of handling a response, its tags stay.
  handle_blockwise-etag :
      (x x' : Exchange) → handle_blockwise codec x ≡ done x' → x'.response.etag ≡ x.response.etag
  unfolding handle_blockwise handle_block finish request_next
  handle_blockwise-etag x x' e = ground arith

  pub Handling-cases :
      (h : Handling)
      → ((x : Exchange) × (h ≡ more x))
        ⊎ ((x : Exchange) × (h ≡ done x))
        ⊎ ((h ≡ failed) ⊎ (h ≡ overflow))
  Handling-cases (more x) = inl (x, refl)
  Handling-cases (done x) = inr (inl (x, refl))
  Handling-cases failed = inr (inr (inl refl))
  Handling-cases overflow = inr (inr (inr refl))

  matched-first :
      (tag : Bytes) (m : Message) → etag_matches codec (some tag) m ≡ true → first m.etag ≡ some tag
  matched-first tag m e = ground arith

  done-first :
      (tag : Bytes) (x x' : Exchange)
      → handle_blockwise codec x ≡ done x'
      → etag_matches codec (some tag) x.response ≡ true
      → first x'.response.etag ≡ some tag
  done-first tag x x' e right =
      ap first (handle_blockwise-etag x x' e) ∙ matched-first tag x.response right

  refused :
      (answers : List (Option Message)) (tag : Bytes) (counter : ℕ) (x : Exchange) (m : Message)
      → etag_matches codec (some tag) x.response ≡ false
      → receive_with_etag_validation codec (some tag) answers counter x ≡ ok m
      → ⊥
  unfolding receive_with_etag_validation
  refused [] tag counter x m wrong e = ground arith
  refused (none ∷ answers) tag counter x m wrong e = ground arith
  refused (some next ∷ answers) tag counter x m wrong e = ground arith

  matched :
      (answers : List (Option Message)) (tag : Bytes) (counter : ℕ) (x : Exchange) (m : Message)
      → etag_matches codec (some tag) x.response ≡ true
      → receive_with_etag_validation codec (some tag) answers counter x ≡ ok m
      → (receive codec answers counter x ≡ ok m) × (first m.etag ≡ some tag)
  unfolding receive receive_with_etag_validation
  matched [] tag counter x m right e = elim (Handling-cases (handle_blockwise codec x)) [
    | inl (x', h) ↦ absurd (ground arith)
    | inr (inl (x', h)) ↦ (ground arith, ground (arith, done-first tag x x' h right))
    | inr (inr f) ↦ absurd (ground arith)
  ]
  matched (none ∷ answers) tag counter x m right e =
      elim (Handling-cases (handle_blockwise codec x)) [
        | inl (x', h) ↦ absurd (ground arith)
        | inr (inl (x', h)) ↦ (ground arith, ground (arith, done-first tag x x' h right))
        | inr (inr f) ↦ absurd (ground arith)
      ]
  matched (some next ∷ answers) tag counter x m right e =
      elim (Handling-cases (handle_blockwise codec x)) [
        | inl (x', h) ↦
            let y : Exchange = record x' {
              request = record x'.request { message_id = counter };
              response = next;
            } in
            elim (Bool-cases (etag_matches codec (some tag) next)) [
              | inr wrong ↦ absurd (refused answers tag (next_id counter) y m wrong (ground arith))
              | inl good ↦
                  let (same, named) =
                    matched answers tag (next_id counter) y m good (ground arith) in
                  (ground (arith, same), named)
            ]
        | inr (inl (x', h)) ↦ (ground arith, ground (arith, done-first tag x x' h right))
        | inr (inr f) ↦ absurd (ground arith)
      ]

  -- The loop that checks the tag returns only what the other loop returns, and a message with the
  -- expected tag.
  pub receive_with_etag_validation-ok :
      (answers : List (Option Message)) (tag : Bytes) (counter : ℕ) (x : Exchange) (m : Message)
      → receive_with_etag_validation codec (some tag) answers counter x ≡ ok m
      → (receive codec answers counter x ≡ ok m) × (first m.etag ≡ some tag)
  unfolding receive receive_with_etag_validation
  receive_with_etag_validation-ok answers tag counter x m e =
      elim (Bool-cases (etag_matches codec (some tag) x.response)) [
        | inr wrong ↦ absurd (refused answers tag counter x m wrong e)
        | inl right ↦ matched answers tag counter x m right e
      ]
