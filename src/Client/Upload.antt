-- ===== src/Client/Upload.antt =====
-- src/client.rs: `send_request`, which sends a long payload in blocks.
pub mod Chunks
pub mod Delivery
use coap_rs.Common.{
  ℕ, zero, suc, ◌+◌, Bool, true, false, not, Option, none, some, List, [], ◌∷◌, ◌==◌, leb,
  if◌then◌else◌, Bytes, length, take, drop,
}
use coap_rs.Coap.{Block, MessageClass, Status}
use coap_rs.Client.{Message, Codec, Outcome, ok, err, panicked, ErrorKind, first, next_id}

-- `payload.chunks(size)` for a positive size; as many rounds as there are bytes are enough.
pub chunks_from : ℕ → ℕ → Bytes → List Bytes
chunks_from zero size payload = []
chunks_from (suc rounds) size [] = []
chunks_from (suc rounds) size (b ∷ payload) =
    take size (b ∷ payload) ∷ chunks_from rounds size (drop size (b ∷ payload))

pub chunks : ℕ → Bytes → List Bytes
unfolding chunks_from
chunks size payload = chunks_from (length payload) size payload

-- `code == MessageClass::Response(ResponseType::Continue)`
abbrev pub is_continue : MessageClass → Bool
is_continue (MessageClass.response Status.continue) = true
is_continue _ = false

-- `it.peek().is_some()`
abbrev pub is_some_next : List Bytes → Bool
is_some_next [] = false
is_some_next (_ ∷ _) = true

-- What the answer to a block leads to: an error, the end with the answer, or the next block.
pub data Verdict : Type 0 where
  reject : ErrorKind → Verdict
  early accept : Verdict

unfoldable pub judge_block : Bool → Block → Block → Message → Verdict
judge_block more block answered resp =
    if not (answered.num == block.num)
    then reject ErrorKind.invalid_data
    else if more
    then (if not (answered.size_exponent == block.size_exponent)
        then reject ErrorKind.unsupported
        else if is_continue resp.code
        then accept
        else early)
    else (if is_continue resp.code then reject ErrorKind.invalid_data else accept)

unfoldable pub judge : Bool → Block → Message → Verdict
unfolding judge_block
judge more block resp = elim (first resp.block1) [
  | none ↦ reject ErrorKind.unsupported
  | some none ↦ reject ErrorKind.invalid_data
  | some (some answered) ↦ judge_block more block answered resp
]

-- The requests that were handed to the transport, in order, and the result.
pub record Sent : Type 0 where
  pub requests : List Message
  pub outcome : Outcome

abbrev sent_before : Message → Sent → Sent
sent_before m s = record s { requests = m ∷ s.requests }

module _ (codec : Codec) where
  open codec use {block_new}

  unfoldable pub block_request : Block → ℕ → Bytes → Message → Message
  block_request block counter elem request = record request {
    block1 = some block ∷ [];
    payload = elem;
    message_id = counter;
  }

  -- What follows the answer to a block, given what the later blocks would come to.
  unfoldable pub conclude : Verdict → Message → Sent → Sent
  conclude (reject kind) resp later = record { requests = []; outcome = err kind }
  conclude early resp later = record { requests = []; outcome = ok resp }
  conclude accept resp later = later

  -- The loop over the chunks, with the answers of the transport and the last result.
  unfoldable pub send_blocks :
      ℕ → ℕ → ℕ → List Bytes → List (Option Message) → Outcome → Message → Sent
  unfolding judge block_request conclude
  send_blocks size idx counter [] answers result request = record {
    requests = [];
    outcome = result;
  }
  send_blocks size idx counter (elem ∷ rest) (some resp ∷ answers) result request =
      let more = is_some_next rest in
      elim (block_new idx more size) [
        | none ↦ record { requests = []; outcome = err ErrorKind.other }
        | some block ↦
            let m = block_request block counter elem request in
            let later = send_blocks size (idx + 1) (next_id counter) rest answers (ok resp) m in
            sent_before m (conclude (judge more block resp) resp later)
      ]
  send_blocks size idx counter (elem ∷ rest) _ result request =
      elim (block_new idx (is_some_next rest) size) [
        | none ↦ record { requests = []; outcome = err ErrorKind.other }
        | some block ↦
            sent_before (block_request block counter elem request)
              (record { requests = []; outcome = err ErrorKind.transport })
      ]

  abbrev pub single : Message → List (Option Message) → Sent
  single m [] = record { requests = m ∷ []; outcome = err ErrorKind.transport }
  single m (none ∷ _) = record { requests = m ∷ []; outcome = err ErrorKind.transport }
  single m (some resp ∷ _) = record { requests = m ∷ []; outcome = ok resp }

  -- `chunks` panics at the size 0.
  pub send_request : ℕ → ℕ → List (Option Message) → Message → Sent
  unfolding send_blocks chunks
  send_request block1_size counter answers request =
      if leb (length request.payload) block1_size
      then single
          (if request.message_id == 0 then record request { message_id = counter } else request)
          answers
      else if block1_size == 0
      then record { requests = []; outcome = panicked }
      else send_blocks block1_size 0 counter (chunks block1_size request.payload) answers
          (err ErrorKind.other) (record request { payload = [] })
