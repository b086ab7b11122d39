-- ===== src/Client/Upload/Delivery.antt =====
-- src/client.rs: what `send_request` has handed to the transport when it returns.
use coap_rs.Common.{
  ℕ, ◌+◌, ◌≡◌, refl, Bool, true, false, Option, none, some, List, [], ◌∷◌, ◌++◌, Bytes, arith, ap,
  Option-cases, inl, inr,
}
use coap_rs.Coap.{Block}
use coap_rs.Client.{Message, Codec, Outcome, ok, first, next_id}
use coap_rs.Client.Upload.{
  is_continue, is_some_next, Verdict, reject, early, accept, judge_block, judge, Sent,
  block_request, conclude, send_blocks,
}

-- An accepted answer acknowledges the number that was sent, and is a 2.31 Continue just if more
-- blocks follow.
pub judge-accept :
    (more : Bool) (block : Block) (resp : Message)
    → judge more block resp ≡ accept
    → (answered : Block) × (first resp.block1 ≡ some (some answered))
      × (answered.num ≡ block.num)
      × (is_continue resp.code ≡ more)
unfolding judge judge_block
judge-accept more block resp e = elim (Option-cases (first resp.block1)) [
  | inl missing ↦ absurd (ground arith)
  | inr (none, bad) ↦ absurd (ground arith)
  | inr (some answered, good) ↦ (answered, good, ground arith, ground arith)
]

judge-early :
    (more : Bool) (block : Block) (resp : Message)
    → judge more block resp ≡ early
    → (more ≡ true) × (is_continue resp.code ≡ false)
unfolding judge judge_block
judge-early more block resp e = ground arith

abbrev pub payloads : List Message → List Bytes
payloads [] = []
payloads (m ∷ ms) = m.payload ∷ payloads ms

module _ (codec : Codec) (size : ℕ) where
  open codec use {block_new}

  -- The payloads of some requests are a first part of the chunks.
  abbrev Carries : List Message → List Bytes → Type 0
  Carries ms cs = (rest : List Bytes) × (payloads ms ++ rest ≡ cs)

  conclude-Carries :
      (v : Verdict) (resp : Message) (later : Sent) (cs : List Bytes)
      → Carries later.requests cs
      → Carries (conclude codec v resp later).requests cs
  unfolding conclude
  conclude-Carries (reject kind) resp later cs h = (cs, refl)
  conclude-Carries early resp later cs h = (cs, refl)
  conclude-Carries accept resp later cs h = h

  Carries-cons :
      (m : Message) (ms : List Message) (cs : List Bytes)
      → Carries ms cs
      → Carries (m ∷ ms) (m.payload ∷ cs)
  Carries-cons m ms cs (rest, e) = (rest, ap (◌∷◌ m.payload) e)

  -- The requests carry a first part of the chunks, in order.
  pub send_blocks-Carries :
      (cs : List Bytes) (idx counter : ℕ) (answers : List (Option Message)) (result : Outcome)
      (request : Message)
      → Carries (send_blocks codec size idx counter cs answers result request).requests cs
  unfolding send_blocks block_request
  send_blocks-Carries [] idx counter answers result request = ([], refl)
  send_blocks-Carries (c ∷ cs) idx counter (some resp ∷ answers) result request =
      elim (Option-cases (block_new idx (is_some_next cs) size)) [
        | inl bad ↦ (c ∷ cs, ground arith)
        | inr (block, good) ↦
            let m = block_request codec block counter c request in
            let later = send_blocks codec size (idx + 1) (next_id counter) cs answers (ok resp) m in
            let ih = send_blocks-Carries cs (idx + 1) (next_id counter) answers (ok resp) m in
            let v = judge (is_some_next cs) block resp in
            let (rest, e) = conclude-Carries v resp later cs ih in (rest, ground (arith, good, e))
      ]
  send_blocks-Carries (c ∷ cs) idx counter _ result request =
      elim (Option-cases (block_new idx (is_some_next cs) size)) [
        | inl bad ↦ (c ∷ cs, ground arith)
        | inr (block, good) ↦ (cs, ground arith)
      ]

  conclude-ok :
      (more : Bool) (block : Block) (resp answer : Message) (later : Sent)
      → (more ≡ true → later.outcome ≡ ok answer → is_continue answer.code ≡ false)
      → (more ≡ false → later.outcome ≡ ok resp)
      → (conclude codec (judge more block resp) resp later).outcome ≡ ok answer
      → is_continue answer.code ≡ false
  unfolding conclude
  conclude-ok more block resp answer later if_more if_last e =
      grind (arith, judge-accept more block resp, judge-early more block resp)

  -- A transfer never returns 2.31 Continue to its caller.
  pub send_blocks-final :
      (c : Bytes) (cs : List Bytes) (idx counter : ℕ) (answers : List (Option Message))
      (result : Outcome) (request answer : Message)
      → (send_blocks codec size idx counter (c ∷ cs) answers result request).outcome ≡ ok answer
      → is_continue answer.code ≡ false
  unfolding send_blocks block_request
  send_blocks-final c [] idx counter (some resp ∷ answers) result request answer e =
      elim (Option-cases (block_new idx false size)) [
        | inl bad ↦ absurd (ground arith)
        | inr (block, good) ↦
            conclude-ok false block resp answer (record { requests = []; outcome = ok resp })
              (λ h. absurd (ground arith)) (λ _. refl) (ground arith)
      ]
  send_blocks-final c (d ∷ cs) idx counter (some resp ∷ answers) result request answer e =
      elim (Option-cases (block_new idx true size)) [
        | inl bad ↦ absurd (ground arith)
        | inr (block, good) ↦
            let m = block_request codec block counter c request in
            conclude-ok true block resp answer
              (send_blocks codec size (idx + 1) (next_id counter) (d ∷ cs) answers (ok resp) m)
              (λ _. send_blocks-final d cs (idx + 1) (next_id counter) answers (ok resp) m answer)
              (λ h. absurd (ground arith)) (ground arith)
      ]
  send_blocks-final c cs idx counter _ result request answer e = absurd (ground arith)
