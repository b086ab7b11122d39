-- ===== src/Client/Upload/Chunks.antt =====
-- src/client.rs: the chunks of a payload are its consecutive parts.
use coap_rs.Common.{
  ℕ, zero, suc, ◌≤◌, ◌<◌, ◌≡◌, refl, List, [], ◌∷◌, ◌++◌, Bytes, length, take, drop,
  take-append-drop, length-take_le, length-drop, arith, ◌∙◌, ap,
}
use coap_rs.Client.Upload.{chunks_from, chunks}

pub join : List Bytes → Bytes
join [] = []
join (c ∷ cs) = c ++ join cs

-- Each chunk has at most `size` bytes, and at least one.
abbrev pub Fit : ℕ → List Bytes → Type 0
Fit size [] = Unit
Fit size (c ∷ cs) = (length c ≤ size) × (1 ≤ length c) × Fit size cs

chunks_from-join :
    (rounds size : ℕ) (payload : Bytes)
    → 0 < size
    → length payload ≤ rounds
    → join (chunks_from rounds size payload) ≡ payload
unfolding chunks_from join
chunks_from-join zero size [] p h = refl
chunks_from-join zero size (b ∷ payload) p h = absurd (omega arith)
chunks_from-join (suc rounds) size [] p h = refl
chunks_from-join (suc rounds) size (b ∷ payload) p h =
    ap (◌++◌ (take size (b ∷ payload))) (
      chunks_from-join rounds size (drop size (b ∷ payload)) p
        (omega (arith, length-drop size (b ∷ payload))))
    ∙ take-append-drop size (b ∷ payload)

chunks_from-Fit :
    (rounds size : ℕ) (payload : Bytes) → 0 < size → Fit size (chunks_from rounds size payload)
unfolding chunks_from
chunks_from-Fit zero size payload p = tt
chunks_from-Fit (suc rounds) size [] p = tt
chunks_from-Fit (suc rounds) zero (b ∷ payload) p = absurd (omega arith)
chunks_from-Fit (suc rounds) (suc size) (b ∷ payload) p = (
  length-take_le (suc size) (b ∷ payload),
  omega arith,
  chunks_from-Fit rounds (suc size) (drop (suc size) (b ∷ payload)) p,
)

-- The chunks of a payload are not empty, have at most `size` bytes, and join to the payload.
pub chunks_lem :
    (size : ℕ) (payload : Bytes)
    → 0 < size
    → (join (chunks size payload) ≡ payload) × Fit size (chunks size payload)
unfolding chunks
chunks_lem size payload p = (
  chunks_from-join (length payload) size payload p (omega arith),
  chunks_from-Fit (length payload) size payload p,
)
