-- ===== src/Edhoc/Responder/Identifiers.antt =====
-- src/edhoc/mod.rs: the connection identifier that a Responder chooses, and how many sessions can be
-- pending at once.
use mathlib.Core.Path.{subst}
use coap_rs.Common.{
  ℕ, zero, suc, ◌+◌, ◌%◌, ◌≤◌, ◌≡◌, refl, ◌≢◌, ◌⊎◌, inl, inr, true, false, Option, none, some, List,
  [], ◌∷◌, ◌++◌, Bytes, bytes_same, bytes_key, lookup, contains, erase, length, length-append,
  if_pos, if_neg, arith, All, All-mono, IsUnique, contains-erase, Option-cases, Bool-cases,
}
use coap_rs.Common.Results.{Result, ok, err}
use coap_rs.Edhoc.{EdhocError, no_connection_identifier_available}
use coap_rs.Edhoc.Responder.{
  Lakers, PendingSession, parse_ids, keep_free, is_free, pick, choose, count_up,
  allocate_connection_identifier,
}

length-erase_le : (k : Bytes) (xs : List Bytes) → length (erase k xs) ≤ length xs
unfolding erase
length-erase_le k [] = omega arith
length-erase_le k (x ∷ xs) = ground (arith, length-erase_le k xs)

-- A list of distinct keys that all stand in another list is not longer.
length-erase :
    (k : Bytes) (xs : List Bytes) → contains k xs ≡ true → length (erase k xs) + 1 ≤ length xs
unfolding contains erase
length-erase k [] h = absurd (cc)
length-erase k (x ∷ xs) h = elim (bytes_same x k) [
  | yes p ↦ rw (if_pos _ p) (omega (arith, length-erase_le k xs))
  | no p ↦ rw (if_neg _ p) (omega (arith, length-erase k xs (ground arith)))
]

module _ (lakers : Lakers) where
  open lakers use {ConnId, Error, as_slice, conn_id}

  -- An identifier that the choice may take.
  abbrev pub IsFree : List (Bytes × PendingSession lakers) → ConnId → ConnId → Type 0
  IsFree pending c_i c_r = (as_slice c_r ≢ as_slice c_i) × (lookup (as_slice c_r) pending ≡ none)

  -- The slices of the identifiers of one byte.
  abbrev pub slices : List ConnId → List Bytes
  slices [] = []
  slices (c ∷ cs) = as_slice c ∷ slices cs

  is_free-IsFree :
      (pending : List (Bytes × PendingSession lakers)) (c_i c : ConnId)
      → is_free lakers pending c_i c ≡ true
      → IsFree pending c_i c
  is_free-IsFree pending c_i c h = ground arith

  -- Every identifier of the list is the Initiator's or taken.
  abbrev pub IsTaken : List (Bytes × PendingSession lakers) → ConnId → ConnId → Type 0
  IsTaken pending c_i c_r = (as_slice c_r ≡ as_slice c_i) ⊎ (lookup (as_slice c_r) pending ≢ none)

  is_free-IsTaken :
      (pending : List (Bytes × PendingSession lakers)) (c_i c : ConnId)
      → is_free lakers pending c_i c ≡ false
      → IsTaken pending c_i c
  is_free-IsTaken pending c_i c h = ground arith

  keep_free-IsFree :
      (pending : List (Bytes × PendingSession lakers)) (c_i : ConnId) (ids : List ConnId)
      → All
          (λ c. IsFree pending c_i c × (contains (as_slice c) (slices ids) ≡ true))
          (keep_free lakers pending c_i ids)
  unfolding keep_free contains
  keep_free-IsFree pending c_i [] = tt
  keep_free-IsFree pending c_i (c ∷ ids) =
      let rest =
        All-mono _ (λ d. IsFree pending c_i d × (contains (as_slice d) (slices (c ∷ ids)) ≡ true))
          (keep_free lakers pending c_i ids) (λ d h. (h.0, ground (arith, h.1)))
          (keep_free-IsFree pending c_i ids) in
      elim (Bool-cases (is_free lakers pending c_i c)) [
        | inl free ↦ rw (keep_free, free) ((is_free-IsFree pending c_i c free, ground arith), rest)
        | inr taken ↦ rw (keep_free, taken) rest
      ]

  keep_free-IsTaken :
      (pending : List (Bytes × PendingSession lakers)) (c_i : ConnId) (ids : List ConnId)
      → keep_free lakers pending c_i ids ≡ []
      → All (IsTaken pending c_i) ids
  unfolding keep_free
  keep_free-IsTaken pending c_i [] e = tt
  keep_free-IsTaken pending c_i (c ∷ ids) e = elim (Bool-cases (is_free lakers pending c_i c)) [
    | inl free ↦ absurd (ground arith)
    | inr taken ↦
        (is_free-IsTaken pending c_i c taken, keep_free-IsTaken pending c_i ids (ground arith))
  ]

  pick-All :
      (P : ConnId → Type 0) (c : ConnId) (cs : List ConnId) (n : ℕ)
      → P c
      → All P cs
      → P (pick lakers c cs n)
  pick-All P c [] n h hs = h
  pick-All P c (d ∷ cs) zero h hs = h
  pick-All P c (d ∷ cs) (suc n) h (k, hs) = pick-All P d cs n k hs

  -- What a choice from the identifiers comes to.
  abbrev pub IsChosen :
      List ConnId
      → List (Bytes × PendingSession lakers)
      → ConnId
      → Result (EdhocError Error) ConnId
      → Type 0
  IsChosen ids pending c_i (ok c_r) =
      IsFree pending c_i c_r × (contains (as_slice c_r) (slices ids) ≡ true)
  IsChosen ids pending c_i (err e) =
      (e ≡ no_connection_identifier_available) × All (IsTaken pending c_i) ids

  choose-IsChosen :
      (draw : ℕ) (ids : List ConnId) (pending : List (Bytes × PendingSession lakers)) (c_i : ConnId)
      (free : List ConnId)
      → keep_free lakers pending c_i ids ≡ free
      → IsChosen ids pending c_i (choose lakers draw free)
  unfolding choose
  choose-IsChosen draw ids pending c_i [] e = (refl, keep_free-IsTaken pending c_i ids e)
  choose-IsChosen draw ids pending c_i (c ∷ cs) e =
      let (h, hs) =
        subst (λ l. All (λ d. IsFree pending c_i d × (contains (as_slice d) (slices ids) ≡ true)) l)
          e (keep_free-IsFree pending c_i ids) in
      pick-All (λ d. IsFree pending c_i d × (contains (as_slice d) (slices ids) ≡ true)) c cs
        (draw % length (c ∷ cs)) h hs

  length-parse_ids :
      (raws : List ℕ) (ids : List ConnId)
      → parse_ids lakers raws ≡ some ids
      → length ids ≡ length raws
  unfolding parse_ids
  length-parse_ids [] ids e = ground arith
  length-parse_ids (raw ∷ raws) ids e = elim (Option-cases (conn_id (raw ∷ []))) [
    | inl bad ↦ absurd (ground arith)
    | inr ((c, left), good) ↦ elim (Option-cases (parse_ids lakers raws)) [
      | inl worse ↦ absurd (ground arith)
      | inr (cs, fine) ↦ ground (arith, length-parse_ids raws cs fine)
    ]
  ]

  -- The identifiers of one byte.
  abbrev pub one_byte_ids : Option (List ConnId)
  one_byte_ids = parse_ids lakers (count_up 0x00 24 ++ count_up 0x20 24)

  length-count_up : (first n : ℕ) → length (count_up first n) ≡ n
  unfolding count_up
  length-count_up first zero = refl
  length-count_up first (suc n) = omega (arith, length-count_up (suc first) n)

  pub length-one_byte_ids : (ids : List ConnId) → one_byte_ids ≡ some ids → length ids ≡ 48
  length-one_byte_ids ids e = omega (
    arith,
    length-parse_ids (count_up 0x00 24 ++ count_up 0x20 24) ids e,
    length-append (count_up 0x00 24) (count_up 0x20 24),
    length-count_up 0x00 24,
    length-count_up 0x20 24,
  )

  -- A connection identifier that is allocated is one of the 48 of one byte, differs from the
  -- Initiator's and belongs to no pending session; where none is allocated, each of the 48 is the
  -- Initiator's or belongs to a pending session. The allocation does not panic where each of the
  -- bytes decodes.
  pub allocate_connection_identifier_lem :
      (draw : ℕ) (pending : List (Bytes × PendingSession lakers)) (c_i : ConnId) (ids : List ConnId)
      → one_byte_ids ≡ some ids
      → (length ids ≡ 48)
        × ((r : Result (EdhocError Error) ConnId) × (allocate_connection_identifier lakers draw
                pending c_i
              ≡ some r)
            × IsChosen ids pending c_i r)
  unfolding allocate_connection_identifier
  allocate_connection_identifier_lem draw pending c_i ids e = (
    length-one_byte_ids ids e,
    (
      choose lakers draw (keep_free lakers pending c_i ids),
      rw e refl,
      choose-IsChosen draw ids pending c_i (keep_free lakers pending c_i ids) refl,
    ),
  )

  -- Distinct keys that all stand in a list are not more than its length.
  pub length-distinct :
      (m : List (Bytes × PendingSession lakers)) (xs : List Bytes)
      → IsUnique m
      → ((k : Bytes) → lookup k m ≢ none → contains k xs ≡ true)
      → length m ≤ length xs
  unfolding lookup
  length-distinct [] xs u h = omega arith
  length-distinct ((k, v) ∷ m) xs (fresh, u) h =
      let here = h k (ground arith) in
      omega (
        arith,
        length-erase k xs here,
        length-distinct m (erase k xs) u (λ j there. elim (bytes_same k j) [
          | yes same ↦ absurd (there (rw⁻¹ same fresh))
          | no differ ↦ grind (arith, contains-erase, h j)
        ]),
      )
