-- ===== src/Extract/Pairs.antt =====
-- src/router/extract/path/de.rs: a path that is deserialized to the list of its keys and values.
use coap_rs.Common.{
  ℕ, zero, suc, ◌<◌, ◌≡◌, refl, Option, none, some, List, [], ◌∷◌, Bytes, length, arith,
  Option-cases, inl, inr, ◌∙◌,
}
use coap_rs.Common.Results.{Result, ok, err, Result-cases}
use coap_rs.Extract.{PathDeserializationError}
use coap_rs.Extract.Parameters.{
  Params, Failure, KeyOrIdx, Parsers, Scalar, Call, Visitor, Deserializer, SeqAccess,
  SeqDeserializer, deserialize, deserialize_path, deserialize_value, deserialize_key, type_text,
}
use coap_rs.Extract.Access.{next_element, next_element_seed, next_of_pair}

-- What a visitor of a list makes of it, with a bound on the number of elements that it takes.
unfoldable pub read_all :
    {T : Type 0}
    → ℕ
    → (Deserializer → Result Failure T)
    → SeqAccess
    → Option (Result Failure (List T))
unfolding next_element
read_all zero seed a = none
read_all (suc n) seed a =
    let (left, r) = next_element seed a in
    let rest = read_all n seed left in
    elim r [
      | err e ↦ some (err e)
      | ok none ↦ some (ok [])
      | ok (some t) ↦ elim rest [
        | none ↦ none
        | some (err e) ↦ some (err e)
        | some (ok ts) ↦ some (ok (t ∷ ts))
      ]
    ]

-- What a visitor of a pair makes of it. `short` is the failure where an element is missing.
unfoldable pub read_pair :
    {K V : Type 0}
    → Failure
    → (Deserializer → Result Failure K)
    → (Deserializer → Result Failure V)
    → SeqAccess
    → Result Failure (K × V)
unfolding next_element
read_pair short first second a =
    let (left, r) = next_element first a in
    let (end, s) = next_element second left in
    elim r [
      | err e ↦ err e
      | ok none ↦ err short
      | ok (some k) ↦ elim s [ err e ↦ err e | ok none ↦ err short | ok (some v) ↦ ok (k, v) ]
    ]

module _ {T : Type 0} where
  -- The seed's results on the values at the indices from `n` on, up to the first failure.
  unfoldable pub elements_of :
      (Deserializer → Result Failure T) → ℕ → Params → Result Failure (List T)
  elements_of seed n [] = ok []
  elements_of seed n ((k, text) ∷ params) =
      let rest = elements_of seed (suc n) params in
      elim (seed (Deserializer.value_deserializer (some (KeyOrIdx.idx n k)) text)) [
        | err e ↦ err e
        | ok t ↦ elim rest [ err e ↦ err e | ok ts ↦ ok (t ∷ ts) ]
      ]

  read_all-elements_of :
      (seed : Deserializer → Result Failure T) (n fuel : ℕ) (params : Params)
      → length params < fuel
      → read_all fuel seed (SeqAccess.of_params (record { params = params; idx = n }))
        ≡ some (elements_of seed n params)
  unfolding read_all elements_of next_element next_element_seed
  read_all-elements_of seed n zero params enough = absurd (omega arith)
  read_all-elements_of seed n (suc fuel) [] enough = refl
  read_all-elements_of seed n (suc fuel) ((k, text) ∷ params) enough =
      let ih = read_all-elements_of seed (suc n) fuel params (omega arith) in
      elim (Result-cases (seed (Deserializer.value_deserializer (some (KeyOrIdx.idx n k)) text))) [
        | inr (e, stops) ↦ ground arith
        | inl (t, good) ↦ elim (Result-cases (elements_of seed (suc n) params)) [
          | inr (e, later) ↦ ground (arith, ih)
          | inl (ts, fine) ↦ ground (arith, ih)
        ]
      ]

module _ (parsers : Parsers) (s : Scalar) where
  open parsers use {Value, parse}

  -- The keys and values of the parameters, and the error of the first value that does not parse.
  unfoldable pub entries_of : Params → Result Failure (List (Bytes × Value s))
  entries_of [] = ok []
  entries_of ((k, text) ∷ params) =
      let rest = entries_of params in
      elim (parse s text) [
        | none ↦ err (Failure.rejects (PathDeserializationError.parse_error text (type_text s)))
        | some v ↦ elim rest [ err e ↦ err e | ok vs ↦ ok ((k, v) ∷ vs) ]
      ]

  module _ (keys : Visitor parsers Bytes) (values : Visitor parsers (Value s))
      (pairs : Visitor parsers (Bytes × Value s)) (short : Failure)
      (copies : (text : Bytes) → keys.visit_str text ≡ ok text)
      (accepts : (v : Value s) → values.visit s v ≡ ok v)
      (reads : (a : SeqAccess)
        → pairs.visit_seq a
          ≡ read_pair short
              (deserialize parsers keys (Call.scalar Scalar.string))
              (deserialize parsers values (Call.scalar s))
              a) where
    elements_of-entries_of :
        (n : ℕ) (params : Params)
        → elements_of (deserialize parsers pairs (Call.tuple 2)) n params ≡ entries_of params
    unfolding elements_of entries_of deserialize deserialize_value read_pair next_element
        next_of_pair deserialize_key
    elements_of-entries_of n [] = refl
    elements_of-entries_of n ((k, text) ∷ params) =
        let ih = elements_of-entries_of (suc n) params in
        let taken =
          reads (SeqAccess.of_pair (record { key = some (KeyOrIdx.idx n k); value = some text })) in
        let copied = copies k in
        elim (Option-cases (parse s text)) [
          | inl bad ↦ ground (arith, taken, copied)
          | inr (v, good) ↦
              let got = accepts v in
              elim (Result-cases (entries_of params)) [
                | inr (e, later) ↦ ground (arith, taken, copied, got, ih)
                | inl (vs, fine) ↦ ground (arith, taken, copied, got, ih)
              ]
        ]

    -- A path that is deserialized to a list of pairs of a text and a parsed value gives the keys and
    -- values of its parameters, in order, whatever their number; the first value that does not parse
    -- is an error with its text and the type. It needs that the visitors of texts and values accept
    -- them, that the visitor of a pair takes two elements and that the visitor of a list takes
    -- elements until there is none.
    pub deserialize_path-pairs :
        (visitor : Visitor parsers (List (Bytes × Value s))) (params : Params)
        → ((a : SeqDeserializer) (fuel : ℕ) (r : Result Failure (List (Bytes × Value s)))
            → read_all fuel (deserialize parsers pairs (Call.tuple 2)) (SeqAccess.of_params a)
              ≡ some r
            → visitor.visit_seq (SeqAccess.of_params a) ≡ r)
        → deserialize_path parsers visitor Call.seq params ≡ entries_of params
    unfolding deserialize_path
    deserialize_path-pairs visitor params lists =
        let seed = deserialize parsers pairs (Call.tuple 2) in
        lists (record { params = params; idx = 0 }) (suc (length params))
          (elements_of seed 0 params)
          (read_all-elements_of seed 0 (suc (length params)) params (omega arith))
        ∙ elements_of-entries_of 0 params

module _ (parsers : Parsers) {V : Type 0} where
  open parsers use {Value, parse}

  -- A path with a parameter that is deserialized to a list of pairs of a text and a pair does not
  -- return: the second element of the outer pair has neither key nor index, which is held to be
  -- unreachable. It needs that the visitor of texts accepts them, that the visitor of the outer pair
  -- takes two elements and that the visitor of a list takes elements until there is none.
  pub deserialize_path-nested :
      (keys : Visitor parsers Bytes) (inner : Visitor parsers V)
      (pairs : Visitor parsers (Bytes × V)) (visitor : Visitor parsers (List (Bytes × V)))
      (short : Failure) (k text : Bytes) (params : Params)
      → keys.visit_str k ≡ ok k
      → ((a : SeqAccess)
          → pairs.visit_seq a
            ≡ read_pair short
                (deserialize parsers keys (Call.scalar Scalar.string))
                (deserialize parsers inner (Call.tuple 2))
                a)
      → ((a : SeqDeserializer) (fuel : ℕ) (r : Result Failure (List (Bytes × V)))
          → read_all fuel (deserialize parsers pairs (Call.tuple 2)) (SeqAccess.of_params a)
            ≡ some r
          → visitor.visit_seq (SeqAccess.of_params a) ≡ r)
      → deserialize_path parsers visitor Call.seq ((k, text) ∷ params) ≡ err Failure.panics
  unfolding deserialize_path read_all deserialize deserialize_value read_pair next_element
      next_element_seed next_of_pair deserialize_key
  deserialize_path-nested keys inner pairs visitor short k text params copied reads lists =
      let taken =
        reads (SeqAccess.of_pair (record { key = some (KeyOrIdx.idx 0 k); value = some text })) in
      lists (record { params = (k, text) ∷ params; idx = 0 }) 1 (err Failure.panics)
        (ground (arith, taken, copied))
