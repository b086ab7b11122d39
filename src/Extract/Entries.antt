-- ===== src/Extract/Entries.antt =====
-- src/router/extract/path/de.rs: a path that is deserialized to a map of parsed values.
use coap_rs.Common.{
  ℕ, zero, suc, ◌<◌, ◌≡◌, refl, Option, none, some, List, [], ◌∷◌, Bytes, length, arith,
  Option-cases, inl, inr,
}
use coap_rs.Common.Results.{Result, ok, err, Result-cases}
use coap_rs.Extract.{PathDeserializationError}
use coap_rs.Extract.Parameters.{
  Params, Failure, KeyOrIdx, Parsers, Scalar, Call, Visitor, Deserializer, MapDeserializer,
  deserialize, deserialize_path, deserialize_value, deserialize_key, type_text, start_map,
}
use coap_rs.Extract.Access.{next_key_seed, next_value_seed}

-- What a visitor of a map makes of it, with a bound on the number of keys that it takes.
unfoldable pub read_map :
    {K V : Type 0}
    → ℕ
    → (Deserializer → Result Failure K)
    → (Deserializer → Result Failure V)
    → MapDeserializer
    → Option (Result Failure (List (K × V)))
unfolding next_key_seed next_value_seed
read_map zero keys values m = none
read_map (suc n) keys values m =
    let (held, r) = next_key_seed keys m in
    let (left, s) = next_value_seed values held in
    let rest = read_map n keys values left in
    elim r [
      | err e ↦ some (err e)
      | ok none ↦ some (ok [])
      | ok (some k) ↦ elim s [
        | err e ↦ some (err e)
        | ok v ↦ elim rest [
          | none ↦ none
          | some (err e) ↦ some (err e)
          | some (ok es) ↦ some (ok ((k, v) ∷ es))
        ]
      ]
    ]

module _ (parsers : Parsers) (s : Scalar) where
  open parsers use {Value, parse}

  -- The keys and values of the parameters, and the error of the first value that does not parse.
  unfoldable pub fields_of : Params → Result Failure (List (Bytes × Value s))
  fields_of [] = ok []
  fields_of ((k, text) ∷ params) =
      let rest = fields_of params in
      elim (parse s text) [
        | none ↦
            err (Failure.rejects (PathDeserializationError.parse_error_at_key k text (type_text s)))
        | some v ↦ elim rest [ err e ↦ err e | ok vs ↦ ok ((k, v) ∷ vs) ]
      ]

  module _ (keys : Visitor parsers Bytes) (values : Visitor parsers (Value s))
      (copies : (text : Bytes) → keys.visit_str text ≡ ok text)
      (accepts : (v : Value s) → values.visit s v ≡ ok v) where
    read_map-fields_of :
        (fuel : ℕ) (params : Params) (k : Option KeyOrIdx) (v : Option Bytes)
        → length params < fuel
        → read_map fuel
            (deserialize parsers keys (Call.scalar Scalar.string))
            (deserialize parsers values (Call.scalar s))
            (record { params = params; key = k; value = v })
          ≡ some (fields_of params)
    unfolding read_map fields_of next_key_seed next_value_seed deserialize deserialize_value
        deserialize_key
    read_map-fields_of zero params k v enough = absurd (omega arith)
    read_map-fields_of (suc fuel) [] k v enough = refl
    read_map-fields_of (suc fuel) ((k, text) ∷ params) before held enough =
        let ih = read_map-fields_of fuel params none none (omega arith) in
        let copied = copies k in
        elim (Option-cases (parse s text)) [
          | inl bad ↦ ground (arith, copied)
          | inr (v, good) ↦
              let got = accepts v in
              elim (Result-cases (fields_of params)) [
                | inr (e, later) ↦ ground (arith, copied, got, ih)
                | inl (vs, fine) ↦ ground (arith, copied, got, ih)
              ]
        ]

    -- A path that is deserialized to a map of parsed values gives the keys and values of its
    -- parameters, in order, whatever their number; the first value that does not parse is an error
    -- that names its key, its text and the type. It needs that the visitors of texts and values
    -- accept them and that the visitor of a map takes keys, each with its value, until there is none.
    pub deserialize_path-map :
        (visitor : Visitor parsers (List (Bytes × Value s))) (params : Params)
        → ((m : MapDeserializer) (fuel : ℕ) (r : Result Failure (List (Bytes × Value s)))
            → read_map fuel
                (deserialize parsers keys (Call.scalar Scalar.string))
                (deserialize parsers values (Call.scalar s))
                m
              ≡ some r
            → visitor.visit_map m ≡ r)
        → deserialize_path parsers visitor Call.map params ≡ fields_of params
    unfolding deserialize_path
    deserialize_path-map visitor params maps =
        maps (start_map parsers params) (suc (length params)) (fields_of params)
          (read_map-fields_of (suc (length params)) params none none (omega arith))
