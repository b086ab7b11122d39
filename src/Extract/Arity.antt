-- ===== src/Extract/Arity.antt =====
-- src/router/extract/path/de.rs: a path that is deserialized to a tuple of parsed values.
use coap_rs.Common.{
  ℕ, suc, ◌≡◌, refl, none, some, List, [], ◌∷◌, ◌==◌, if◌then◌else◌, length, arith, Option-cases,
  inl, inr, Bool-cases,
}
use coap_rs.Common.Results.{Result, ok, err, Result-cases}
use coap_rs.Extract.{PathDeserializationError}
use coap_rs.Extract.Parameters.{
  Params, Failure, Parsers, Scalar, Call, Visitor, SeqAccess, deserialize, deserialize_path,
  deserialize_value, type_text, from_start,
}
use coap_rs.Extract.Access.{next_element, next_element_seed}

module _ (parsers : Parsers) where
  open parsers use {Value, parse}

  abbrev pub Typed : Type 0
  Typed = (s : Scalar) × Value s

  -- What a visitor makes of a tuple of parsed values: it takes an element for each of them. `short`
  -- is the failure where an element is missing.
  unfoldable pub read_values :
      (Scalar → Visitor parsers Typed)
      → Failure
      → List Scalar
      → SeqAccess
      → Result Failure (List Typed)
  unfolding next_element deserialize
  read_values visitors short [] a = ok []
  read_values visitors short (s ∷ ss) a =
      let (left, r) = next_element (deserialize parsers (visitors s) (Call.scalar s)) a in
      let rest = read_values visitors short ss left in
      elim r [
        | err e ↦ err e
        | ok none ↦ err short
        | ok (some v) ↦ elim rest [ err e ↦ err e | ok vs ↦ ok (v ∷ vs) ]
      ]

  -- The values of the parameters, from an index on, and the error of the first that does not parse.
  unfoldable pub values_of : ℕ → List Scalar → Params → Result Failure (List Typed)
  values_of n [] params = ok []
  values_of n (s ∷ ss) [] = ok []
  values_of n (s ∷ ss) ((k, text) ∷ params) =
      let rest = values_of (suc n) ss params in
      elim (parse s text) [
        | none ↦
            err
              (Failure.rejects (PathDeserializationError.parse_error_at_index n text (type_text s)))
        | some v ↦ elim rest [ err e ↦ err e | ok vs ↦ ok ((s, v) ∷ vs) ]
      ]

  read_values-values_of :
      (visitors : Scalar → Visitor parsers Typed) (short : Failure)
      (accepts : (s : Scalar) (v : Value s) → (visitors s).visit s v ≡ ok (s, v)) (n : ℕ)
      (ss : List Scalar) (params : Params)
      → length params ≡ length ss
      → read_values visitors short ss (SeqAccess.of_params (record { params = params; idx = n }))
        ≡ values_of n ss params
  unfolding read_values values_of next_element next_element_seed deserialize deserialize_value
  read_values-values_of visitors short accepts n [] params e = refl
  read_values-values_of visitors short accepts n (s ∷ ss) [] e = absurd (omega arith)
  read_values-values_of visitors short accepts n (s ∷ ss) ((k, text) ∷ params) e =
      let ih = read_values-values_of visitors short accepts (suc n) ss params (omega arith) in
      elim (Option-cases (parse s text)) [
        | inl bad ↦ ground arith
        | inr (v, good) ↦
            let taken = accepts s v in
            elim (Result-cases (values_of (suc n) ss params)) [
              | inl (vs, fine) ↦ ground (arith, ih, taken)
              | inr (x, stops) ↦ ground (arith, ih, taken)
            ]
      ]

  -- A path that is deserialized to a tuple of parsed values gives the values of its parameters, in
  -- order, where there are as many of them: the first that does not parse is an error that names its
  -- index, its text and the type. Otherwise both numbers are reported. It needs that a visitor of a
  -- tuple takes its elements in turn, and that the visitor of a value accepts it.
  pub deserialize_path-tuple :
      (visitors : Scalar → Visitor parsers Typed) (short : Failure) (ss : List Scalar)
      (visitor : Visitor parsers (List Typed)) (params : Params)
      → ((s : Scalar) (v : Value s) → (visitors s).visit s v ≡ ok (s, v))
      → ((a : SeqAccess) → visitor.visit_seq a ≡ read_values visitors short ss a)
      → deserialize_path parsers visitor (Call.tuple (length ss)) params ≡ (
          if length params == length ss
          then values_of 0 ss params
          else err (
              Failure.rejects
                (PathDeserializationError.wrong_number_of_parameters (length params) (length ss))))
  unfolding deserialize_path
  deserialize_path-tuple visitors short ss visitor params accepts reads =
      let read = reads (from_start parsers params) in
      let same = read_values-values_of visitors short accepts 0 ss params in
      elim (Bool-cases (length params == length ss)) [
        | inl equal ↦ ground (arith, read, same (ground arith))
        | inr other ↦ ground arith
      ]
