-- ===== src/Tests/Extractors.antt =====
-- src/router/extract: the theorems on paths of one or two parameters, whose values are single bytes.
use Prim.Native.Nat.{ℕ}
use coap_rs.Common.{
  ◌≡◌, refl, Option, none, some, List, [], ◌∷◌, Bytes, arith, ascii, zero, suc, Option-cases, inl,
  inr,
}
use coap_rs.Common.Results.{Result, ok, err, Result-cases}
use coap_rs.Coap.{Status, Method}
use coap_rs.Router.{Request, Response, fill_response, status_text}
use coap_rs.Extract.{PathDeserializationError}
use coap_rs.Extract.Tuples.{
  Extractors, unit, next, from_request, call, into_response, call-from_request,
}
use coap_rs.Extract.Parameters.{
  Params, Failure, Parsers, Scalar, Call, Visitor, Deserializer, SeqAccess, KeyOrIdx, deserialize,
  deserialize_path, deserialize_value, deserialize_key,
}
use coap_rs.Extract.Access.{next_element, next_element_seed, next_key_seed, next_value_seed}
use coap_rs.Extract.Arity.{Typed, read_values, values_of, deserialize_path-tuple}
use coap_rs.Extract.Pairs.{
  read_all, read_pair, elements_of, entries_of, deserialize_path-pairs, deserialize_path-nested,
}
use coap_rs.Extract.Entries.{read_map, fields_of, deserialize_path-map}

abbrev one_byte : Bytes → Option ℕ
one_byte (b ∷ []) = some b
one_byte _ = none

abbrev parsers : Parsers
parsers = record { Value = λ s. ℕ; parse = λ s text. one_byte text }

abbrev short : Failure
short = Failure.rejects (PathDeserializationError.message (ascii "invalid length"))

-- A visitor that accepts nothing.
abbrev closed : (V : Type 0) → Visitor parsers V
closed V = record {
  type_name = ascii "V";
  visit = λ s v. err short;
  visit_borrowed_str = λ text. err short;
  visit_str = λ text. err short;
  visit_borrowed_bytes = λ text. err short;
  visit_unit = err short;
  visit_some = λ d. err short;
  visit_newtype_struct = λ d. err short;
  visit_seq = λ a. err short;
  visit_map = λ m. err short;
  visit_enum = λ text. err short;
}

abbrev typed : Scalar → Visitor parsers (Typed parsers)
typed s = record (closed (Typed parsers)) { visit = λ t v. ok (t, v) }

abbrev both : List Scalar
both = Scalar.u8 ∷ Scalar.char ∷ []

abbrev tuples : Visitor parsers (List (Typed parsers))
tuples = record (closed (List (Typed parsers))) {
  visit_seq = λ a. read_values parsers typed short both a;
}

abbrev path : Params
path = (ascii "id", 7 ∷ []) ∷ (ascii "to", ascii "x") ∷ []

deserialize_path-tuple_example :
    deserialize_path parsers tuples (Call.tuple 2) path ≡ values_of parsers 0 both path
deserialize_path-tuple_example =
    deserialize_path-tuple parsers typed short both tuples path (λ s v. refl) (λ a. refl)

abbrev texts : Visitor parsers Bytes
texts = record (closed Bytes) { visit_str = λ text. ok text }

abbrev numbers : Visitor parsers ℕ
numbers = record (closed ℕ) { visit = λ s v. ok v }

abbrev pairs : Visitor parsers (Bytes × ℕ)
pairs = record (closed (Bytes × ℕ)) {
  visit_seq = λ a.
      read_pair short (deserialize parsers texts (Call.scalar Scalar.string))
        (deserialize parsers numbers (Call.scalar Scalar.u8)) a;
}

abbrev nested : Visitor parsers (Bytes × (Bytes × ℕ))
nested = record (closed (Bytes × (Bytes × ℕ))) {
  visit_seq = λ a.
      read_pair short (deserialize parsers texts (Call.scalar Scalar.string))
        (deserialize parsers pairs (Call.tuple 2)) a;
}

module _ {T : Type 0} (seed : Deserializer → Result Failure T) where
  abbrev list_of : SeqAccess → Result Failure (List T)
  list_of (SeqAccess.of_params a) = elements_of seed a.idx a.params
  list_of (SeqAccess.of_pair p) = err short

  -- What is read with some bound on the number of elements is read with any.
  read_all-list_of :
      (fuel n : ℕ) (params : Params) (r : Result Failure (List T))
      → read_all fuel seed (SeqAccess.of_params (record { params = params; idx = n })) ≡ some r
      → elements_of seed n params ≡ r
  unfolding read_all elements_of next_element next_element_seed
  read_all-list_of zero n params r e = absurd (ground (arith, e))
  read_all-list_of (suc fuel) n [] r e = ground (arith, e)
  read_all-list_of (suc fuel) n ((k, text) ∷ params) r e =
      elim (Result-cases (seed (Deserializer.value_deserializer (some (KeyOrIdx.idx n k)) text))) [
        | inr (x, stops) ↦ ground arith
        | inl (t, good) ↦
            elim (Option-cases (
              read_all fuel seed (SeqAccess.of_params (record { params = params; idx = suc n })))) [
                | inl out ↦ absurd (ground arith)
                | inr (q, later) ↦
                    let ih = read_all-list_of fuel (suc n) params q later in
                    elim (Result-cases q) [
                      | inl (ts, fine) ↦ ground arith
                      | inr (x, stops) ↦ ground arith
                    ]
              ]
      ]

abbrev lists : Visitor parsers (List (Bytes × ℕ))
lists = record (closed (List (Bytes × ℕ))) {
  visit_seq = list_of (deserialize parsers pairs (Call.tuple 2));
}

abbrev nested_lists : Visitor parsers (List (Bytes × (Bytes × ℕ)))
nested_lists = record (closed (List (Bytes × (Bytes × ℕ)))) {
  visit_seq = list_of (deserialize parsers nested (Call.tuple 2));
}

deserialize_path-pairs_example :
    deserialize_path parsers lists Call.seq path ≡ entries_of parsers Scalar.u8 path
deserialize_path-pairs_example =
    deserialize_path-pairs parsers Scalar.u8 texts numbers pairs short (λ text. refl) (λ v. refl)
      (λ a. refl) lists path
      (λ a fuel r e.
        read_all-list_of (deserialize parsers pairs (Call.tuple 2)) fuel a.idx a.params r e)

deserialize_path-nested_example :
    deserialize_path parsers nested_lists Call.seq path ≡ err Failure.panics
deserialize_path-nested_example =
    deserialize_path-nested parsers texts pairs nested nested_lists short (ascii "id") (7 ∷ [])
      ((ascii "to", ascii "x") ∷ []) refl (λ a. refl)
      (λ a fuel r e.
        read_all-list_of (deserialize parsers nested (Call.tuple 2)) fuel a.idx a.params r e)

abbrev texts_of : Deserializer → Result Failure Bytes
texts_of d = deserialize parsers texts (Call.scalar Scalar.string) d

abbrev numbers_of : Deserializer → Result Failure ℕ
numbers_of d = deserialize parsers numbers (Call.scalar Scalar.u8) d

read_map-fields :
    (fuel : ℕ) (params : Params) (k : Option KeyOrIdx) (v : Option Bytes)
    (r : Result Failure (List (Bytes × ℕ)))
    → read_map fuel texts_of numbers_of (record { params = params; key = k; value = v }) ≡ some r
    → fields_of parsers Scalar.u8 params ≡ r
unfolding read_map fields_of next_key_seed next_value_seed deserialize deserialize_value
    deserialize_key
read_map-fields zero params k v r e = absurd (ground (arith, e))
read_map-fields (suc fuel) [] k v r e = ground (arith, e)
read_map-fields (suc fuel) ((j, text) ∷ params) k v r e = elim (Option-cases (one_byte text)) [
  | inl bad ↦ ground arith
  | inr (b, good) ↦
      elim (Option-cases (
        read_map fuel texts_of numbers_of (record { params = params; key = none; value = none }))) [
          | inl out ↦ absurd (ground arith)
          | inr (q, later) ↦
              let ih = read_map-fields fuel params none none q later in
              elim (Result-cases q) [
                | inl (ts, fine) ↦ ground arith
                | inr (x, stops) ↦ ground arith
              ]
        ]
]

abbrev maps : Visitor parsers (List (Bytes × ℕ))
maps = record (closed (List (Bytes × ℕ))) { visit_map = λ m. fields_of parsers Scalar.u8 m.params }

deserialize_path-map_example :
    deserialize_path parsers maps Call.map path ≡ fields_of parsers Scalar.u8 path
deserialize_path-map_example =
    deserialize_path-map parsers Scalar.u8 texts numbers (λ text. refl) (λ v. refl) maps path
      (λ m fuel r e. read_map-fields fuel m.params m.key m.value r e)

abbrev request : Request
request = record {
  method = Method.get;
  segments = [];
  queries = [];
  payload = ascii "7";
  response = some (record { status = Status.content; options = []; payload = [] });
  path = path;
}

-- The first argument is the state, and the second is rejected.
abbrev arguments : Extractors ℕ (ℕ × (Bytes × Unit {0}))
arguments =
    next (λ req state. ok state)
      (next (λ req state. err (status_text Status.bad_request (ascii "no"))) unit)

abbrev echo : ℕ × (Bytes × Unit {0}) → Response
echo (n, (text, _)) = status_text Status.content text

call-from_request_example :
    call ℕ arguments echo request 3
    ≡ fill_response (into_response ℕ echo (from_request ℕ arguments request 3)) request
call-from_request_example = call-from_request ℕ arguments echo request 3
