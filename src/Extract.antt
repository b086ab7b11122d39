-- ===== src/Extract.antt =====
-- src/router/extract: the extractors that handlers take their arguments from, with their rejections.
-- The decoders (form, JSON, CBOR) and the printer of numbers are arguments.
pub mod Tuples
pub mod Parameters
pub mod Access
pub mod Arity
pub mod Entries
pub mod Pairs
use coap_rs.Common.{
  ℕ, Bool, Option, none, some, List, [], ◌∷◌, ◌++◌, ◌==◌, if◌then◌else◌, Bytes, ascii,
}
use coap_rs.Common.Results.{Result, ok, err, ◌>>=◌, ok_or}
use coap_rs.Coap.{Status}
use coap_rs.Router.{Request, Response, status_text, query_as_vec, join_with}

-- The types of one text are named, as the errors name them, by their texts.
pub data PathDeserializationError : Type 0 where
  wrong_number_of_parameters : ℕ → ℕ → PathDeserializationError
  parse_error_at_key : Bytes → Bytes → Bytes → PathDeserializationError
  parse_error_at_index : ℕ → Bytes → Bytes → PathDeserializationError
  parse_error : Bytes → Bytes → PathDeserializationError
  invalid_utf8_in_path_param : Bytes → PathDeserializationError
  unsupported_type : Bytes → PathDeserializationError
  deserialize_error : Bytes → Bytes → Bytes → PathDeserializationError
  message : Bytes → PathDeserializationError

abbrev quoted : Bytes → Bytes
quoted text = b'`' ∷ text ++ b'`' ∷ []

pub data QueryRejection : Type 0 where
  invalid_query invalid_utf8 : QueryRejection

pub data JsonRejection : Type 0 where
  invalid_body deserialization_error invalid_utf8 : JsonRejection

pub data CborRejection : Type 0 where
  invalid_body deserialization_error : CborRejection

pub render_query_rejection : QueryRejection → Bytes
render_query_rejection QueryRejection.invalid_query = ascii "Invalid query string"
render_query_rejection QueryRejection.invalid_utf8 = ascii "Invalid UTF-8 in query"

pub query_rejection : QueryRejection → Response
unfolding render_query_rejection
query_rejection e = status_text Status.bad_request (render_query_rejection e)

pub render_json_rejection : JsonRejection → Bytes
render_json_rejection JsonRejection.invalid_body = ascii "Invalid JSON body string"
render_json_rejection JsonRejection.deserialization_error = ascii "Failed to deserialize JSON body"
render_json_rejection JsonRejection.invalid_utf8 = ascii "Invalid UTF-8 in JSON body"

pub json_rejection : JsonRejection → Response
unfolding render_json_rejection
json_rejection e = status_text Status.bad_request (render_json_rejection e)

pub render_cbor_rejection : CborRejection → Bytes
render_cbor_rejection CborRejection.invalid_body = ascii "Invalid CBOR body"
render_cbor_rejection CborRejection.deserialization_error = ascii "Failed to deserialize CBOR body"

pub cbor_rejection : CborRejection → Response
unfolding render_cbor_rejection
cbor_rejection e = status_text Status.bad_request (render_cbor_rejection e)

-- `Request::query`, where `utf8` says which options are valid texts.
pub query : (Bytes → Bool) → Request → Option Bytes
unfolding query_as_vec join_with
query utf8 req = elim (query_as_vec utf8 req) [
  | none ↦ none
  | some queries ↦ some (join_with b'&' queries)
]

abbrev serialized : Option Bytes → Response
serialized none =
    status_text Status.internal_server_error (ascii "Failed to serialize response body")
serialized (some body) = record { status_code = none; payload = some body; options = [] }

module _ {T : Type 0} where
  -- `from_request` of `Query`: `parse` is the parser of a form, with the decoder of `T`.
  pub query_from_request : (Bytes → Bool) → (Bytes → Option T) → Request → Result QueryRejection T
  unfolding query
  query_from_request utf8 parse req = do
    text ← ok_or QueryRejection.invalid_utf8 (query utf8 req)
    ok_or QueryRejection.invalid_query (parse text)

  pub json_from_request : (Bytes → Bool) → (Bytes → Option T) → Request → Result JsonRejection T
  json_from_request utf8 parse req =
      if utf8 req.payload
      then ok_or JsonRejection.deserialization_error (parse req.payload)
      else err JsonRejection.invalid_utf8

  pub cbor_from_request : (Bytes → Option T) → Request → Result CborRejection T
  cbor_from_request parse req = ok_or CborRejection.deserialization_error (parse req.payload)

  -- `into_response` of `Json` and of `Cbor`.
  pub json_into_response : (T → Option Bytes) → T → Response
  json_into_response to_string value = serialized (to_string value)

  pub cbor_into_response : (T → Option Bytes) → T → Response
  cbor_into_response into_writer value = serialized (into_writer value)

-- `from_request` of `State`.
pub state_from_request : {S T : Type 0} → (S → T) → S → T
state_from_request from_ref state = from_ref state

module _ (decimal : ℕ → Bytes) where
  pub render_path_error : PathDeserializationError → Bytes
  render_path_error (PathDeserializationError.message text) = text
  render_path_error (PathDeserializationError.invalid_utf8_in_path_param key) =
      ascii "Invalid UTF-8 in " ++ quoted key
  render_path_error (PathDeserializationError.wrong_number_of_parameters got expected) =
      let counted =
        ascii "Wrong number of path arguments for `Path`. Expected "
        ++ decimal expected
        ++ ascii " but got "
        ++ decimal got in
      if expected == 1
      then counted
        ++ ascii
            ". Note that multiple parameters must be extracted with a tuple `Path<(_, _)>` or a struct `Path<YourParams>`"
      else counted
  render_path_error (PathDeserializationError.unsupported_type name) =
      ascii "Unsupported type " ++ quoted name
  render_path_error (PathDeserializationError.parse_error_at_key key value expected) =
      ascii "Cannot parse "
      ++ quoted key
      ++ ascii " with value "
      ++ quoted value
      ++ ascii " to a "
      ++ quoted expected
  render_path_error (PathDeserializationError.parse_error value expected) =
      ascii "Cannot parse " ++ quoted value ++ ascii " to a " ++ quoted expected
  render_path_error (PathDeserializationError.parse_error_at_index index value expected) =
      ascii "Cannot parse value at index "
      ++ decimal index
      ++ ascii " with value "
      ++ quoted value
      ++ ascii " to a "
      ++ quoted expected
  render_path_error (PathDeserializationError.deserialize_error key value text) =
      ascii "Cannot parse "
      ++ quoted key
      ++ ascii " with value "
      ++ quoted value
      ++ ascii ": "
      ++ text

  pub path_rejection : PathDeserializationError → Response
  unfolding render_path_error
  path_rejection e =
      status_text
        (elim e [
          | PathDeserializationError.unsupported_type name ↦ Status.internal_server_error
          | _ ↦ Status.bad_request
        ])
        (render_path_error e)
