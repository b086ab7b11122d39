-- ===== src/Extract/Parameters.antt =====
-- src/router/extract/path/de.rs: the deserializers of path parameters. A visitor, which `serde` makes
-- for the type that is deserialized, and the parsers of values are arguments; so are the seeds that
-- an element is given to, functions of the element's deserializer.
use coap_rs.Common.{ℕ, Option, none, some, List, [], ◌∷◌, ◌==◌, if◌then◌else◌, Bytes, ascii, length}
use coap_rs.Common.Results.{Result, ok, err, ◌>>=◌}
use coap_rs.Extract.{
  PathDeserializationError, wrong_number_of_parameters, parse_error_at_key, parse_error_at_index,
  parse_error, unsupported_type, message,
}

abbrev pub Params : Type 0
Params = List (Bytes × Bytes)

-- What ends a deserialization early: an error, or `unreachable!()`.
pub data Failure : Type 0 where
  rejects : PathDeserializationError → Failure
  panics : Failure

pub data KeyOrIdx : Type 0 where
  key : Bytes → KeyOrIdx
  idx : ℕ → Bytes → KeyOrIdx

pub record MapDeserializer : Type 0 where
  pub params : Params
  pub key : Option KeyOrIdx
  pub value : Option Bytes

pub record SeqDeserializer : Type 0 where
  pub params : Params
  pub idx : ℕ

pub record PairDeserializer : Type 0 where
  pub key : Option KeyOrIdx
  pub value : Option Bytes

-- The deserializers: of the parameters of a path, of a key and of a value.
pub data Deserializer : Type 0 where
  path_deserializer : Params → Deserializer
  key_deserializer : Bytes → Deserializer
  value_deserializer : Option KeyOrIdx → Bytes → Deserializer

pub data SeqAccess : Type 0 where
  of_params : SeqDeserializer → SeqAccess
  of_pair : PairDeserializer → SeqAccess

-- The types of the values that are parsed.
pub data Scalar : Type 0 where
  bool i8 i16 i32 i64 i128 u8 u16 u32 u64 u128 f32 f64 string char : Scalar

-- Their names in the errors.
unfoldable pub type_text : Scalar → Bytes
type_text Scalar.bool = ascii "bool"
type_text Scalar.i8 = ascii "i8"
type_text Scalar.i16 = ascii "i16"
type_text Scalar.i32 = ascii "i32"
type_text Scalar.i64 = ascii "i64"
type_text Scalar.i128 = ascii "i128"
type_text Scalar.u8 = ascii "u8"
type_text Scalar.u16 = ascii "u16"
type_text Scalar.u32 = ascii "u32"
type_text Scalar.u64 = ascii "u64"
type_text Scalar.u128 = ascii "u128"
type_text Scalar.f32 = ascii "f32"
type_text Scalar.f64 = ascii "f64"
type_text Scalar.string = ascii "String"
type_text Scalar.char = ascii "char"

-- The methods of a `Deserializer`; `deserialize_byte_buf` parses and visits as `deserialize_string`.
pub data Call : Type 0 where
  any str byte_buf bytes option identifier ignored_any unit unit_struct newtype_struct : Call
  seq map struct enum : Call
  scalar : Scalar → Call
  tuple tuple_struct : ℕ → Call

-- `FromStr` of the types.
pub record Parsers : Type 1 where
  pub Value : Scalar → Type 0
  pub parse : (s : Scalar) → Bytes → Option (Value s)

module _ (parsers : Parsers) where
  open parsers use {Value, parse}

  pub record Visitor (V : Type 0) : Type 0 where
    pub type_name : Bytes
    pub visit : (s : Scalar) → Value s → Result Failure V
    pub visit_borrowed_str : Bytes → Result Failure V
    pub visit_str : Bytes → Result Failure V
    pub visit_borrowed_bytes : Bytes → Result Failure V
    pub visit_unit : Result Failure V
    pub visit_some : Deserializer → Result Failure V
    pub visit_newtype_struct : Deserializer → Result Failure V
    pub visit_seq : SeqAccess → Result Failure V
    pub visit_map : MapDeserializer → Result Failure V
    -- Of an `EnumDeserializer`, which is its text.
    pub visit_enum : Bytes → Result Failure V

  abbrev pub refuses {ℓ} : {A : Type ℓ} → PathDeserializationError → Result Failure A
  refuses e = err (rejects e)

  -- `url_params[0].1` where there is one parameter.
  abbrev pub sole : Params → Result Failure Bytes
  sole ((k, v) ∷ []) = ok v
  sole params = refuses (wrong_number_of_parameters (length params) 1)

  abbrev pub parsed : (s : Scalar) → PathDeserializationError → Bytes → Result Failure (Value s)
  parsed s e text = elim (parse s text) [ none ↦ refuses e | some v ↦ ok v ]

  abbrev pub from_start : Params → SeqAccess
  from_start params = SeqAccess.of_params (record { params = params; idx = 0 })

  abbrev pub start_map : Params → MapDeserializer
  start_map params = record { params = params; key = none; value = none }

  module _ {V : Type 0} (visitor : Visitor V) where
    open visitor use {
      type_name, visit, visit_borrowed_str, visit_str, visit_borrowed_bytes, visit_unit, visit_some,
      visit_newtype_struct, visit_seq, visit_map, visit_enum,
    }

    abbrev pub unsupported : Result Failure V
    unsupported = refuses (unsupported_type type_name)

    -- `parse_single_value!`
    abbrev pub parse_single_value : Scalar → Params → Result Failure V
    parse_single_value s params = do
      text ← sole params
      v ← parsed s (parse_error text (type_text s)) text
      visit s v

    abbrev pub of_length : ℕ → Params → Result Failure V
    of_length len params =
        if length params == len
        then visit_seq (from_start params)
        else refuses (wrong_number_of_parameters (length params) len)

    -- `PathDeserializer`
    unfoldable pub deserialize_path : Call → Params → Result Failure V
    deserialize_path Call.bytes params = unsupported
    deserialize_path Call.option params = unsupported
    deserialize_path Call.identifier params = unsupported
    deserialize_path Call.ignored_any params = unsupported
    deserialize_path (Call.scalar s) params = parse_single_value s params
    deserialize_path Call.byte_buf params = parse_single_value Scalar.string params
    deserialize_path Call.any params = sole params >>= visit_borrowed_str
    deserialize_path Call.str params = sole params >>= visit_borrowed_str
    deserialize_path Call.unit params = visit_unit
    deserialize_path Call.unit_struct params = visit_unit
    deserialize_path Call.newtype_struct params =
        visit_newtype_struct (Deserializer.path_deserializer params)
    deserialize_path Call.seq params = visit_seq (from_start params)
    deserialize_path (Call.tuple len) params = of_length len params
    deserialize_path (Call.tuple_struct len) params = of_length len params
    deserialize_path Call.map params = visit_map (start_map params)
    deserialize_path Call.struct params = visit_map (start_map params)
    deserialize_path Call.enum params = sole params >>= visit_enum

    -- `KeyDeserializer`
    unfoldable pub deserialize_key : Call → Bytes → Result Failure V
    deserialize_key Call.identifier text = visit_str text
    deserialize_key Call.str text = visit_str text
    deserialize_key (Call.scalar Scalar.string) text = visit_str text
    deserialize_key call text = refuses (message (ascii "Unexpected key type"))

    -- The error of a value that does not parse.
    abbrev pub parse_error_of : Option KeyOrIdx → Bytes → Bytes → PathDeserializationError
    parse_error_of (some (KeyOrIdx.key k)) text expected = parse_error_at_key k text expected
    parse_error_of (some (KeyOrIdx.idx n k)) text expected = parse_error_at_index n text expected
    parse_error_of none text expected = parse_error text expected

    -- `parse_value!`
    abbrev pub parse_value : Scalar → Option KeyOrIdx → Bytes → Result Failure V
    parse_value s at text = parsed s (parse_error_of at text (type_text s)) text >>= visit s

    -- `deserialize_tuple` of a value: only a pair is supported.
    abbrev pub deserialize_pair : Option KeyOrIdx → Bytes → Result Failure V
    deserialize_pair none text = err panics
    deserialize_pair (some at) text =
        visit_seq (SeqAccess.of_pair (record { key = some at; value = some text }))

    -- `ValueDeserializer`
    unfoldable pub deserialize_value : Call → Option KeyOrIdx → Bytes → Result Failure V
    deserialize_value Call.map at text = unsupported
    deserialize_value Call.identifier at text = unsupported
    deserialize_value (Call.scalar s) at text = parse_value s at text
    deserialize_value Call.byte_buf at text = parse_value Scalar.string at text
    deserialize_value Call.any at text = visit_borrowed_str text
    deserialize_value Call.str at text = visit_borrowed_str text
    deserialize_value Call.bytes at text = visit_borrowed_bytes text
    deserialize_value Call.option at text = visit_some (Deserializer.value_deserializer at text)
    deserialize_value Call.unit at text = visit_unit
    deserialize_value Call.unit_struct at text = visit_unit
    deserialize_value Call.newtype_struct at text =
        visit_newtype_struct (Deserializer.value_deserializer at text)
    deserialize_value (Call.tuple len) at text =
        if len == 2 then deserialize_pair at text else unsupported
    deserialize_value Call.seq at text = unsupported
    deserialize_value (Call.tuple_struct len) at text = unsupported
    deserialize_value Call.struct at text = unsupported
    deserialize_value Call.enum at text = visit_enum text
    deserialize_value Call.ignored_any at text = visit_unit

    unfoldable pub deserialize : Call → Deserializer → Result Failure V
    unfolding deserialize_path deserialize_key deserialize_value
    deserialize call (Deserializer.path_deserializer params) = deserialize_path call params
    deserialize call (Deserializer.key_deserializer text) = deserialize_key call text
    deserialize call (Deserializer.value_deserializer at text) = deserialize_value call at text
