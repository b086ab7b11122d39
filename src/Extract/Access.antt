-- ===== src/Extract/Access.antt =====
-- src/router/extract/path/de.rs: the accesses to maps, sequences, pairs and enumerations. Each
-- operation returns the access that it leaves.
use coap_rs.Common.{suc, Option, none, some, [], ◌∷◌, Bytes, ascii}
use coap_rs.Common.Results.{Result, ok, err}
use coap_rs.Extract.{PathDeserializationError}
use coap_rs.Extract.Parameters.{
  Failure, KeyOrIdx, MapDeserializer, SeqDeserializer, PairDeserializer, Deserializer, SeqAccess,
}

module _ {T : Type 0} where
  abbrev refuses : PathDeserializationError → Result Failure T
  refuses e = err (Failure.rejects e)

  -- `.map(Some)` of what a seed makes of an element.
  abbrev found : Result Failure T → Result Failure (Option T)
  found (ok t) = ok (some t)
  found (err e) = err e

  unfoldable pub next_key_seed :
      (Deserializer → Result Failure T)
      → MapDeserializer
      → MapDeserializer × Result Failure (Option T)
  next_key_seed seed m = elim m.params [
    | [] ↦ (m, ok none)
    | (k, v) ∷ tail ↦ (
      record { params = tail; key = some (KeyOrIdx.key k); value = some v },
      found (seed (Deserializer.key_deserializer k)),
    )
  ]

  unfoldable pub next_value_seed :
      (Deserializer → Result Failure T) → MapDeserializer → MapDeserializer × Result Failure T
  next_value_seed seed m = elim m.value [
    | none ↦ (m, refuses (PathDeserializationError.message (ascii "value is missing")))
    | some v ↦
        (record m { key = none; value = none }, seed (Deserializer.value_deserializer m.key v))
  ]

  -- `next_element_seed` of a `SeqDeserializer`.
  unfoldable pub next_element_seed :
      (Deserializer → Result Failure T)
      → SeqDeserializer
      → SeqDeserializer × Result Failure (Option T)
  next_element_seed seed s = elim s.params [
    | [] ↦ (s, ok none)
    | (k, v) ∷ tail ↦ (
      record { params = tail; idx = suc s.idx },
      found (seed (Deserializer.value_deserializer (some (KeyOrIdx.idx s.idx k)) v)),
    )
  ]

  abbrev pub second_of_pair :
      (Deserializer → Result Failure T) → Option Bytes → Result Failure (Option T)
  second_of_pair seed none = ok none
  second_of_pair seed (some v) = found (seed (Deserializer.value_deserializer none v))

  -- `next_element_seed` of a `PairDeserializer`.
  unfoldable pub next_of_pair :
      (Deserializer → Result Failure T)
      → PairDeserializer
      → PairDeserializer × Result Failure (Option T)
  next_of_pair seed p = elim p.key [
    | some (KeyOrIdx.idx n k) ↦
        (record p { key = none }, found (seed (Deserializer.key_deserializer k)))
    | some (KeyOrIdx.key k) ↦ (
      record p { key = none },
      err (
          Failure.rejects
            (PathDeserializationError.message (ascii "array types are not supported"))),
    )
    | none ↦ (record p { value = none }, second_of_pair seed p.value)
  ]

  unfoldable pub next_element :
      (Deserializer → Result Failure T) → SeqAccess → SeqAccess × Result Failure (Option T)
  unfolding next_element_seed next_of_pair
  next_element seed (SeqAccess.of_params s) =
      let (left, r) = next_element_seed seed s in (SeqAccess.of_params left, r)
  next_element seed (SeqAccess.of_pair p) =
      let (left, r) = next_of_pair seed p in (SeqAccess.of_pair left, r)

  -- `EnumDeserializer`: the name of the variant is the text.
  pub variant_seed : (Deserializer → Result Failure T) → Bytes → Result Failure T
  variant_seed seed text = seed (Deserializer.key_deserializer text)

  -- `VariantAccess` of `UnitVariant`, whose variants with content are refused.
  pub newtype_variant_seed : Result Failure T
  newtype_variant_seed =
      refuses (PathDeserializationError.unsupported_type (ascii "newtype enum variant"))

  pub tuple_variant : Result Failure T
  tuple_variant = refuses (PathDeserializationError.unsupported_type (ascii "tuple enum variant"))

  pub struct_variant : Result Failure T
  struct_variant = refuses (PathDeserializationError.unsupported_type (ascii "struct enum variant"))

pub unit_variant : Result Failure (Unit {0})
unit_variant = ok tt
