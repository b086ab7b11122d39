-- ===== src/Discovery.antt =====
-- src/discovery.rs: the links of a CoRE Link Format document, their query filter, and how they are
-- written. Texts are their UTF-8 bytes.
pub mod Attributes
pub mod Queries
use coap_rs.Common.{
  ℕ, Bool, true, false, ◌&&◌, ◌||◌, Option, none, some, List, [], ◌∷◌, ◌++◌, map, ◌==◌,
  if◌then◌else◌, Bytes, bytes_same, ite, any, all, ascii,
}

pub record Link : Type 0 where
  pub href : Bytes
  pub attributes : List (Bytes × Option Bytes)

abbrev pub well_known_core : Bytes
well_known_core = ascii ".well-known/core"

pub new : Bytes → Link
new href = record { href = href; attributes = [] }

pub attribute : Bytes → Bytes → Link → Link
attribute key value link = record link { attributes = link.attributes ++ (key, some value) ∷ [] }

pub flag : Bytes → Link → Link
flag key link = record link { attributes = link.attributes ++ (key, none) ∷ [] }

-- `==` on texts
abbrev pub same_text : Bytes → Bytes → Bool
same_text a b = ite (bytes_same a b) true false

pub has_attribute : Link → Bytes → Bool
has_attribute link key = any (λ kv. same_text kv.0 key) link.attributes

abbrev pub find_value : Bytes → List (Bytes × Option Bytes) → Option Bytes
find_value key [] = none
find_value key ((k, none) ∷ rest) = find_value key rest
find_value key ((k, some v) ∷ rest) = if same_text k key then some v else find_value key rest

pub get_attribute : Link → Bytes → Option Bytes
get_attribute link key = find_value key link.attributes

-- `split_once('=')`
pub split_once : ℕ → Bytes → Option (Bytes × Bytes)
split_once sep [] = none
split_once sep (b ∷ bs) =
    if b == sep
    then some ([], bs)
    else (elim (split_once sep bs) [ none ↦ none | some (l, r) ↦ some (b ∷ l, r) ])

-- `strip_suffix('*')`
pub strip_star : Bytes → Option Bytes
strip_star [] = none
strip_star (b ∷ []) = if b == b'*' then some [] else none
strip_star (b ∷ c ∷ bs) = elim (strip_star (c ∷ bs)) [ none ↦ none | some p ↦ some (b ∷ p) ]

pub starts_with : Bytes → Bytes → Bool
starts_with prefix [] = elim prefix [ [] ↦ true | _ ∷ _ ↦ false ]
starts_with [] (b ∷ bs) = true
starts_with (p ∷ prefix) (b ∷ bs) = p == b && starts_with prefix bs

-- `u8::is_ascii_whitespace`
abbrev pub is_whitespace : ℕ → Bool
is_whitespace b = b == 0x20 || (b == 0x09 || (b == 0x0a || (b == 0x0c || b == 0x0d)))

abbrev close_word : Bytes → List Bytes → List Bytes
close_word [] words = words
close_word (b ∷ bs) words = (b ∷ bs) ∷ words

-- `split_ascii_whitespace`: the words between runs of white space; `word` is the one being read.
pub words_from : Bytes → Bytes → List Bytes
words_from word [] = close_word word []
words_from word (b ∷ bs) =
    let closed = close_word word (words_from [] bs) in
    let longer = words_from (word ++ b ∷ []) bs in if is_whitespace b then closed else longer

pub split_ascii_whitespace : Bytes → List Bytes
unfolding words_from
split_ascii_whitespace value = words_from [] value

-- The closure `value_matches`.
pub value_matches : Bytes → Bytes → Bool
unfolding strip_star starts_with
value_matches pattern value = elim (strip_star pattern) [
  | none ↦ same_text value pattern
  | some prefix ↦ starts_with prefix value
]

abbrev pub attribute_matches : Bytes → Bytes → Bytes × Option Bytes → Bool
attribute_matches name pattern (k, none) = false
attribute_matches name pattern (k, some v) =
    same_text k name
    && (value_matches pattern v || any (value_matches pattern) (split_ascii_whitespace v))

pub matches_query : Link → Bytes → Bool
unfolding has_attribute split_once value_matches split_ascii_whitespace
matches_query link query = elim (split_once b'=' query) [
  | none ↦ has_attribute link query
  | some (name, pattern) ↦
      if same_text name (ascii "href")
      then value_matches pattern link.href
      else any (attribute_matches name pattern) link.attributes
]

-- `coap_lite`'s writer: the text of a link, of an attribute and of a quoted attribute.
pub record LinkWriter : Type 0 where
  pub link : Bytes → Bytes
  pub attr : Bytes → Bytes → Bytes
  pub attr_quoted : Bytes → Bytes → Bytes

module _ (writer : LinkWriter) where
  open writer use {attr, attr_quoted}

  pub write_values : List (Bytes × Option Bytes) → Bytes
  write_values [] = []
  write_values ((key, none) ∷ rest) = write_values rest
  write_values ((key, some []) ∷ rest) = attr_quoted key [] ++ write_values rest
  write_values ((key, some (b ∷ bs)) ∷ rest) = attr key (b ∷ bs) ++ write_values rest

  pub write_flags : List (Bytes × Option Bytes) → Bytes
  write_flags [] = []
  write_flags ((key, none) ∷ rest) = b';' ∷ key ++ write_flags rest
  write_flags ((key, some v) ∷ rest) = write_flags rest

  -- The attributes with a value come first.
  pub write_link : Link → Bytes
  unfolding write_values write_flags
  write_link l = writer.link l.href ++ (write_values l.attributes ++ write_flags l.attributes)

  -- `join(",")`
  pub write_link_format : List Link → Bytes
  unfolding write_link
  write_link_format [] = []
  write_link_format (l ∷ []) = write_link l
  write_link_format (l ∷ k ∷ links) = write_link l ++ b',' ∷ write_link_format (k ∷ links)
