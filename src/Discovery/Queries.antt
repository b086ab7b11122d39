-- ===== src/Discovery/Queries.antt =====
-- src/discovery.rs: which links a query selects.
use coap_rs.Common.{
  ℕ, ◌≡◌, refl, ◌≢◌, ◌↔◌, Bool, true, Option, none, some, List, [], ◌∷◌, ◌++◌, Bytes, any, ascii,
  arith, ◌⊎◌, inl, inr, Bool-cases, bytes_same, if_pos, ap, ◌∙◌, sym, ◌==◌, false,
}
use coap_rs.Discovery.{
  Link, same_text, has_attribute, split_once, strip_star, starts_with, attribute_matches,
  matches_query, value_matches, split_ascii_whitespace,
}

-- No byte of a text is the separator.
abbrev pub Lacks : ℕ → Bytes → Type 0
Lacks sep [] = Unit
Lacks sep (b ∷ bs) = (b ≢ sep) × Lacks sep bs

split_once-append :
    (sep : ℕ) (name rest : Bytes)
    → Lacks sep name
    → split_once sep (name ++ sep ∷ rest) ≡ some (name, rest)
unfolding split_once
split_once-append sep [] rest h = ground arith
split_once-append sep (b ∷ name) rest (ne, h) = ground (arith, split_once-append sep name rest h)

split_once-none : (sep : ℕ) (text : Bytes) → Lacks sep text → split_once sep text ≡ none
unfolding split_once
split_once-none sep [] h = refl
split_once-none sep (b ∷ text) (ne, h) = ground (arith, split_once-none sep text h)

strip_star-append : (p : Bytes) → strip_star (p ++ b'*' ∷ []) ≡ some p
unfolding strip_star
strip_star-append [] = refl
strip_star-append (b ∷ []) = refl
strip_star-append (b ∷ c ∷ p) = ground (arith, strip_star-append (c ∷ p))

starts_with_iff :
    (prefix value : Bytes)
    → (starts_with prefix value ≡ true) ↔ ((rest : Bytes) × (prefix ++ rest ≡ value))
unfolding starts_with
starts_with_iff [] [] = (λ _. ([], refl), λ _. refl)
starts_with_iff [] (b ∷ value) = (λ _. (b ∷ value, refl), λ _. refl)
starts_with_iff (p ∷ prefix) [] = (λ e. absurd (ground arith), λ (rest, e). absurd (ground arith))
starts_with_iff (p ∷ prefix) (b ∷ value) =
    let (to, from) = starts_with_iff prefix value in
    (
      (λ e.
          let (rest, same) = to (ground arith) in
          let first : p ≡ b = ground arith in (rest, ground arith)),
      (λ (rest, e). ground (arith, from (rest, ground arith))),
    )

-- What a value is by a pattern: the same text, or one that begins with what stands before a last star.
abbrev pub Fits : Bytes → Bytes → Type 0
Fits pattern value =
    (value ≡ pattern)
    ⊎ ((prefix rest : Bytes) × (pattern ≡ prefix ++ b'*' ∷ []) × (value ≡ prefix ++ rest))

-- Some element has a property.
abbrev pub Some {ℓ} : {A : Type ℓ} → (A → Type 0) → List A → Type 0
Some P [] = ⊥
Some P (x ∷ xs) = P x ⊎ Some P xs

any_iff {ℓ} :
    {A : Type ℓ} (p : A → Bool) (P : A → Type 0) (xs : List A)
    → ((x : A) → (p x ≡ true) ↔ P x)
    → (any p xs ≡ true) ↔ Some P xs
any_iff p P [] h = ((λ e. absurd (ground arith)), λ n. absurd n)
any_iff p P (x ∷ xs) h =
    let (to, from) = any_iff p P xs h in
    (
      (λ e. elim (Bool-cases (p x)) [
        | inl here ↦ inl ((h x).0 here)
        | inr gone ↦ inr (to (ground arith))
      ]),
      (λ found. elim found [
        | inl here ↦ let yes_here = (h x).1 here in ground arith
        | inr later ↦ let there = from later in ground arith
      ]),
    )

same_text_iff : (a b : Bytes) → (same_text a b ≡ true) ↔ (a ≡ b)
same_text_iff a b = elim (bytes_same a b) [
  | yes p ↦ ((λ _. p), λ _. if_pos (bytes_same a b) p true false)
  | no p ↦ ((λ e. absurd (ground arith)), λ q. absurd (p q))
]

-- A pattern ends in a star, or it does not.
strip_star-cases :
    (pattern : Bytes)
    → ((prefix : Bytes) × (strip_star pattern ≡ some prefix) × (pattern ≡ prefix ++ b'*' ∷ []))
      ⊎ (strip_star pattern ≡ none)
unfolding strip_star
strip_star-cases [] = inr refl
strip_star-cases (b ∷ []) = elim (Bool-cases (b == b'*')) [
  | inl star ↦ inl ([], ground arith, ground arith)
  | inr other ↦ inr (ground arith)
]
strip_star-cases (b ∷ c ∷ bs) = elim (strip_star-cases (c ∷ bs)) [
  | inl (prefix, e, same) ↦ inl (b ∷ prefix, ground (arith, e), ap (λ t. b ∷ t) same)
  | inr e ↦ inr (ground (arith, e))
]

value_matches_iff :
    (pattern value : Bytes) → (value_matches pattern value ≡ true) ↔ Fits pattern value
unfolding value_matches
value_matches_iff pattern value = elim (strip_star-cases pattern) [
  | inr plain ↦
      let (to, from) = same_text_iff value pattern in
      (
        (λ e. inl (to (ground arith))),
        (λ fits. elim fits [
          | inl same ↦ let e = from same in ground arith
          | inr (prefix, rest, starred, _) ↦
              absurd (
                let e = ap strip_star starred ∙ strip_star-append prefix in
                ground (arith, e, plain))
        ]),
      )
  | inl (prefix, e, starred) ↦
      let (to, from) = starts_with_iff prefix value in
      (
        (λ m. let (rest, same) = to (ground arith) in inr (prefix, rest, starred, sym same)),
        (λ fits. elim fits [
          | inl same ↦ let m = from (b'*' ∷ [], sym (same ∙ starred)) in ground arith
          | inr (p, rest, starred', same) ↦
              let stripped = ap strip_star starred' ∙ strip_star-append p in
              let found : prefix ≡ p = ground (arith, e, stripped) in
              let m = from (rest, ap (λ q. q ++ rest) found ∙ sym same) in ground arith
        ]),
      )
]

-- A query by its parts: an attribute's key, a pattern for the target, a pattern for an attribute.
pub data Query : Type 0 where
  by_key : Bytes → Query
  by_target : Bytes → Query
  by_value : Bytes → Bytes → Query

abbrev pub print : Query → Bytes
print (by_key name) = name
print (by_target pattern) = ascii "href" ++ b'=' ∷ pattern
print (by_value name pattern) = name ++ b'=' ∷ pattern

-- A name has no `=`, and `href` is not an attribute's.
abbrev pub IsProper : Query → Type 0
IsProper (by_key name) = Lacks b'=' name
IsProper (by_target pattern) = Unit
IsProper (by_value name pattern) = Lacks b'=' name × (name ≢ ascii "href")

-- An attribute has the name and a value that fits, in whole or by one of its words.
abbrev pub Carries : Bytes → Bytes → Bytes × Option Bytes → Type 0
Carries name pattern (k, none) = ⊥
Carries name pattern (k, some v) =
    (k ≡ name) × (Fits pattern v ⊎ Some (Fits pattern) (split_ascii_whitespace v))

abbrev pub Selects : Link → Query → Type 0
Selects link (by_key name) = Some (λ kv. kv.0 ≡ name) link.attributes
Selects link (by_target pattern) = Fits pattern link.href
Selects link (by_value name pattern) = Some (Carries name pattern) link.attributes

attribute_matches_iff :
    (name pattern : Bytes) (kv : Bytes × Option Bytes)
    → (attribute_matches name pattern kv ≡ true) ↔ Carries name pattern kv
attribute_matches_iff name pattern (k, none) = ((λ e. absurd (ground arith)), λ n. absurd n)
attribute_matches_iff name pattern (k, some v) =
    let (named, names) = same_text_iff k name in
    let (whole, wholes) = value_matches_iff pattern v in
    let (word, words) =
      any_iff (value_matches pattern) (Fits pattern) (split_ascii_whitespace v)
        (value_matches_iff pattern) in
    (
      (λ e. (
        named (ground arith),
        (elim (Bool-cases (value_matches pattern v)) [
          | inl fits ↦ inl (whole fits)
          | inr other ↦ inr (word (ground arith))
        ]),
      )),
      (λ (same, fits). elim fits [
        | inl f ↦ let a = names same in let b = wholes f in ground arith
        | inr f ↦ let a = names same in let b = words f in ground arith
      ]),
    )

-- A query without `=` selects the links that have an attribute of that key, `href=` with a pattern
-- those whose target fits it, and any other `name=pattern` those with an attribute of that name that
-- has a value and whose value, or a word of it, fits. A text fits a pattern that is the same, or that
-- ends in a star before which stands a prefix of the text.
pub matches_query_lem :
    (link : Link) (query : Query)
    → IsProper query
    → (matches_query link (print query) ≡ true) ↔ Selects link query
unfolding matches_query has_attribute
matches_query_lem link (by_key name) plain =
    let once = split_once-none b'=' name plain in
    let (to, from) =
      any_iff (λ (kv : Bytes × Option Bytes). same_text kv.0 name) (λ kv. kv.0 ≡ name)
        link.attributes (λ kv. same_text_iff kv.0 name) in
    ((λ e. to (ground (arith, once))), λ h. let e = from h in ground (arith, once))
matches_query_lem link (by_target pattern) proper =
    let once = split_once-append b'=' (ascii "href") pattern (omega arith) in
    let (to, from) = value_matches_iff pattern link.href in
    ((λ e. to (ground (arith, once))), λ h. let e = from h in ground (arith, once))
matches_query_lem link (by_value name pattern) (plain, other) =
    let once = split_once-append b'=' name pattern plain in
    let (to, from) =
      any_iff (attribute_matches name pattern) (Carries name pattern) link.attributes
        (attribute_matches_iff name pattern) in
    ((λ e. to (ground (arith, once))), λ h. let e = from h in ground (arith, once))
