-- ===== src/Discovery/Attributes.antt =====
-- src/discovery.rs: the attributes of a link as they are added.
use coap_rs.Common.{
  ◌≡◌, refl, Bool, ◌||◌, Option, none, some, List, [], ◌∷◌, ◌++◌, Bytes, any, arith,
}
use coap_rs.Discovery.{Link, same_text, has_attribute, get_attribute, attribute, flag, find_value}

any-append {ℓ} :
    {A : Type ℓ} (p : A → Bool) (xs ys : List A) → any p (xs ++ ys) ≡ (any p xs || any p ys)
any-append p [] ys = refl
any-append p (x ∷ xs) ys = ground (arith, any-append p xs ys)

find_value-append :
    (key : Bytes) (xs ys : List (Bytes × Option Bytes))
    → find_value key (xs ++ ys)
      ≡ elim (find_value key xs) [ none ↦ find_value key ys | some v ↦ some v ]
find_value-append key [] ys = refl
find_value-append key ((k, none) ∷ xs) ys = find_value-append key xs ys
find_value-append key ((k, some v) ∷ xs) ys = ground (arith, find_value-append key xs ys)

-- An attribute added to a link is there, with its value if the link had none of that key; a flag is
-- there and never gives a value.
pub attribute-flag :
    (key value : Bytes) (link : Link)
    → ((j : Bytes)
        → (has_attribute (attribute key value link) j ≡ (has_attribute link j || same_text key j))
          × (has_attribute (flag key link) j ≡ (has_attribute link j || same_text key j))
          × (get_attribute (flag key link) j ≡ get_attribute link j))
      × (get_attribute (attribute key value link) key
          ≡ elim (get_attribute link key) [ none ↦ some value | some v ↦ some v ])
unfolding has_attribute get_attribute attribute flag
attribute-flag key value link = (
  λ j. (
    ground (
      arith,
      any-append (λ (kv : Bytes × Option Bytes). same_text kv.0 j) link.attributes
          ((key, some value) ∷ []),
    ),
    ground (
      arith,
      any-append (λ (kv : Bytes × Option Bytes). same_text kv.0 j) link.attributes
          ((key, none) ∷ []),
    ),
    ground (arith, find_value-append j link.attributes ((key, none) ∷ [])),
  ),
  ground (arith, find_value-append key link.attributes ((key, some value) ∷ [])),
)
