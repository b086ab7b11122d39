-- ===== src/Observer/Views.antt =====
-- src/observer.rs: what the four maps of the observer say of a registration's key, as functions of
-- their own, and how a write to a map changes them.
use coap_rs.Common.{
  ℕ, ◌≡◌, Bool, true, false, Option, none, some, List, Bytes, bytes_same, nat_key, bytes_key,
  lookup, insert, remove, contains, ite, arith, lookup-insert, lookup-remove, refl, IsUnique,
  remove-IsUnique, ◌⊎◌, inl, inr, Option-cases,
}
use native.Mathlib.Decide.{ℕ_discrete}
use coap_rs.Coap.{Endpoint}
use coap_rs.Observer.{
  RegisterItem, ResourceItem, RegisterResourceItem, UnacknowledgeMessageItem, Pending, forget,
}

-- The registration that waits for an acknowledgement of message `id`.
unfoldable pub owner : Pending → ℕ → Option Bytes
owner m id = elim (lookup id m) [ none ↦ none | some message ↦ some message.register_resource ]

pub owner-insert :
    (id j : ℕ) (v : UnacknowledgeMessageItem) (m : Pending)
    → owner (insert id v m) j ≡ ite (ℕ_discrete id j) (some v.register_resource) (owner m j)
unfolding owner
owner-insert id j v m = grind (arith, lookup-insert)

pub owner-remove :
    (id j : ℕ) (m : Pending) → owner (remove id m) j ≡ ite (ℕ_discrete id j) none (owner m j)
unfolding owner
owner-remove id j m = grind (arith, lookup-remove)

pub owner_at :
    (id : ℕ) (v : UnacknowledgeMessageItem) (m : Pending)
    → lookup id m ≡ some v
    → owner m id ≡ some v.register_resource
unfolding owner
owner_at id v m h = ground arith

pub owner-none : (id : ℕ) (m : Pending) → lookup id m ≡ none → owner m id ≡ none
unfolding owner
owner-none id m h = ground arith

pub owner-forget :
    (o : Option ℕ) (j : ℕ) (m : Pending)
    → owner (forget o m) j
      ≡ elim o [ none ↦ owner m j | some id ↦ ite (ℕ_discrete id j) none (owner m j) ]
owner-forget none j m = refl
owner-forget (some id) j m = owner-remove id j m

pub lookup-forget :
    (o : Option ℕ) (j : ℕ) (m : Pending) (v : UnacknowledgeMessageItem)
    → lookup j (forget o m) ≡ some v
    → lookup j m ≡ some v
lookup-forget none j m v h = h
lookup-forget (some id) j m v h = grind (arith, lookup-remove)

pub forget-IsUnique : (o : Option ℕ) (m : Pending) → IsUnique m → IsUnique (forget o m)
forget-IsUnique none m h = h
forget-IsUnique (some id) m h = remove-IsUnique id m h

pub owner-inv :
    (id : ℕ) (key : Bytes) (m : Pending)
    → owner m id ≡ some key
    → (v : UnacknowledgeMessageItem) × (lookup id m ≡ some v) × (v.register_resource ≡ key)
unfolding owner
owner-inv id key m h = elim (Option-cases (lookup id m)) [
  | inl e ↦ absurd (ground arith)
  | inr (v, e) ↦ (v, e, ground arith)
]

-- Whether the set of the resource at `path` holds `key`.
unfoldable pub listed_at : List (Bytes × ResourceItem) → Bytes → Bytes → Bool
listed_at m path key = elim (lookup path m) [
  | none ↦ false
  | some r ↦ contains key r.register_resources
]

pub listed_at-insert :
    (path j key : Bytes) (v : ResourceItem) (m : List (Bytes × ResourceItem))
    → listed_at (insert path v m) j key
      ≡ ite (bytes_same path j) (contains key v.register_resources) (listed_at m j key)
unfolding listed_at
listed_at-insert path j key v m = grind (arith, lookup-insert)

pub listed_at_at :
    (path key : Bytes) (v : ResourceItem) (m : List (Bytes × ResourceItem))
    → lookup path m ≡ some v
    → listed_at m path key ≡ contains key v.register_resources
unfolding listed_at
listed_at_at path key v m h = ground arith

pub listed_at-none :
    (path key : Bytes) (m : List (Bytes × ResourceItem))
    → lookup path m ≡ none
    → listed_at m path key ≡ false
unfolding listed_at
listed_at-none path key m h = ground arith

pub listed_at-inv :
    (path key : Bytes) (m : List (Bytes × ResourceItem))
    → listed_at m path key ≡ true
    → (v : ResourceItem) × (lookup path m ≡ some v) × (contains key v.register_resources ≡ true)
unfolding listed_at
listed_at-inv path key m h = elim (Option-cases (lookup path m)) [
  | inl e ↦ absurd (ground arith)
  | inr (v, e) ↦ (v, e, ground arith)
]

-- Whether the set of the client at `address` holds `key`.
unfoldable pub enrolled_at : List (Bytes × RegisterItem) → Bytes → Bytes → Bool
enrolled_at m address key = elim (lookup address m) [
  | none ↦ false
  | some r ↦ contains key r.register_resources
]

pub enrolled_at-insert :
    (address j key : Bytes) (v : RegisterItem) (m : List (Bytes × RegisterItem))
    → enrolled_at (insert address v m) j key
      ≡ ite (bytes_same address j) (contains key v.register_resources) (enrolled_at m j key)
unfolding enrolled_at
enrolled_at-insert address j key v m = grind (arith, lookup-insert)

pub enrolled_at_at :
    (address key : Bytes) (v : RegisterItem) (m : List (Bytes × RegisterItem))
    → lookup address m ≡ some v
    → enrolled_at m address key ≡ contains key v.register_resources
unfolding enrolled_at
enrolled_at_at address key v m h = ground arith

pub enrolled_at-inv :
    (address key : Bytes) (m : List (Bytes × RegisterItem))
    → enrolled_at m address key ≡ true
    → (v : RegisterItem) × (lookup address m ≡ some v) × (contains key v.register_resources ≡ true)
unfolding enrolled_at
enrolled_at-inv address key m h = elim (Option-cases (lookup address m)) [
  | inl e ↦ absurd (ground arith)
  | inr (v, e) ↦ (v, e, ground arith)
]

pub enrolled_at-none :
    (address key : Bytes) (m : List (Bytes × RegisterItem))
    → lookup address m ≡ none
    → enrolled_at m address key ≡ false
unfolding enrolled_at
enrolled_at-none address key m h = ground arith

pub enrolled_at-remove :
    (address j key : Bytes) (m : List (Bytes × RegisterItem))
    → enrolled_at (remove address m) j key ≡ ite (bytes_same address j) false (enrolled_at m j key)
unfolding enrolled_at
enrolled_at-remove address j key m = grind (arith, lookup-remove)

module _ (net : Endpoint) where
  open net use {Addr, display}

  abbrev pub Registry : Type 0
  Registry = List (Bytes × RegisterResourceItem Addr)

  unfoldable pub pending_of : Registry → Bytes → Option ℕ
  pending_of m key = elim (lookup key m) [ none ↦ none | some item ↦ item.unacknowledge_message ]

  unfoldable pub path_of : Registry → Bytes → Option Bytes
  path_of m key = elim (lookup key m) [ none ↦ none | some item ↦ some item.resource ]

  unfoldable pub address_of : Registry → Bytes → Option Bytes
  address_of m key = elim (lookup key m) [
    | none ↦ none
    | some item ↦ some (display item.registered_responder.address)
  ]

  module _ (k j : Bytes) (item : RegisterResourceItem Addr) (m : Registry) where
    pub pending_of-insert :
        pending_of (insert k item m) j
        ≡ ite (bytes_same k j) item.unacknowledge_message (pending_of m j)
    unfolding pending_of
    pending_of-insert = grind (arith, lookup-insert)

    pub path_of-insert :
        path_of (insert k item m) j ≡ ite (bytes_same k j) (some item.resource) (path_of m j)
    unfolding path_of
    path_of-insert = grind (arith, lookup-insert)

    pub address_of-insert :
        address_of (insert k item m) j
        ≡ ite (bytes_same k j) (some (display item.registered_responder.address)) (address_of m j)
    unfolding address_of
    address_of-insert = grind (arith, lookup-insert)

  module _ (k j : Bytes) (m : Registry) where
    pub pending_of-remove : pending_of (remove k m) j ≡ ite (bytes_same k j) none (pending_of m j)
    unfolding pending_of
    pending_of-remove = grind (arith, lookup-remove)

    pub path_of-remove : path_of (remove k m) j ≡ ite (bytes_same k j) none (path_of m j)
    unfolding path_of
    path_of-remove = grind (arith, lookup-remove)

    pub address_of-remove : address_of (remove k m) j ≡ ite (bytes_same k j) none (address_of m j)
    unfolding address_of
    address_of-remove = grind (arith, lookup-remove)

  module _ (k : Bytes) (item : RegisterResourceItem Addr) (m : Registry)
      (h : lookup k m ≡ some item) where
    pub pending_of_at : pending_of m k ≡ item.unacknowledge_message
    unfolding pending_of
    pending_of_at = ground arith

    pub path_of_at : path_of m k ≡ some item.resource
    unfolding path_of
    path_of_at = ground arith

    pub address_of_at : address_of m k ≡ some (display item.registered_responder.address)
    unfolding address_of
    address_of_at = ground arith

  pub pending_of-none : (k : Bytes) (m : Registry) → lookup k m ≡ none → pending_of m k ≡ none
  unfolding pending_of
  pending_of-none k m h = ground arith

  -- A registration has an address and a path, or it is not there.
  pub parts_of :
      (k : Bytes) (m : Registry)
      → ((address_of m k ≡ none) × (path_of m k ≡ none))
        ⊎ ((item : RegisterResourceItem Addr) × (lookup k m ≡ some item)
            × (address_of m k ≡ some (display item.registered_responder.address))
            × (path_of m k ≡ some item.resource))
  unfolding address_of path_of
  parts_of k m = elim (Option-cases (lookup k m)) [
    | inl e ↦ inl (ground arith, ground arith)
    | inr (item, e) ↦ inr (item, e, ground arith, ground arith)
  ]

  pub absent_path : (k : Bytes) (m : Registry) → lookup k m ≡ none → path_of m k ≡ none
  unfolding path_of
  absent_path k m h = ground arith

  pub absent_address : (k : Bytes) (m : Registry) → lookup k m ≡ none → address_of m k ≡ none
  unfolding address_of
  absent_address k m h = ground arith

  pub pending_of-inv :
      (k : Bytes) (id : ℕ) (m : Registry)
      → pending_of m k ≡ some id
      → (item : RegisterResourceItem Addr) × (lookup k m ≡ some item)
        × (item.unacknowledge_message ≡ some id)
  unfolding pending_of
  pending_of-inv k id m h = elim (Option-cases (lookup k m)) [
    | inl e ↦ absurd (ground arith)
    | inr (item, e) ↦ (item, e, ground arith)
  ]

  pub path_of-inv :
      (k path : Bytes) (m : Registry)
      → path_of m k ≡ some path
      → (item : RegisterResourceItem Addr) × (lookup k m ≡ some item) × (item.resource ≡ path)
  unfolding path_of
  path_of-inv k path m h = elim (Option-cases (lookup k m)) [
    | inl e ↦ absurd (ground arith)
    | inr (item, e) ↦ (item, e, ground arith)
  ]
