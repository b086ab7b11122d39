-- ===== src/Observer.antt =====
-- src/observer.rs: the resources, the registrations on them and the notifications that await an
-- acknowledgement. `none` is a panic: an `unwrap` or `expect` of nothing, a failed `assert!`, an
-- overflow in a checked build. `sent` lists what the responders were given, the oldest first; it is
-- no field of the source's struct.
pub mod Encode
pub mod Handler
pub mod Keys
pub mod Views
pub mod Invariant
pub mod Registrations
pub mod Removal
pub mod Behaviour
use coap_rs.Common.{
  ℕ, ◌+◌, Bool, true, false, not, Option, none, some, List, [], ◌∷◌, ◌++◌, map, ltb, if◌then◌else◌,
  ◌>>=◌, ◌>>◌, increment, length, take, Bytes, bytes_same, nat_key, bytes_key, lookup, insert,
  remove, contains, add, erase, ite,
}
use coap_rs.Coap.{Responder, Endpoint}
use Encode.{encode_coap_uint, compute_etag}

pub record RegisterItem : Type 0 where
  pub register_resources : List Bytes

pub record ResourceItem : Type 0 where
  pub payload : Bytes
  pub register_resources : List Bytes
  pub sequence : ℕ
  pub etag : Bytes

pub record RegisterResourceItem (A : Type 0) : Type 0 where
  pub registered_responder : Responder A
  pub resource : Bytes
  pub token : Bytes
  pub unacknowledge_message : Option ℕ
  pub preferred_block_size : Option ℕ

pub record UnacknowledgeMessageItem : Type 0 where
  pub register_resource : Bytes
  pub try_times : ℕ

pub record Observer (A : Type 0) : Type 0 where
  pub registers : List (Bytes × RegisterItem)
  pub resources : List (Bytes × ResourceItem)
  pub register_resources : List (Bytes × RegisterResourceItem A)
  pub unacknowledge_messages : List (ℕ × UnacknowledgeMessageItem)
  pub current_message_id : ℕ
  pub sent : List (Responder A × Bytes)

abbrev pub default_try_times : ℕ
default_try_times = 10

abbrev pub new : {A : Type 0} → Observer A
new = record {
  registers = [];
  resources = [];
  register_resources = [];
  unacknowledge_messages = [];
  current_message_id = 0;
  sent = [];
}

-- `assert!`
abbrev pub assert : Bool → Option (Unit {0})
assert true = some tt
assert false = none

abbrev pub is_empty : {A : Type 0} → List A → Bool
is_empty [] = true
is_empty (x ∷ xs) = false

abbrev pub Pending : Type 0
Pending = List (ℕ × UnacknowledgeMessageItem)

-- `if let Some(id) = message { unacknowledge_messages.remove(&id); }`
abbrev pub forget : Option ℕ → Pending → Pending
forget none m = m
forget (some id) m = remove id m

module _ (net : Endpoint) where
  open net use {Addr, same_addr, display, new_packet, to_bytes, block_new, block_size, checked}

  abbrev pub format_register_resource : Addr → Bytes → Bytes
  format_register_resource address path = display address ++ b'$' ∷ path

  unfoldable pub is_observing : Observer Addr → Addr → Bytes → Bool
  is_observing s addr path =
      elim (lookup (format_register_resource addr path) s.register_resources) [
        | none ↦ false
        | some _ ↦ true
      ]

  unfoldable pub get_resource_payload_and_etag : Observer Addr → Bytes → Option (Bytes × Bytes)
  get_resource_payload_and_etag s path = elim (lookup path s.resources) [
    | none ↦ none
    | some r ↦ some (r.payload, r.etag)
  ]

  -- `or_insert_with` and `and_modify` of the registration's entry.
  unfoldable pub enter :
      Responder Addr
      → Bytes
      → Bytes
      → Option ℕ
      → Option (RegisterResourceItem Addr)
      → RegisterResourceItem Addr
  enter responder path token preferred none = record {
    registered_responder = responder;
    resource = path;
    token = token;
    unacknowledge_message = none;
    preferred_block_size = preferred;
  }
  enter responder path token preferred (some existing) = record existing {
    registered_responder = responder;
    token = token;
    unacknowledge_message = none;
    preferred_block_size = preferred;
  }

  unfoldable pub forget_existing : Option (RegisterResourceItem Addr) → Pending → Pending
  forget_existing none m = m
  forget_existing (some existing) m = forget existing.unacknowledge_message m

  unfoldable pub enrol : Bytes → Option RegisterItem → RegisterItem
  enrol key none = record { register_resources = key ∷ [] }
  enrol key (some item) = record item { register_resources = add key item.register_resources }

  -- The observer with the registration of `responder` on the resource at `path` entered.
  unfoldable pub recorded :
      Responder Addr → Bytes → Bytes → Option ℕ → ResourceItem → Observer Addr → Observer Addr
  unfolding enter forget_existing enrol
  recorded responder path token preferred resource s =
      let address = display responder.address in
      let key = format_register_resource responder.address path in
      let existing = lookup key s.register_resources in
      let listed = record resource { register_resources = add key resource.register_resources } in
      record s {
        unacknowledge_messages = forget_existing existing s.unacknowledge_messages;
        register_resources =
            insert key (enter responder path token preferred existing) s.register_resources;
        resources = insert path listed s.resources;
        registers = insert address (enrol key (lookup address s.registers)) s.registers;
      }

  unfoldable pub record_register_resource :
      Responder Addr → Bytes → Bytes → Option ℕ → Observer Addr → Option (Observer Addr)
  unfolding recorded
  record_register_resource responder path token preferred s = do
    resource ← lookup path s.resources
    some (recorded responder path token preferred resource s)

  -- `unacknowledge_messages.remove(&id).unwrap()` panics where the message is not there.
  pub assert_message : Option ℕ → Pending → Option (Unit {0})
  assert_message none m = some tt
  assert_message (some id) m = do lookup id m; some tt

  -- The registers without `key`; one that is left empty is removed.
  pub leave :
      Bytes → Bytes → RegisterItem → List (Bytes × RegisterItem) → List (Bytes × RegisterItem)
  leave address key item m =
      let left = erase key item.register_resources in
      if is_empty left
      then remove address m
      else insert address (record item { register_resources = left }) m

  pub unlinked :
      Bytes
      → Bytes
      → RegisterResourceItem Addr
      → ResourceItem
      → RegisterItem
      → Observer Addr
      → Observer Addr
  unfolding leave
  unlinked key path item resource enrolled s =
      let left = record resource { register_resources = erase key resource.register_resources } in
      let address = display item.registered_responder.address in
      record s {
        unacknowledge_messages = forget item.unacknowledge_message s.unacknowledge_messages;
        resources = insert path left s.resources;
        registers = leave address key enrolled s.registers;
        register_resources = remove key s.register_resources;
      }

  pub unlink : Bytes → Bytes → RegisterResourceItem Addr → Observer Addr → Option (Observer Addr)
  unfolding assert_message unlinked
  unlink key path item s = do
    assert_message item.unacknowledge_message s.unacknowledge_messages
    resource ← lookup path s.resources
    assert (contains key resource.register_resources)
    enrolled ← lookup (display item.registered_responder.address) s.registers
    assert (contains key enrolled.register_resources)
    some (unlinked key path item resource enrolled s)

  pub remove_register_resource :
      Addr → Bytes → Bytes → Observer Addr → Option (Observer Addr × Bool)
  unfolding unlink
  remove_register_resource address path token s =
      let key = format_register_resource address path in
      elim (lookup key s.register_resources) [
        | none ↦ some (record s { register_resources = remove key s.register_resources }, true)
        | some item ↦
            ite (bytes_same item.token token) (do s' ← unlink key path item s; some (s', true))
              (some (s, false))
      ]

  pub created : Bytes → ResourceItem
  created payload = record {
    payload = payload;
    register_resources = [];
    sequence = 0;
    etag = compute_etag payload;
  }

  -- `Entry::Occupied` and `Entry::Vacant`
  pub renew : Bytes → Option ResourceItem → Option ResourceItem
  unfolding created
  renew payload (some r) = do
    sequence ← increment checked 32 r.sequence
    some (record r { sequence = sequence; payload = payload; etag = compute_etag payload })
  renew payload none = some (created payload)

  pub record_resource : Bytes → Bytes → Observer Addr → Option (Observer Addr × ResourceItem)
  unfolding renew
  record_resource path payload s = do
    r ← renew payload (lookup path s.resources)
    some (record s { resources = insert path r s.resources }, r)

  -- Message `current_message_id` to the registration awaits an acknowledgement.
  unfoldable pub await : Bytes → RegisterResourceItem Addr → Observer Addr → Observer Addr
  await key item s =
      let id = s.current_message_id in
      let others = forget item.unacknowledge_message s.unacknowledge_messages in
      record s {
        register_resources =
            insert key (record item { unacknowledge_message = some id }) s.register_resources;
        unacknowledge_messages =
            insert id (record { register_resource = key; try_times = 1 }) others;
      }

  pub record_unacknowledge_message : Bytes → Observer Addr → Option (Observer Addr)
  unfolding await
  record_unacknowledge_message key s = do
    item ← lookup key s.register_resources
    some (await key item s)

  -- Message `id` to the registration awaits nothing any more.
  pub settle : ℕ → Bytes → RegisterResourceItem Addr → Observer Addr → Observer Addr
  settle id key item s = record s {
    register_resources =
        insert key (record item { unacknowledge_message = none }) s.register_resources;
    unacknowledge_messages = remove id s.unacknowledge_messages;
  }

  pub count_try : ℕ → UnacknowledgeMessageItem → Observer Addr → Observer Addr
  count_try id message s = record s {
    unacknowledge_messages =
        insert id (record message { try_times = message.try_times + 1 }) s.unacknowledge_messages;
  }

  pub try_unacknowledge_message : Bytes → Observer Addr → Option (Observer Addr × Bool)
  unfolding settle count_try
  try_unacknowledge_message key s = do
    item ← lookup key s.register_resources
    id ← item.unacknowledge_message
    message ← lookup id s.unacknowledge_messages
    if ltb default_try_times message.try_times
        then some (settle id key item s, false)
        else some (count_try id message s, true)

  pub remove_unacknowledge_message : ℕ → Bytes → Observer Addr → Option (Observer Addr)
  unfolding settle
  remove_unacknowledge_message id token s = elim (lookup id s.unacknowledge_messages) [
    | none ↦ some (record s { unacknowledge_messages = remove id s.unacknowledge_messages })
    | some message ↦ do
      item ← lookup message.register_resource s.register_resources
      ite (bytes_same item.token token) (some (settle id message.register_resource item s)) (some s)
  ]
