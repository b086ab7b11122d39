-- ===== src/Tests/Endpoints.antt =====
-- An endpoint with numbers for addresses, and states of an observer on it.
use Prim.Native.Nat.{ℕ, ◌+◌}
use native.Mathlib.Decide.{ℕ_discrete}
use coap_rs.Common.{
  ◌≡◌, refl, ◌≢◌, Bool, true, Option, none, some, [], ◌∷◌, Bytes, nat_key, bytes_key, bytes_same,
  lookup, insert, remove, contains, add, erase, arith, ascii, ◌==◌, if◌then◌else◌,
}
use coap_rs.Coap.{Endpoint, Packet, Block, Responder, MessageType, MessageClass}
use coap_rs.Observer.{
  Observer, ResourceItem, RegisterResourceItem, new, recorded, await, enter, forget_existing,
}
use coap_rs.Observer.Keys.{IsPlain}
use coap_rs.Observer.Views.{listed_at, owner}
use coap_rs.Observer.Invariant.{IsConsistent, await-IsConsistent}
use coap_rs.Observer.Registrations.{recorded-IsConsistent}
use coap_rs.Observer.Behaviour.{new-IsConsistent}
use coap_rs.Observer.Handler.Notices.{numbered-IsConsistent}
use coap_rs.Observer.Handler.Changes.{replaced-IsConsistent}

abbrev pub blank : Packet
blank = record {
  kind = MessageType.confirmable;
  code = MessageClass.empty;
  message_id = 0;
  token = [];
  observe = none;
  etag = [];
  size2 = [];
  block2 = [];
  payload = [];
}

abbrev pub size_of : Block → ℕ
size_of b = if b.size_exponent == 0 then 16 else 32

abbrev pub block_of : ℕ → Bool → ℕ → Option Block
block_of num more size =
    if size == 16
    then some (record { num = num; more = more; size_exponent = 0 })
    else if size == 32
    then some (record { num = num; more = more; size_exponent = 1 })
    else none

abbrev pub net : Endpoint
net = record {
  Addr = ℕ;
  same_addr = ℕ_discrete;
  display = λ a. (a + 48) ∷ [];
  new_packet = blank;
  to_bytes = λ m. some m.payload;
  block_new = block_of;
  block_size = size_of;
  checked = true;
}

pub plain : (a : ℕ) → IsPlain ((a + 48) ∷ [])
plain a = ((λ e. omega (arith, e)), tt)

pub sized : (b : Block) → block_of 0 true (size_of b) ≢ none
sized b = ground arith

pub none_sized : (size : ℕ) → none ≡ some size → block_of 0 true size ≢ none
none_sized size e = absurd (cc)

abbrev pub path : Bytes
path = ascii "t"

abbrev pub kept : ResourceItem
kept = record { payload = ascii "19 C"; register_resources = []; sequence = 4; etag = 1 ∷ 2 ∷ [] }

abbrev pub empty_resources : Observer ℕ
empty_resources = record new { resources = insert path kept [] }

empty_resources-IsConsistent : IsConsistent net empty_resources
unfolding contains listed_at lookup
empty_resources-IsConsistent =
    replaced-IsConsistent net (new-IsConsistent net) path [] (λ r e. absurd (cc)) kept (λ k. refl)

abbrev pub client : Responder ℕ
client = record { id = 0; address = 1 }

abbrev pub other_client : Responder ℕ
other_client = record { id = 1; address = 2 }

abbrev pub client_key : Bytes
client_key = ascii "1$t"

abbrev pub other_key : Bytes
other_key = ascii "2$t"

-- One client observes the resource.
abbrev pub observed : Observer ℕ
observed = recorded net client path (ascii "a") none kept empty_resources

kept-there : lookup path empty_resources.resources ≡ some kept
unfolding lookup insert remove bytes_same ℕ_discrete
kept-there = refl

pub observed-IsConsistent : IsConsistent net observed
observed-IsConsistent =
    recorded-IsConsistent net plain empty_resources-IsConsistent client path (ascii "a") none kept
      kept-there none_sized

abbrev pub kept_once : ResourceItem
kept_once = record kept { register_resources = client_key ∷ [] }

pub kept_once-there : lookup path observed.resources ≡ some kept_once
unfolding recorded lookup insert remove bytes_same add erase ℕ_discrete
kept_once-there = refl

-- Two clients observe it.
abbrev pub both : Observer ℕ
both = recorded net other_client path (ascii "b") none kept_once observed

pub both-IsConsistent : IsConsistent net both
both-IsConsistent =
    recorded-IsConsistent net plain observed-IsConsistent other_client path (ascii "b") none
      kept_once kept_once-there none_sized

abbrev pub client_item : RegisterResourceItem ℕ
client_item = record {
  registered_responder = client;
  resource = path;
  token = ascii "a";
  unacknowledge_message = none;
  preferred_block_size = none;
}

abbrev pub other_item : RegisterResourceItem ℕ
other_item = record {
  registered_responder = other_client;
  resource = path;
  token = ascii "b";
  unacknowledge_message = none;
  preferred_block_size = none;
}

-- The second client has been sent message 1.
abbrev pub waiting : Observer ℕ
waiting = await net other_key other_item (record both { current_message_id = 1 })

other_item-there : lookup other_key both.register_resources ≡ some other_item
unfolding recorded enter forget_existing lookup insert remove bytes_same ℕ_discrete
other_item-there = refl

pub waiting-IsConsistent : IsConsistent net waiting
unfolding recorded enter forget_existing lookup owner remove bytes_same insert ℕ_discrete
waiting-IsConsistent =
    await-IsConsistent net (numbered-IsConsistent net both-IsConsistent) other_key other_item
      other_item-there refl

-- The first client has been sent message 1, and the second one message 2.
abbrev pub first_waits : RegisterResourceItem ℕ
first_waits = record client_item { unacknowledge_message = some 1 }

abbrev pub second_waits : RegisterResourceItem ℕ
second_waits = record other_item { unacknowledge_message = some 2 }

abbrev one_waits : Observer ℕ
one_waits = await net client_key client_item (record both { current_message_id = 1 })

abbrev pub both_wait : Observer ℕ
both_wait = await net other_key other_item (record one_waits { current_message_id = 2 })

client_item-both : lookup client_key both.register_resources ≡ some client_item
unfolding recorded enter forget_existing lookup insert remove bytes_same ℕ_discrete
client_item-both = refl

one_waits-IsConsistent : IsConsistent net one_waits
unfolding recorded enter forget_existing lookup owner remove bytes_same insert ℕ_discrete
one_waits-IsConsistent =
    await-IsConsistent net (numbered-IsConsistent net both-IsConsistent) client_key client_item
      client_item-both refl

other_item-one : lookup other_key one_waits.register_resources ≡ some other_item
unfolding await recorded enter forget_existing lookup insert remove bytes_same ℕ_discrete
other_item-one = refl

pub both_wait-IsConsistent : IsConsistent net both_wait
unfolding await recorded enter forget_existing lookup owner remove bytes_same insert ℕ_discrete
both_wait-IsConsistent =
    await-IsConsistent net (numbered-IsConsistent net one_waits-IsConsistent) other_key other_item
      other_item-one refl
