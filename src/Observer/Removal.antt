-- ===== src/Observer/Removal.antt =====
-- src/observer.rs: taking a registration out, and the messages that wait for it, never panics.
use coap_rs.Common.{
  ℕ, ◌≡◌, refl, Option, none, some, Bytes, bytes_same, nat_key, bytes_key, lookup, ◌>>=◌, remove,
  arith, Option-cases, inl, inr, sym, ◌∙◌, remove-IsUnique, lookup-remove,
}
use coap_rs.Coap.{Endpoint}
use coap_rs.Observer.{
  RegisterResourceItem, Observer, assert_message, unlink, unlinked, remove_register_resource,
  format_register_resource, remove_unacknowledge_message, settle,
}
use coap_rs.Observer.Keys.{IsPlain, format_register_resource-injective}
use coap_rs.Observer.Views.{
  owner-inv, owner-remove, listed_at-inv, enrolled_at-inv, pending_of-remove, path_of-remove,
  address_of-remove, pending_of_at, pending_of-none, path_of_at, address_of_at, absent_path,
  absent_address, owner-none, owner_at, pending_of-inv,
}
use coap_rs.Observer.Invariant.{IsConsistent, settle-IsConsistent}
use coap_rs.Observer.Registrations.{unlinked-IsConsistent}

module _ (net : Endpoint) where
  open net use {Addr, display, block_new}

  -- `m` does not panic, and what it returns is consistent.
  pub record Returns (m : Option (Observer Addr)) : Type 0 where
    pub observer : Observer Addr
    pub returned : m ≡ some observer
    pub consistent : IsConsistent net observer

  -- Removing what is not there.
  module _ {s : Observer Addr} (c : IsConsistent net s) where
    pub remove_absent-IsConsistent :
        (key : Bytes)
        → lookup key s.register_resources ≡ none
        → IsConsistent net (record s { register_resources = remove key s.register_resources })
    remove_absent-IsConsistent key e = record {
      named = λ k a p. grind (arith, address_of-remove, path_of-remove, c.named k a p);
      listed = λ k p.
          grind (arith, path_of-remove, absent_path net key s.register_resources e, c.listed k p);
      enrolled = λ k a.
          grind (
            arith,
            address_of-remove,
            absent_address net key s.register_resources e,
            c.enrolled k a,
          );
      awaited = λ k i.
          grind (
            arith,
            pending_of-remove,
            pending_of-none net key s.register_resources e,
            c.awaited k i,
          );
      issued = λ k i. grind (arith, pending_of-remove, c.issued k i);
      tried = c.tried;
      sized = λ k it n. grind (arith, lookup-remove, c.sized k it n);
      unique = c.unique;
    }

    pub remove_no_message-IsConsistent :
        (id : ℕ)
        → lookup id s.unacknowledge_messages ≡ none
        → IsConsistent net
            (record s { unacknowledge_messages = remove id s.unacknowledge_messages })
    remove_no_message-IsConsistent id e = record {
      named = c.named;
      listed = c.listed;
      enrolled = c.enrolled;
      awaited = λ k i.
          grind (arith, owner-remove, owner-none id s.unacknowledge_messages e, c.awaited k i);
      issued = c.issued;
      tried = λ i m. grind (arith, lookup-remove, c.tried i m);
      sized = c.sized;
      unique = remove-IsUnique id s.unacknowledge_messages c.unique;
    }

  module _ {s : Observer Addr} (c : IsConsistent net s) (key : Bytes)
      (item : RegisterResourceItem Addr) (found : lookup key s.register_resources ≡ some item) where
    assert_message_holds :
        (o : Option ℕ)
        → item.unacknowledge_message ≡ o
        → assert_message net o s.unacknowledge_messages ≡ some tt
    unfolding assert_message
    assert_message_holds none e = refl
    assert_message_holds (some id) e =
        let waits =
          (c.awaited key id).0 (pending_of_at net key item s.register_resources found ∙ e) in
        let (v, there, _) = owner-inv id key s.unacknowledge_messages waits in rw (there)

    pub unlink-Returns : Returns (unlink net key item.resource item s)
    unfolding unlink
    unlink-Returns =
        let (resource, there, listed) =
          listed_at-inv item.resource key s.resources
            ((c.listed key item.resource).0 (path_of_at net key item s.register_resources found)) in
        let address = display item.registered_responder.address in
        let (enrolled, client, holds) =
          enrolled_at-inv address key s.registers
            ((c.enrolled key address).0 (address_of_at net key item s.register_resources found)) in
        record {
          observer = unlinked net key item.resource item resource enrolled s;
          returned = ground (arith, assert_message_holds item.unacknowledge_message refl);
          consistent = unlinked-IsConsistent net c key item found resource there enrolled client;
        }

  module _ (plain : (a : Addr) → IsPlain (display a)) {s : Observer Addr} (c : IsConsistent net s)
      (address : Addr) (path token : Bytes) where
    abbrev key : Bytes
    key = format_register_resource net address path

    -- The key leads to a registration on the very path.
    pub found-resource :
        (item : RegisterResourceItem Addr)
        → lookup key s.register_resources ≡ some item
        → item.resource ≡ path
    found-resource item e =
        let h =
          c.named key _ _ (address_of_at net key item s.register_resources e)
            (path_of_at net key item s.register_resources e) in
        sym
          (format_register_resource-injective net plain address item.registered_responder.address
            path item.resource h).1

    abbrev removal : Option (Observer Addr)
    removal = do (s', _) ← remove_register_resource net address path token s; some s'

    pub remove_register_resource-Returns : Returns removal
    unfolding remove_register_resource
    remove_register_resource-Returns = elim (Option-cases (lookup key s.register_resources)) [
      | inl e ↦ record {
        observer = record s { register_resources = remove key s.register_resources };
        returned = ground arith;
        consistent = remove_absent-IsConsistent c key e;
      }
      | inr (item, e) ↦ elim (bytes_same item.token token) [
        | no p ↦ record { observer = s; returned = ground arith; consistent = c }
        | yes p ↦
            let r = unlink-Returns c key item e in
            record {
              observer = r.observer;
              returned = ground (arith, found-resource item e, r.returned);
              consistent = r.consistent;
            }
      ]
    ]

  -- An acknowledgement never panics.
  pub remove_unacknowledge_message-Returns :
      {s : Observer Addr} (c : IsConsistent net s) (id : ℕ) (token : Bytes)
      → Returns (remove_unacknowledge_message net id token s)
  unfolding remove_unacknowledge_message
  remove_unacknowledge_message-Returns {s} c id token =
      elim (Option-cases (lookup id s.unacknowledge_messages)) [
        | inl e ↦ record {
          observer = record s { unacknowledge_messages = remove id s.unacknowledge_messages };
          returned = ground arith;
          consistent = remove_no_message-IsConsistent c id e;
        }
        | inr (message, e) ↦
            let owned = owner_at id message s.unacknowledge_messages e in
            let key = message.register_resource in
            let (item, there, waits) =
              pending_of-inv net key id s.register_resources ((c.awaited key id).1 owned) in
            elim (bytes_same item.token token) [
              | no p ↦ record { observer = s; returned = ground arith; consistent = c }
              | yes p ↦ record {
                observer = settle net id key item s;
                returned = ground arith;
                consistent = settle-IsConsistent net c key item there id waits;
              }
            ]
      ]
