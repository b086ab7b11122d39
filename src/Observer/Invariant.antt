-- ===== src/Observer/Invariant.antt =====
-- src/observer.rs: the four maps of the observer agree, and every operation on them keeps that.
use coap_rs.Common.{
  ℕ, ◌+◌, ◌≤◌, ◌≡◌, ◌≢◌, ◌↔◌, true, none, some, ◌∷◌, ◌++◌, Bytes, nat_key, bytes_key, lookup, arith,
  lookup-insert, lookup-remove, IsUnique, remove-IsUnique, insert-IsUnique,
}
use coap_rs.Coap.{Endpoint}
use coap_rs.Observer.{
  RegisterResourceItem, UnacknowledgeMessageItem, Observer, default_try_times, await, settle,
  count_try,
}
use coap_rs.Observer.Views.{
  owner, owner-insert, owner-remove, owner_at, owner-forget, lookup-forget, forget-IsUnique,
  listed_at, enrolled_at, pending_of, path_of, address_of, pending_of-insert, path_of-insert,
  address_of-insert, pending_of_at, path_of_at, address_of_at,
}

module _ (net : Endpoint) where
  open net use {Addr, display, block_new}

  pub record IsConsistent (s : Observer Addr) : Type 0 where
    -- A registration's key is built from its address and its path.
    pub named :
        (key address path : Bytes)
        → address_of net s.register_resources key ≡ some address
        → path_of net s.register_resources key ≡ some path
        → key ≡ address ++ b'$' ∷ path
    -- The sets of the resources and of the clients hold just the registrations.
    pub listed :
        (key path : Bytes)
        → (path_of net s.register_resources key ≡ some path)
          ↔ (listed_at s.resources path key ≡ true)
    pub enrolled :
        (key address : Bytes)
        → (address_of net s.register_resources key ≡ some address)
          ↔ (enrolled_at s.registers address key ≡ true)
    -- A registration and its pending message name one another.
    pub awaited :
        (key : Bytes) (id : ℕ)
        → (pending_of net s.register_resources key ≡ some id)
          ↔ (owner s.unacknowledge_messages id ≡ some key)
    pub issued :
        (key : Bytes) (id : ℕ)
        → pending_of net s.register_resources key ≡ some id
        → id ≤ s.current_message_id
    pub tried :
        (id : ℕ) (message : UnacknowledgeMessageItem)
        → lookup id s.unacknowledge_messages ≡ some message
        → message.try_times ≤ default_try_times + 1
    -- A block of the preferred size can be built.
    pub sized :
        (key : Bytes) (item : RegisterResourceItem Addr) (size : ℕ)
        → lookup key s.register_resources ≡ some item
        → item.preferred_block_size ≡ some size
        → block_new 0 true size ≢ none
    pub unique : IsUnique s.unacknowledge_messages

  module _ {s : Observer Addr} (c : IsConsistent s) (key : Bytes) (item : RegisterResourceItem Addr)
      (found : lookup key s.register_resources ≡ some item) where
    path_at : path_of net s.register_resources key ≡ some item.resource
    path_at = path_of_at net key item s.register_resources found

    address_at :
        address_of net s.register_resources key ≡ some (display item.registered_responder.address)
    address_at = address_of_at net key item s.register_resources found

    pending_at : pending_of net s.register_resources key ≡ item.unacknowledge_message
    pending_at = pending_of_at net key item s.register_resources found

    pub settle-IsConsistent :
        (id : ℕ) → item.unacknowledge_message ≡ some id → IsConsistent (settle net id key item s)
    unfolding settle
    settle-IsConsistent id waits = record {
      named = λ k a p.
          grind (arith, address_of-insert, path_of-insert, address_at, path_at, c.named k a p);
      listed = λ k p. grind (arith, path_of-insert, path_at, c.listed k p);
      enrolled = λ k a. grind (arith, address_of-insert, address_at, c.enrolled k a);
      awaited = λ k i.
          grind
            (arith, pending_of-insert, pending_at, owner-remove, c.awaited k i, c.awaited key id);
      issued = λ k i. grind (arith, pending_of-insert, c.issued k i);
      tried = λ i m. grind (arith, lookup-remove, c.tried i m);
      sized = λ k it n. grind (arith, lookup-insert, c.sized k it n, c.sized key item n);
      unique = remove-IsUnique id s.unacknowledge_messages c.unique;
    }

    pub count_try-IsConsistent :
        (id : ℕ) (message : UnacknowledgeMessageItem)
        → lookup id s.unacknowledge_messages ≡ some message
        → message.try_times ≤ default_try_times
        → IsConsistent (count_try net id message s)
    unfolding count_try
    count_try-IsConsistent id message waits few = record {
      named = c.named;
      listed = c.listed;
      enrolled = c.enrolled;
      awaited = λ k i.
          grind (
            arith,
            owner-insert,
            c.awaited k i,
            owner_at id message s.unacknowledge_messages waits,
          );
      issued = c.issued;
      tried = λ i m. grind (arith, lookup-insert, c.tried i m);
      sized = c.sized;
      unique = insert-IsUnique id _ s.unacknowledge_messages c.unique;
    }

    pub await-IsConsistent :
        owner s.unacknowledge_messages s.current_message_id ≡ none
        → IsConsistent (await net key item s)
    unfolding await
    await-IsConsistent fresh = record {
      named = λ k a p.
          grind (arith, address_of-insert, path_of-insert, address_at, path_at, c.named k a p);
      listed = λ k p. grind (arith, path_of-insert, path_at, c.listed k p);
      enrolled = λ k a. grind (arith, address_of-insert, address_at, c.enrolled k a);
      awaited = λ k i. grind (
        arith,
        pending_of-insert,
        pending_at,
        owner-insert,
        owner-forget,
        c.awaited k i,
        c.awaited key i,
        c.awaited k s.current_message_id,
      );
      issued = λ k i. grind (arith, pending_of-insert, c.issued k i);
      tried = λ i m. grind (arith, lookup-insert, lookup-forget, c.tried i m);
      sized = λ k it n. grind (arith, lookup-insert, c.sized k it n, c.sized key item n);
      unique =
          insert-IsUnique s.current_message_id _ _
            (forget-IsUnique item.unacknowledge_message s.unacknowledge_messages c.unique);
    }
