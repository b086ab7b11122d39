-- ===== src/Observer/Registrations.antt =====
-- src/observer.rs: entering a registration and taking one out keep the four maps in agreement.
use coap_rs.Common.{
  ℕ, ◌≡◌, refl, ◌≢◌, true, false, Option, none, some, List, [], ◌∷◌, Bytes, bytes_same, nat_key,
  bytes_key, lookup, contains, erase, ite, arith, lookup-insert, lookup-remove, contains-add,
  contains-erase, IsUnique, Option-cases, inl, inr, ◌⊎◌, ◌∙◌, ap, sym,
}
use native.Mathlib.Decide.{ℕ_discrete}
use coap_rs.Coap.{Endpoint, Responder}
use coap_rs.Observer.{
  RegisterItem, ResourceItem, RegisterResourceItem, UnacknowledgeMessageItem, Observer, Pending,
  forget, enter, forget_existing, enrol, recorded, leave, unlinked, is_empty,
  format_register_resource,
}
use coap_rs.Observer.Keys.{IsPlain, format_register_resource-injective}
use coap_rs.Observer.Views.{
  owner, owner-forget, lookup-forget, forget-IsUnique, listed_at-insert, enrolled_at,
  enrolled_at-insert, enrolled_at-remove, pending_of, path_of, address_of, pending_of-insert,
  path_of-insert, address_of-insert, pending_of-remove, path_of-remove, address_of-remove, parts_of,
  pending_of_at, pending_of-none, path_of_at, address_of_at, listed_at_at, enrolled_at_at,
  enrolled_at-none,
}
use coap_rs.Observer.Invariant.{IsConsistent}

empty-contains :
    (xs : List Bytes)
    → ((is_empty xs ≡ true) × ((k : Bytes) → contains k xs ≡ false)) ⊎ (is_empty xs ≡ false)
unfolding contains
empty-contains [] = inl (refl, λ k. refl)
empty-contains (x ∷ xs) = inr refl

module _ (net : Endpoint) where
  open net use {Addr, display, block_new}

  enrol-contains :
      (key k a : Bytes) (m : List (Bytes × RegisterItem))
      → contains k (enrol net key (lookup a m)).register_resources
        ≡ ite (bytes_same key k) true (enrolled_at m a k)
  unfolding enrol contains
  enrol-contains key k a m = elim (Option-cases (lookup a m)) [
    | inl e ↦ rw e (ground (arith, enrolled_at-none a k m e))
    | inr (r, e) ↦ rw e (grind (arith, enrolled_at_at a k r m e, contains-add))
  ]

  forget_existing-owner :
      (o : Option (RegisterResourceItem Addr)) (j : ℕ) (m : Pending)
      → owner (forget_existing net o m) j
        ≡ elim o [ none ↦ owner m j | some item ↦ owner (forget item.unacknowledge_message m) j ]
  unfolding forget_existing
  forget_existing-owner none j m = refl
  forget_existing-owner (some item) j m = refl

  -- The agreement of the maps, where no address prints a dollar sign.
  module _ (plain : (a : Addr) → IsPlain (display a)) {s : Observer Addr} (c : IsConsistent net s)
      (responder : Responder Addr) (path token : Bytes) (preferred : Option ℕ)
      (resource : ResourceItem) (found : lookup path s.resources ≡ some resource) where
    abbrev key : Bytes
    key = format_register_resource net responder.address path

    abbrev entered : RegisterResourceItem Addr
    entered = enter net responder path token preferred (lookup key s.register_resources)

    entered-fields :
        (entered.registered_responder ≡ responder)
        × (entered.unacknowledge_message ≡ none)
        × (entered.preferred_block_size ≡ preferred)
    unfolding enter
    entered-fields = ground arith

    -- What stands under the key already has the address and the path of the new registration.
    existing-parts :
        ((address_of net s.register_resources key ≡ none)
          × (path_of net s.register_resources key ≡ none))
        ⊎ ((address_of net s.register_resources key ≡ some (display responder.address))
            × (path_of net s.register_resources key ≡ some path))
    existing-parts = elim (parts_of net key s.register_resources) [
      | inl e ↦ inl e
      | inr (item, e, a, p) ↦
          let (same_address, same_path) =
            format_register_resource-injective net plain responder.address
              item.registered_responder.address path item.resource (c.named key _ _ a p) in
          inr (a ∙ ap some (sym same_address), p ∙ ap some (sym same_path))
    ]

    entered-resource : entered.resource ≡ path
    unfolding enter
    entered-resource = elim (Option-cases (lookup key s.register_resources)) [
      | inl e ↦ rw e
      | inr (item, e) ↦
          rw e (grind (arith, existing-parts, path_of_at net key item s.register_resources e))
    ]

    forgotten-owner :
        (j : ℕ)
        → owner (forget_existing net (lookup key s.register_resources) s.unacknowledge_messages) j
          ≡ elim (pending_of net s.register_resources key) [
            | none ↦ owner s.unacknowledge_messages j
            | some id ↦ ite (ℕ_discrete id j) none (owner s.unacknowledge_messages j)
          ]
    unfolding forget_existing
    forgotten-owner j = elim (Option-cases (lookup key s.register_resources)) [
      | inl e ↦ rw (e, pending_of-none net key s.register_resources e)
      | inr (item, e) ↦
          rw (e, pending_of_at net key item s.register_resources e)
            (owner-forget item.unacknowledge_message j s.unacknowledge_messages)
    ]

    forgotten-lookup :
        (j : ℕ) (v : UnacknowledgeMessageItem)
        → lookup j (forget_existing net (lookup key s.register_resources) s.unacknowledge_messages)
          ≡ some v
        → lookup j s.unacknowledge_messages ≡ some v
    unfolding forget_existing
    forgotten-lookup j v = elim (Option-cases (lookup key s.register_resources)) [
      | inl e ↦ rw e (λ h. h)
      | inr (item, e) ↦ rw e (lookup-forget item.unacknowledge_message j s.unacknowledge_messages v)
    ]

    forgotten-IsUnique :
        IsUnique (forget_existing net (lookup key s.register_resources) s.unacknowledge_messages)
    unfolding forget_existing
    forgotten-IsUnique = elim (Option-cases (lookup key s.register_resources)) [
      | inl e ↦ rw e c.unique
      | inr (item, e) ↦
          rw e (forget-IsUnique item.unacknowledge_message s.unacknowledge_messages c.unique)
    ]

    -- Entering a registration on a resource that is there keeps the maps in agreement, where no
    -- address prints a dollar sign and a preferred block size is a valid one.
    pub recorded-IsConsistent :
        ((size : ℕ) → preferred ≡ some size → block_new 0 true size ≢ none)
        → IsConsistent net (recorded net responder path token preferred resource s)
    unfolding recorded
    recorded-IsConsistent valid = record {
      named = λ k a p. grind (
        arith,
        address_of-insert,
        path_of-insert,
        entered-fields,
        entered-resource,
        c.named k a p,
      );
      listed = λ k p. grind (
        arith,
        path_of-insert,
        entered-resource,
        listed_at-insert,
        contains-add,
        listed_at_at path k resource s.resources found,
        c.listed k p,
        existing-parts,
      );
      enrolled = λ k a. grind (
        arith,
        address_of-insert,
        entered-fields,
        enrolled_at-insert,
        enrol-contains,
        c.enrolled k a,
        existing-parts,
      );
      awaited = λ k i. grind (
        arith,
        pending_of-insert,
        entered-fields,
        forgotten-owner i,
        c.awaited k i,
        c.awaited key i,
      );
      issued = λ k i. grind (arith, pending_of-insert, entered-fields, c.issued k i);
      tried = λ i m h. c.tried i m (forgotten-lookup i m h);
      sized = λ k it n. grind (arith, lookup-insert, entered-fields, c.sized k it n, valid n);
      unique = forgotten-IsUnique;
    }

  leave-enrolled_at :
      (address key a k : Bytes) (v : RegisterItem) (m : List (Bytes × RegisterItem))
      → enrolled_at (leave net address key v m) a k
        ≡ ite
            (bytes_same address a)
            (contains k (erase key v.register_resources))
            (enrolled_at m a k)
  unfolding leave
  leave-enrolled_at address key a k v m = elim (empty-contains (erase key v.register_resources)) [
    | inl (e, none_there) ↦ rw e (grind (arith, enrolled_at-remove, none_there k))
    | inr e ↦ rw e (grind (arith, enrolled_at-insert))
  ]

  module _ {s : Observer Addr} (c : IsConsistent net s) (key : Bytes)
      (item : RegisterResourceItem Addr) (found : lookup key s.register_resources ≡ some item)
      (resource : ResourceItem) (there : lookup item.resource s.resources ≡ some resource)
      (enrolled : RegisterItem)
      (client : lookup (display item.registered_responder.address) s.registers
        ≡ some enrolled) where
    abbrev taken : Observer Addr
    taken = unlinked net key item.resource item resource enrolled s

    pub unlinked-IsConsistent : IsConsistent net taken
    unfolding unlinked
    unlinked-IsConsistent = record {
      named = λ k a p. grind (arith, address_of-remove, path_of-remove, c.named k a p);
      listed = λ k p. grind (
        arith,
        path_of-remove,
        path_of_at net key item s.register_resources found,
        listed_at-insert,
        contains-erase,
        listed_at_at item.resource k resource s.resources there,
        c.listed k p,
      );
      enrolled = λ k a. grind (
        arith,
        address_of-remove,
        address_of_at net key item s.register_resources found,
        leave-enrolled_at,
        contains-erase,
        enrolled_at_at (display item.registered_responder.address) k enrolled s.registers client,
        c.enrolled k a,
      );
      awaited = λ k i. grind (
        arith,
        pending_of-remove,
        pending_of_at net key item s.register_resources found,
        owner-forget,
        c.awaited k i,
        c.awaited key i,
      );
      issued = λ k i. grind (arith, pending_of-remove, c.issued k i);
      tried = λ i m h.
          c.tried i m (lookup-forget item.unacknowledge_message i s.unacknowledge_messages m h);
      sized = λ k it n. grind (arith, lookup-remove, c.sized k it n);
      unique = forget-IsUnique item.unacknowledge_message s.unacknowledge_messages c.unique;
    }
