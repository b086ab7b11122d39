-- ===== src/Observer/Behaviour.antt =====
-- src/observer.rs: what a registration and its removal do to the set of observers.
use coap_rs.Common.{
  ℕ, ◌≡◌, ◌≢◌, true, false, Option, some, [], Bytes, bytes_same, nat_key, bytes_key, lookup, remove,
  ite, arith, lookup-insert, lookup-remove, ◌∙◌, ap, sym,
}
use coap_rs.Coap.{Endpoint, Responder}
use coap_rs.Observer.{
  RegisterResourceItem, Observer, new, is_observing, record_register_resource, recorded,
  remove_register_resource, format_register_resource, unlink, unlinked,
}
use coap_rs.Observer.Keys.{IsPlain}
use coap_rs.Observer.Views.{owner, listed_at, enrolled_at, pending_of, path_of, address_of}
use coap_rs.Observer.Invariant.{IsConsistent}
use coap_rs.Observer.Removal.{unlink-Returns, found-resource}

module _ (net : Endpoint) where
  open net use {Addr, display}

  unlink-registry :
      (key path : Bytes) (item : RegisterResourceItem Addr) (s s' : Observer Addr)
      → unlink net key path item s ≡ some s'
      → s'.register_resources ≡ remove key s.register_resources
  unfolding unlink unlinked
  unlink-registry key path item s s' e = ground arith

  -- The observer starts with its maps in agreement.
  pub new-IsConsistent : IsConsistent net new
  unfolding owner listed_at enrolled_at pending_of path_of address_of lookup
  new-IsConsistent = record {
    named = λ k a p. cc;
    listed = λ k p. (λ e. cc, λ e. cc);
    enrolled = λ k a. (λ e. cc, λ e. cc);
    awaited = λ k i. (λ e. cc, λ e. cc);
    issued = λ k i. cc;
    tried = λ i m. cc;
    sized = λ k it n. cc;
    unique = tt;
  }

  -- After a registration its client observes the path, and every other key is observed as before.
  pub record_register_resource-observing :
      (responder : Responder Addr) (path token : Bytes) (preferred : Option ℕ)
      (s s' : Observer Addr) (a : Addr) (p : Bytes)
      → record_register_resource net responder path token preferred s ≡ some s'
      → is_observing net s' a p
        ≡ ite
            (bytes_same
              (format_register_resource net responder.address path)
              (format_register_resource net a p))
            true
            (is_observing net s a p)
  unfolding record_register_resource recorded is_observing
  record_register_resource-observing responder path token preferred s s' a p e =
      grind (arith, lookup-insert)

  unlink-observing :
      (plain : (a : Addr) → IsPlain (display a)) {s : Observer Addr} (c : IsConsistent net s)
      (address : Addr) (path : Bytes) (item : RegisterResourceItem Addr)
      → lookup (format_register_resource net address path) s.register_resources ≡ some item
      → (s' : Observer Addr) × (unlink net (format_register_resource net address path) path item s
          ≡ some s')
        × ((a : Addr) (p : Bytes)
            → is_observing net s' a p
              ≡ ite
                  (bytes_same
                    (format_register_resource net address path)
                    (format_register_resource net a p))
                  false
                  (is_observing net s a p))
  unfolding is_observing
  unlink-observing plain {s} c address path item e =
      let key = format_register_resource net address path in
      let r = unlink-Returns net c key item e in
      let same = found-resource net plain c address path [] item e in
      (
        r.observer,
        ap (λ q. unlink net key q item s) (sym same) ∙ r.returned,
        λ a p.
            grind (
              arith,
              unlink-registry key item.resource item s r.observer r.returned,
              lookup-remove,
            ),
      )

  -- A removal with the registration's token ends the observation and no other; with another token
  -- it returns `false` and changes nothing.
  pub remove_register_resource-observing :
      (plain : (a : Addr) → IsPlain (display a)) {s : Observer Addr} (c : IsConsistent net s)
      (address : Addr) (path token : Bytes) (item : RegisterResourceItem Addr)
      → lookup (format_register_resource net address path) s.register_resources ≡ some item
      → (item.token ≢ token → remove_register_resource net address path token s ≡ some (s, false))
        × (item.token ≡ token
            → (s' : Observer Addr) × (remove_register_resource net address path token s
                ≡ some (s', true))
              × ((a : Addr) (p : Bytes)
                  → is_observing net s' a p
                    ≡ ite
                        (bytes_same
                          (format_register_resource net address path)
                          (format_register_resource net a p))
                        false
                        (is_observing net s a p)))
  unfolding remove_register_resource
  remove_register_resource-observing plain {s} c address path token item e = (
    λ ne. ground arith,
    λ same.
        let (s', returned, observing) = unlink-observing plain c address path item e in
        (s', ground arith, observing),
  )
