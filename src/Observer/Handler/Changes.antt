-- ===== src/Observer/Handler/Changes.antt =====
-- src/observer.rs: a change of a resource never panics while the counters have room.
use coap_rs.Common.{
  ◌+◌, ◌<◌, ◌^◌, ◌≡◌, refl, true, false, Option, some, List, [], ◌∷◌, Bytes, nat_key, bytes_key,
  lookup, contains, insert, length, arith, Option-cases, inl, inr, sym, ◌∙◌,
}
use coap_rs.Coap.{Endpoint, Request}
use coap_rs.Observer.{ResourceItem, Observer, renew, created, record_resource}
use coap_rs.Observer.Encode.{compute_etag}
use coap_rs.Observer.Views.{path_of, listed_at, listed_at-insert, listed_at_at, listed_at-none}
use coap_rs.Observer.Invariant.{IsConsistent}
use coap_rs.Observer.Handler.{resource_changed}
use coap_rs.Observer.Handler.Notices.{All, notify_all-AllNotified}

module _ (net : Endpoint) where
  open net use {Addr}

  created-empty : (payload k : Bytes) → contains k (created net payload).register_resources ≡ false
  unfolding created contains
  created-empty payload k = refl

  -- The resource after a change, whether or not it was there before.
  module _ {s : Observer Addr} (c : IsConsistent net s) (path payload : Bytes)
      (room : (r : ResourceItem) → lookup path s.resources ≡ some r → r.sequence + 1 < 2 ^ 32) where
    pub renew-total :
        (r : ResourceItem) × (renew net payload (lookup path s.resources) ≡ some r)
        × ((k : Bytes) → contains k r.register_resources ≡ listed_at s.resources path k)
    unfolding renew
    renew-total = elim (Option-cases (lookup path s.resources)) [
      | inl e ↦ (
        created net payload,
        rw e,
        λ k. created-empty payload k ∙ sym (listed_at-none path k s.resources e),
      )
      | inr (r, e) ↦
          let fits = room r e in
          (
            record r { sequence = r.sequence + 1; payload = payload; etag = compute_etag payload },
            rw e (ground arith),
            λ k. sym (listed_at_at path k r s.resources e),
          )
    ]

    pub replaced-IsConsistent :
        (r : ResourceItem)
        → ((k : Bytes) → contains k r.register_resources ≡ listed_at s.resources path k)
        → IsConsistent net (record s { resources = insert path r s.resources })
    replaced-IsConsistent r same = record {
      named = c.named;
      listed = λ k p. grind (arith, listed_at-insert, same k, c.listed k p);
      enrolled = c.enrolled;
      awaited = c.awaited;
      issued = c.issued;
      tried = c.tried;
      sized = c.sized;
      unique = c.unique;
    }

    -- The loop's keys are all registered on the resource.
    keys-registered :
        (keys : List Bytes)
        → ((k : Bytes) → contains k keys ≡ true → listed_at s.resources path k ≡ true)
        → All (λ key. path_of net s.register_resources key ≡ some path) keys
    unfolding contains
    keys-registered [] h = tt
    keys-registered (key ∷ keys) h = (
      (c.listed key path).1 (h key (ground arith)),
      keys-registered keys (λ k e. h k (ground arith)),
    )

    -- What a change leaves: maps that agree, with the registrations that there were.
    pub record Changed (m : Option (Observer Addr)) : Type 0 where
      pub observer : Observer Addr
      pub returned : m ≡ some observer
      pub consistent : IsConsistent net observer
      pub same_paths :
          (j : Bytes)
          → path_of net observer.register_resources j ≡ path_of net s.register_resources j

    pub changed :
        (request : Request Addr)
        → request.path ≡ path
        → request.payload ≡ payload
        → ((r : ResourceItem)
            → renew net payload (lookup path s.resources) ≡ some r
            → s.current_message_id + length r.register_resources < 2 ^ 16)
        → Changed (resource_changed net request s)
    unfolding resource_changed record_resource
    changed request at_path with_payload ids =
        let (r, renewed, same) = renew-total in
        let replaced = replaced-IsConsistent r same in
        let all =
          notify_all-AllNotified net r.register_resources replaced path
            (keys-registered r.register_resources (λ k e. sym (same k) ∙ e)) (ids r renewed) in
        record {
          observer = all.observer;
          returned = rw (at_path, with_payload, renewed) all.returned;
          consistent = all.consistent;
          same_paths = all.same_paths;
        }
