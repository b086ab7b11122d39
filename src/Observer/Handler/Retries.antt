-- ===== src/Observer/Handler/Retries.antt =====
-- src/observer.rs: a tick of the timer counts a try for each pending message, gives up what was
-- tried too often, and never panics.
use coap_rs.Common.{
  ℕ, ◌≡◌, refl, ◌≢◌, false, Option, none, some, List, [], ◌∷◌, Bytes, nat_key, bytes_key, lookup,
  arith, inl, inr, ltb, Bool-cases, ◌∙◌, IsUnique,
}
use coap_rs.Coap.{Endpoint}
use coap_rs.Observer.{
  RegisterResourceItem, UnacknowledgeMessageItem, Observer, Pending, settle, count_try,
  try_unacknowledge_message, default_try_times,
}
use coap_rs.Observer.Views.{
  owner_at, owner-inv, pending_of, pending_of-inv, pending_of-insert, path_of_at,
}
use coap_rs.Observer.Invariant.{IsConsistent, settle-IsConsistent, count_try-IsConsistent}
use coap_rs.Observer.Removal.{Returns}
use coap_rs.Observer.Handler.{awaiting, retry, retry_all, timer_handler}
use coap_rs.Observer.Handler.Notices.{All, notify-Sends, resend-IsConsistent}

module _ (net : Endpoint) where
  open net use {Addr}

  -- One retry: it touches no other pending message.
  pub record Retried (key : Bytes) (s : Observer Addr) (m : Option (Observer Addr)) : Type 0 where
    pub observer : Observer Addr
    pub returned : m ≡ some observer
    pub consistent : IsConsistent net observer
    pub others :
        (j : Bytes)
        → j ≢ key
        → pending_of net observer.register_resources j ≡ pending_of net s.register_resources j

  module _ (id : ℕ) (key : Bytes) (item : RegisterResourceItem Addr) (s : Observer Addr) where
    settle-others :
        (j : Bytes)
        → j ≢ key
        → pending_of net (settle net id key item s).register_resources j
          ≡ pending_of net s.register_resources j
    unfolding settle
    settle-others j h = grind (arith, pending_of-insert)

  module _ {s : Observer Addr} (c : IsConsistent net s) (key : Bytes) (id : ℕ)
      (waits : pending_of net s.register_resources key ≡ some id) where
    counted :
        (item : RegisterResourceItem Addr) (message : UnacknowledgeMessageItem)
        → lookup key s.register_resources ≡ some item
        → item.unacknowledge_message ≡ some id
        → lookup id s.unacknowledge_messages ≡ some message
        → ltb default_try_times message.try_times ≡ false
        → Retried key s (retry net key s)
    unfolding retry try_unacknowledge_message count_try
    counted item message found pending there few =
        let c' = count_try-IsConsistent net c key item found id message there (ground arith) in
        let (sent, e) =
          notify-Sends net c' key item.resource
            (path_of_at net key item s.register_resources found) in
        record {
          observer = record (count_try net id message s) { sent = sent };
          returned = rw (found, pending, there, few) e;
          consistent = resend-IsConsistent net sent c';
          others = λ j h. refl;
        }

    pub retry-Retried : Retried key s (retry net key s)
    unfolding retry try_unacknowledge_message
    retry-Retried =
        let (item, found, pending) = pending_of-inv net key id s.register_resources waits in
        let (message, there, _) =
          owner-inv id key s.unacknowledge_messages ((c.awaited key id).0 waits) in
        elim (Bool-cases (ltb default_try_times message.try_times)) [
          | inl many ↦ record {
            observer = settle net id key item s;
            returned = rw (found, pending, there, many) refl;
            consistent = settle-IsConsistent net c key item found id pending;
            others = settle-others id key item s;
          }
          | inr few ↦ counted item message found pending there few
        ]

  abbrev Waits : Observer Addr → Bytes → Type 0
  Waits s key = (id : ℕ) × (pending_of net s.register_resources key ≡ some id)

  -- The keys differ from one another.
  abbrev IsDistinct : List Bytes → Type 0
  IsDistinct [] = Unit
  IsDistinct (key ∷ keys) = All (λ j. j ≢ key) keys × IsDistinct keys

  Waits-moved :
      (key : Bytes) (keys : List Bytes) (s t : Observer Addr)
      → ((j : Bytes)
          → j ≢ key
          → pending_of net t.register_resources j ≡ pending_of net s.register_resources j)
      → All (λ j. j ≢ key) keys
      → All (Waits s) keys
      → All (Waits t) keys
  Waits-moved key [] s t same far h = tt
  Waits-moved key (j ∷ keys) s t same (ne, far) ((id, e), h) =
      ((id, same j ne ∙ e), Waits-moved key keys s t same far h)

  retry_all-Returns :
      (keys : List Bytes) {s : Observer Addr} (c : IsConsistent net s)
      → IsDistinct keys
      → All (Waits s) keys
      → Returns net (retry_all net keys s)
  unfolding retry_all
  retry_all-Returns [] {s} c d h = record { observer = s; returned = refl; consistent = c }
  retry_all-Returns (key ∷ keys) {s} c (far, d) ((id, e), h) =
      let first = retry-Retried c key id e in
      let rest =
        retry_all-Returns keys first.consistent d
          (Waits-moved key keys s first.observer first.others far h) in
      record {
        observer = rest.observer;
        returned = rw first.returned rest.returned;
        consistent = rest.consistent;
      }

  -- Each pending message names a registration that waits for it, and no two name the same one.
  module _ (s : Observer Addr) where
    abbrev Named : Pending → Type 0
    Named m =
        (id : ℕ) (v : UnacknowledgeMessageItem)
        → lookup id m ≡ some v
        → pending_of net s.register_resources v.register_resource ≡ some id

    Named-tail :
        (id : ℕ) (v : UnacknowledgeMessageItem) (m : Pending)
        → IsUnique ((id, v) ∷ m)
        → Named ((id, v) ∷ m)
        → Named m
    unfolding lookup
    Named-tail id v m (fresh, _) named i w e = named i w (grind arith)

    Named-head :
        (id : ℕ) (v : UnacknowledgeMessageItem) (m : Pending)
        → Named ((id, v) ∷ m)
        → pending_of net s.register_resources v.register_resource ≡ some id
    unfolding lookup
    Named-head id v m named = named id v (grind arith)

    awaiting-Waits : (m : Pending) → IsUnique m → Named m → All (Waits s) (awaiting net m)
    unfolding awaiting
    awaiting-Waits [] u named = tt
    awaiting-Waits ((id, v) ∷ m) u named =
        ((id, Named-head id v m named), awaiting-Waits m u.1 (Named-tail id v m u named))

    apart :
        (id : ℕ) (key : Bytes) (m : Pending)
        → pending_of net s.register_resources key ≡ some id
        → lookup id m ≡ none
        → IsUnique m
        → Named m
        → All (λ j. j ≢ key) (awaiting net m)
    unfolding awaiting lookup
    apart id key [] waits absent u named = tt
    apart id key ((i, v) ∷ m) waits absent u named = (
      (λ same. grind (arith, Named-head i v m named)),
      apart id key m waits (grind arith) u.1 (Named-tail i v m u named),
    )

    awaiting-IsDistinct : (m : Pending) → IsUnique m → Named m → IsDistinct (awaiting net m)
    unfolding awaiting
    awaiting-IsDistinct [] u named = tt
    awaiting-IsDistinct ((id, v) ∷ m) u named =
        let rest = Named-tail id v m u named in
        (
          apart id v.register_resource m (Named-head id v m named) u.0 u.1 rest,
          awaiting-IsDistinct m u.1 rest,
        )

  -- Where the maps agree, a tick of the timer does not panic and keeps them in agreement.
  pub timer_handler-Returns :
      {s : Observer Addr} → IsConsistent net s → Returns net (timer_handler net s)
  unfolding timer_handler
  timer_handler-Returns {s} c =
      let m = s.unacknowledge_messages in
      let named : Named s m = λ id v e. (c.awaited v.register_resource id).1 (owner_at id v m e) in
      retry_all-Returns (awaiting net m) c (awaiting-IsDistinct s m c.unique named)
        (awaiting-Waits s m c.unique named)
