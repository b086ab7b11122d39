-- ===== src/Client/Transport/Requests.antt =====
-- src/client.rs: requests of one client that run at once, with the loop that receives for them.
use mathlib.Core.Path.{subst}
use coap_rs.Common.{
  ℕ, ◌≡◌, refl, ◌⊎◌, inl, inr, none, some, List, [], ◌∷◌, Bytes, bytes_key, bytes_same, nat_key,
  lookup, set_entry, remove, arith, IsUnique, set_entry-IsUnique, remove-IsUnique, lookup-set_entry,
  lookup-remove, ap, ◌∙◌, sym, All, All-mono, All-append, ◌≢◌, Option-cases,
}
use coap_rs.Client.{Message}
use coap_rs.Client.Transport.{
  TransportSynchronizer, new, Delivery, packet, failed, Failure, Received, elapsed, malformed,
  broken, arrived, receive_loop, dispatch, parse_for_ack, send_to, set_sender,
  establish_receiver_for, remove_sender,
}
use coap_rs.Client.Transport.Waiting.{AllOwn, receive_loop-AllOwn, dispatch-adds, fail_all}

-- The registry, and the token of the request that each channel was opened for.
pub record World : Type 0 where
  pub synchronizer : TransportSynchronizer
  pub opened : List (ℕ × Bytes)

pub data Step (blank : Message) (w : World) : World → Type 0 where
  establishes :
      (m : Message) (sender : ℕ)
      → lookup sender w.opened ≡ none
      → Step blank w (record {
        synchronizer = establish_receiver_for m sender w.synchronizer;
        opened = (sender, m.token) ∷ w.opened;
      })
  receives :
      (events : List Received)
      → Step blank w
          (record w { synchronizer = (receive_loop blank events w.synchronizer).synchronizer })
  removes :
      (token : Bytes)
      → Step blank w (record w { synchronizer = remove_sender token w.synchronizer })

pub data Reach (blank : Message) : World → Type 0 where
  starts : Reach blank (record { synchronizer = new; opened = [] })
  steps : {w v : World} → Reach blank w → Step blank w v → Reach blank v

-- What a channel was given carries the token that the channel was opened for.
abbrev pub Carries : List (ℕ × Bytes) → ℕ × Delivery → Type 0
Carries opened (sender, packet m) = lookup sender opened ≡ some m.token
Carries opened (sender, failed e) = Unit

pub record IsOwned (w : World) : Type 0 where
  pub unique : IsUnique w.synchronizer.outgoing
  pub known :
      (k : Bytes) (sender : ℕ)
      → lookup k w.synchronizer.outgoing ≡ some sender
      → lookup sender w.opened ≡ some k
  pub carried : All (Carries w.opened) w.synchronizer.delivered

kept_or_emptied :
    (m : Message) (s : TransportSynchronizer) (left : List (Bytes × ℕ))
    → (left ≡ (dispatch m.code m s).outgoing) ⊎ (left ≡ [])
    → (left ≡ s.outgoing) ⊎ (left ≡ [])
kept_or_emptied m s left (inr gone) = inr gone
kept_or_emptied m s left (inl stays) =
    let (ds, same, own) = dispatch-adds m.code m s in
    inl (stays ∙ ap (λ (q : TransportSynchronizer). q.outgoing) same)

dispatch-IsUnique :
    (m : Message) (s : TransportSynchronizer)
    → IsUnique s.outgoing
    → IsUnique (dispatch m.code m s).outgoing
dispatch-IsUnique m s u =
    let (ds, same, own) = dispatch-adds m.code m s in
    subst (λ w. IsUnique w) (sym (ap (λ (q : TransportSynchronizer). q.outgoing) same)) u

-- Nothing is entered while the loop receives: the registry stays, or a failure empties it.
receive_loop-outgoing :
    (blank : Message) (events : List Received) (s : TransportSynchronizer)
    → IsUnique s.outgoing
    → ((receive_loop blank events s).synchronizer.outgoing ≡ s.outgoing)
      ⊎ ((receive_loop blank events s).synchronizer.outgoing ≡ [])
unfolding receive_loop
receive_loop-outgoing blank [] s u = inl refl
receive_loop-outgoing blank (elapsed ∷ rest) s u = receive_loop-outgoing blank rest s u
receive_loop-outgoing blank (malformed ∷ rest) s u = receive_loop-outgoing blank rest s u
receive_loop-outgoing blank (broken e ∷ rest) s u =
    inr (ap (λ (q : TransportSynchronizer). q.outgoing) (fail_all e s u))
receive_loop-outgoing blank (arrived m none ∷ rest) s u =
    let t = dispatch m.code m s in
    let later =
      kept_or_emptied m s (receive_loop blank rest t).synchronizer.outgoing
        (receive_loop-outgoing blank rest t (dispatch-IsUnique m s u)) in
    elim (Option-cases (parse_for_ack blank m)) [
      | inl no_ack ↦ rw (receive_loop, no_ack) later
      | inr (ack, yes_ack) ↦ rw (receive_loop, yes_ack) later
    ]
receive_loop-outgoing blank (arrived m (some e) ∷ rest) s u =
    let t = dispatch m.code m s in
    let later =
      kept_or_emptied m s (receive_loop blank rest t).synchronizer.outgoing
        (receive_loop-outgoing blank rest t (dispatch-IsUnique m s u)) in
    elim (Option-cases (parse_for_ack blank m)) [
      | inl no_ack ↦ rw (receive_loop, no_ack) later
      | inr (ack, yes_ack) ↦ rw (receive_loop, yes_ack) (inl refl)
    ]

AllOwn-Carries :
    (opened : List (ℕ × Bytes)) (s : TransportSynchronizer) (ds : List (ℕ × Delivery))
    → ((k : Bytes) (sender : ℕ) → lookup k s.outgoing ≡ some sender → lookup sender opened ≡ some k)
    → AllOwn s.outgoing ds
    → All (Carries opened) ds
AllOwn-Carries opened s [] known own = tt
AllOwn-Carries opened s ((sender, packet m) ∷ ds) known (here, own) =
    (known m.token sender here, AllOwn-Carries opened s ds known own)
AllOwn-Carries opened s ((sender, failed e) ∷ ds) known (here, own) =
    (tt, AllOwn-Carries opened s ds known own)

extended :
    (sender j : ℕ) (token t : Bytes) (opened : List (ℕ × Bytes))
    → lookup sender opened ≡ none
    → lookup j opened ≡ some t
    → lookup j ((sender, token) ∷ opened) ≡ some t
unfolding lookup
extended sender j token t opened fresh there = grind arith

Carries-extended :
    (sender : ℕ) (token : Bytes) (opened : List (ℕ × Bytes))
    → lookup sender opened ≡ none
    → (d : ℕ × Delivery) → Carries opened d
    → Carries ((sender, token) ∷ opened) d
Carries-extended sender token opened fresh (j, packet m) there =
    extended sender j token m.token opened fresh there
Carries-extended sender token opened fresh (j, failed e) there = tt

opened_here :
    (sender : ℕ) (token : Bytes) (opened : List (ℕ × Bytes))
    → lookup sender ((sender, token) ∷ opened) ≡ some token
unfolding lookup
opened_here sender token opened = ground arith

nowhere : (k : Bytes) (sender : ℕ) → lookup k [] ≢ some sender
unfolding lookup
nowhere k sender e = ground (arith, e)

remains :
    (token k : Bytes) (sender : ℕ) (m : List (Bytes × ℕ))
    → lookup k (remove token m) ≡ some sender
    → lookup k m ≡ some sender
remains token k sender m there = grind (arith, lookup-remove token k m)

entered :
    (k token : Bytes) (sender j : ℕ) (m : List (Bytes × ℕ))
    → lookup k (set_entry token sender m) ≡ some j
    → ((k ≡ token) × (j ≡ sender)) ⊎ (lookup k m ≡ some j)
entered k token sender j m there = elim (bytes_same token k) [
  | yes p ↦ inl (sym p, grind (arith, lookup-set_entry token k sender m))
  | no p ↦ inr (grind (arith, lookup-set_entry token k sender m))
]

set_sender-entered :
    (key : Bytes) (sender : ℕ) (s : TransportSynchronizer)
    → s.fail_error ≡ none
    → set_sender key sender s ≡ record s { outgoing = set_entry key sender s.outgoing }
unfolding set_sender
set_sender-entered key sender s fine = ground arith

set_sender-failed :
    (key : Bytes) (sender : ℕ) (e : Failure) (s : TransportSynchronizer)
    → s.fail_error ≡ some e
    → set_sender key sender s ≡ send_to sender (failed e) s
unfolding set_sender
set_sender-failed key sender e s broken_before = ground arith

Step-IsOwned : (blank : Message) {w v : World} → Step blank w v → IsOwned w → IsOwned v
unfolding establish_receiver_for remove_sender
Step-IsOwned blank {w} (establishes m sender fresh) h =
    let opened = (sender, m.token) ∷ w.opened in
    let carried =
      All-mono (Carries w.opened) (Carries opened) w.synchronizer.delivered
        (Carries-extended sender m.token w.opened fresh) h.carried in
    elim (Option-cases w.synchronizer.fail_error) [
      | inl fine ↦
          let same = set_sender-entered m.token sender w.synchronizer fine in
          subst (λ s. IsOwned (record { synchronizer = s; opened = opened })) (sym same)
            (record {
              unique = set_entry-IsUnique m.token sender w.synchronizer.outgoing h.unique;
              known = λ k j there. elim (entered k m.token sender j w.synchronizer.outgoing there) [
                | inl (p, q) ↦ rw (p, q) (opened_here sender m.token w.opened)
                | inr before ↦ extended sender j m.token k w.opened fresh (h.known k j before)
              ];
              carried = carried;
            })
      | inr (e, broken_before) ↦
          let same = set_sender-failed m.token sender e w.synchronizer broken_before in
          subst (λ s. IsOwned (record { synchronizer = s; opened = opened })) (sym same)
            (record {
              unique = h.unique;
              known = λ k j there. extended sender j m.token k w.opened fresh (h.known k j there);
              carried =
                  All-append (Carries opened) w.synchronizer.delivered ((sender, failed e) ∷ [])
                    carried (tt, tt);
            })
    ]
Step-IsOwned blank {w} (receives events) h =
    let (ds, same, own) = receive_loop-AllOwn blank events w.synchronizer h.unique in
    let here = AllOwn-Carries w.opened w.synchronizer ds h.known own in
    let carried =
      subst (λ l. All (Carries w.opened) l) (sym same)
        (All-append (Carries w.opened) w.synchronizer.delivered ds h.carried here) in
    elim (receive_loop-outgoing blank events w.synchronizer h.unique) [
      | inl stays ↦ record {
        unique = subst (λ o. IsUnique o) (sym stays) h.unique;
        known = λ k sender there. h.known k sender (ap (λ o. lookup k o) (sym stays) ∙ there);
        carried = carried;
      }
      | inr gone ↦ record {
        unique = subst (λ o. IsUnique o) (sym gone) tt;
        known =
            λ k sender there. absurd (nowhere k sender (ap (λ o. lookup k o) (sym gone) ∙ there));
        carried = carried;
      }
    ]
Step-IsOwned blank {w} (removes token) h = record {
  unique = remove-IsUnique token w.synchronizer.outgoing h.unique;
  known = λ k sender there. h.known k sender (remains token k sender w.synchronizer.outgoing there);
  carried = h.carried;
}

pub Reach-IsOwned : (blank : Message) {w : World} → Reach blank w → IsOwned w
Reach-IsOwned blank starts = record {
  unique = tt;
  known = λ k sender there. absurd (nowhere k sender there);
  carried = tt;
}
Reach-IsOwned blank (steps r st) = Step-IsOwned blank st (Reach-IsOwned blank r)
