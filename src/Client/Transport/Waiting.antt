-- ===== src/Client/Transport/Waiting.antt =====
-- src/client.rs: which waiting request is given a packet, and that a failure reaches all of them.
use mathlib.Core.Path.{subst}
use coap_rs.Common.{
  ℕ, ◌≡◌, refl, none, some, List, [], ◌∷◌, ◌++◌, Bytes, bytes_key, lookup, remove, arith, IsUnique,
  ap, ◌∙◌, sym, append_assoc, append-nil, IsSorted, IsSorted-IsUnique, set_entry-IsSorted,
  remove-IsSorted, Option-cases, inl, inr,
}
use coap_rs.Coap.{MessageClass}
use coap_rs.Client.{Message}
use coap_rs.Client.Transport.{
  TransportSynchronizer, Failure, Delivery, packet, failed, Received, fail, fail_keys, fail_key,
  keys, send_to, set_sender, remove_sender, get_sender, hand_over, dispatch, parse_for_ack,
  receive_loop, elapsed, malformed, broken, arrived,
}

abbrev pub Waiting : Type 0
Waiting = List (Bytes × ℕ)

remove-absent : (k : Bytes) (m : Waiting) → lookup k m ≡ none → remove k m ≡ m
unfolding lookup remove
remove-absent k [] h = refl
remove-absent k ((j, v) ∷ m) h = ground (arith, remove-absent k m)

-- The failure for each sender that waits.
abbrev pub failures : Failure → Waiting → List (ℕ × Delivery)
failures e [] = []
failures e ((k, sender) ∷ m) = (sender, failed e) ∷ failures e m

fail_key-first :
    (e : Failure) (k : Bytes) (sender : ℕ) (m : Waiting) (s : TransportSynchronizer)
    → s.outgoing ≡ (k, sender) ∷ m
    → lookup k m ≡ none
    → fail_key e k s ≡ send_to sender (failed e) (record s { outgoing = m })
unfolding fail_key lookup remove
fail_key-first e k sender m s h fresh = rw h (grind (arith, remove-absent k m fresh))

fail_keys-all :
    (e : Failure) (m : Waiting) (s : TransportSynchronizer)
    → s.outgoing ≡ m
    → IsUnique m
    → fail_keys e (keys m) s ≡ record s { outgoing = []; delivered = s.delivered ++ failures e m }
unfolding fail_keys
fail_keys-all e [] s h u = rw (append-nil s.delivered) (ap (λ o. record s { outgoing = o }) h)
fail_keys-all e ((k, sender) ∷ m) s h (fresh, u) =
    let next = send_to sender (failed e) (record s { outgoing = m }) in
    ap (λ q. fail_keys e (keys m) q) (fail_key-first e k sender m s h fresh)
    ∙ (fail_keys-all e m next refl u
        ∙ ap (λ d. record s { outgoing = []; delivered = d })
            (append_assoc s.delivered ((sender, failed e) ∷ []) (failures e m)))

pub fail_all :
    (e : Failure) (s : TransportSynchronizer)
    → IsUnique s.outgoing
    → fail e s ≡ record {
      outgoing = [];
      fail_error = some e;
      delivered = s.delivered ++ failures e s.outgoing;
    }
unfolding fail
fail_all e s u = fail_keys-all e s.outgoing (record s { fail_error = some e }) refl u

-- A failure is handed to every sender that waits and to nobody else, in the ascending order of the
-- tokens, and no sender waits then; where one is entered later it is handed the failure at once and
-- does not wait. The registry keeps its tokens in ascending order.
pub fail_lem :
    (e : Failure) (s : TransportSynchronizer)
    → IsSorted s.outgoing
    → (fail e s ≡ record {
      outgoing = [];
      fail_error = some e;
      delivered = s.delivered ++ failures e s.outgoing;
    })
      × ((key : Bytes) (sender : ℕ)
          → set_sender key sender (fail e s) ≡ send_to sender (failed e) (fail e s))
unfolding fail set_sender
fail_lem e s u =
    let all = fail_all e s (IsSorted-IsUnique s.outgoing u) in (all, λ key sender. rw all refl)

-- The operations on the registry keep its order.
pub set_sender-IsSorted :
    (key : Bytes) (sender : ℕ) (s : TransportSynchronizer)
    → IsSorted s.outgoing
    → IsSorted (set_sender key sender s).outgoing
unfolding set_sender
set_sender-IsSorted key sender s h = elim (Option-cases s.fail_error) [
  | inl fine ↦ rw fine (set_entry-IsSorted key sender s.outgoing h)
  | inr (e, broken_before) ↦ rw broken_before h
]

pub remove_sender-IsSorted :
    (key : Bytes) (s : TransportSynchronizer)
    → IsSorted s.outgoing
    → IsSorted (remove_sender key s).outgoing
unfolding remove_sender
remove_sender-IsSorted key s h = remove-IsSorted key s.outgoing h

-- A packet was handed to the sender that waits for its token.
abbrev pub IsOwn : Waiting → ℕ × Delivery → Type 0
IsOwn waiting (sender, packet m) = lookup m.token waiting ≡ some sender
IsOwn waiting (sender, failed e) = Unit {0}

abbrev pub AllOwn : Waiting → List (ℕ × Delivery) → Type 0
AllOwn waiting [] = Unit {0}
AllOwn waiting (d ∷ ds) = IsOwn waiting d × AllOwn waiting ds

failures-AllOwn : (waiting : Waiting) (e : Failure) (m : Waiting) → AllOwn waiting (failures e m)
failures-AllOwn waiting e [] = tt
failures-AllOwn waiting e ((k, sender) ∷ m) = (tt, failures-AllOwn waiting e m)

-- What a packet's arrival adds.
pub dispatch-adds :
    (code : MessageClass) (m : Message) (s : TransportSynchronizer)
    → (ds : List (ℕ × Delivery)) × (dispatch code m s ≡ record s { delivered = s.delivered ++ ds })
      × AllOwn s.outgoing ds
unfolding dispatch hand_over get_sender
dispatch-adds (MessageClass.response status) m s = elim (Option-cases (lookup m.token s.outgoing)) [
  | inl absent ↦ ([], rw (append-nil s.delivered, dispatch, hand_over, get_sender, absent) refl, tt)
  | inr (sender, there) ↦
      ((sender, packet m) ∷ [], rw (dispatch, hand_over, get_sender, there) refl, (there, tt))
]
dispatch-adds _ m s = ([], rw (append-nil s.delivered) refl, tt)

AllOwn-append :
    (waiting : Waiting) (ds es : List (ℕ × Delivery))
    → AllOwn waiting ds
    → AllOwn waiting es
    → AllOwn waiting (ds ++ es)
AllOwn-append waiting [] es h k = k
AllOwn-append waiting (d ∷ ds) es (h, hs) k = (h, AllOwn-append waiting ds es hs k)

-- What one state adds to another's deliveries is all own.
abbrev pub Adds : TransportSynchronizer → TransportSynchronizer → Type 0
Adds s t = (ds : List (ℕ × Delivery)) × (t.delivered ≡ s.delivered ++ ds) × AllOwn s.outgoing ds

Adds-refl : (s : TransportSynchronizer) → Adds s s
Adds-refl s = ([], sym (append-nil s.delivered), tt)

after_dispatch :
    (m : Message) (s t : TransportSynchronizer) → Adds (dispatch m.code m s) t → Adds s t
after_dispatch m s t (es, e, h) =
    let (ds, same, own) = dispatch-adds m.code m s in
    (
      ds ++ es,
      e
          ∙ (ap (λ (q : TransportSynchronizer). q.delivered ++ es) same
              ∙ append_assoc s.delivered ds es),
      AllOwn-append s.outgoing ds es own
          (subst (λ w. AllOwn w es) (ap (λ (q : TransportSynchronizer). q.outgoing) same) h),
    )

-- Whatever arrives, the loop only adds to what the channels were given, and each packet that it adds
-- goes to the sender that waited for the packet's token. No key stands twice in the registry.
pub receive_loop-AllOwn :
    (blank : Message) (events : List Received) (s : TransportSynchronizer)
    → IsUnique s.outgoing
    → (ds : List (ℕ × Delivery)) × ((receive_loop blank events s).synchronizer.delivered
        ≡ s.delivered ++ ds)
      × AllOwn s.outgoing ds
unfolding receive_loop
receive_loop-AllOwn blank [] s u = Adds-refl s
receive_loop-AllOwn blank (elapsed ∷ rest) s u = receive_loop-AllOwn blank rest s u
receive_loop-AllOwn blank (malformed ∷ rest) s u = receive_loop-AllOwn blank rest s u
receive_loop-AllOwn blank (broken e ∷ rest) s u = (
  failures e s.outgoing,
  ap (λ (q : TransportSynchronizer). q.delivered) (fail_all e s u),
  failures-AllOwn s.outgoing e s.outgoing,
)
receive_loop-AllOwn blank (arrived m none ∷ rest) s u =
    let (ds, same, own) = dispatch-adds m.code m s in
    let t = dispatch m.code m s in
    let u' =
      subst (λ w. IsUnique w) (sym (ap (λ (q : TransportSynchronizer). q.outgoing) same)) u in
    let later =
      after_dispatch m s (receive_loop blank rest t).synchronizer
        (receive_loop-AllOwn blank rest t u') in
    elim (Option-cases (parse_for_ack blank m)) [
      | inl no_ack ↦ rw (receive_loop, no_ack) later
      | inr (ack, yes_ack) ↦ rw (receive_loop, yes_ack) later
    ]
receive_loop-AllOwn blank (arrived m (some e) ∷ rest) s u =
    let (ds, same, own) = dispatch-adds m.code m s in
    let t = dispatch m.code m s in
    let u' =
      subst (λ w. IsUnique w) (sym (ap (λ (q : TransportSynchronizer). q.outgoing) same)) u in
    let later =
      after_dispatch m s (receive_loop blank rest t).synchronizer
        (receive_loop-AllOwn blank rest t u') in
    elim (Option-cases (parse_for_ack blank m)) [
      | inl no_ack ↦ rw (receive_loop, no_ack) later
      | inr (ack, yes_ack) ↦ rw (receive_loop, yes_ack) (Adds-refl s)
    ]
