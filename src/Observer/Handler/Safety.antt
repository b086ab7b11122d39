-- ===== src/Observer/Handler/Safety.antt =====
-- src/observer.rs: no request makes the observer panic while its counters have room, and each leaves
-- its maps in agreement.
use coap_rs.Common.{
  ℕ, ◌+◌, ◌<◌, ◌^◌, ◌≡◌, refl, ◌≢◌, Bool, true, false, Option, none, some, List, ◌>>=◌, Bytes,
  nat_key, bytes_key, lookup, length, arith, Option-cases, inl, inr, Bool-cases, lookup-insert, add,
}
use coap_rs.Coap.{Endpoint, Responder, Request, Packet, MessageType, Method, ObserveOption, Block}
use coap_rs.Observer.{
  ResourceItem, Observer, record_register_resource, recorded, renew, format_register_resource,
}
use coap_rs.Observer.Keys.{IsPlain}
use coap_rs.Observer.Views.{owner_at, pending_of-inv}
use coap_rs.Observer.Invariant.{IsConsistent, settle-IsConsistent}
use coap_rs.Observer.Registrations.{recorded-IsConsistent}
use coap_rs.Observer.Removal.{
  Returns, remove_register_resource-Returns, remove_unacknowledge_message-Returns,
}
use coap_rs.Observer.Handler.{
  register, deregister, reset_notification, acknowledge, resource_changed, request_handler,
  handle_method, handle_kind, keep, Handled, reply_not_found, reply_accepted, send_accepted,
  acceptance, is_source, block_size?,
}
use coap_rs.Observer.Handler.Notices.{resend-IsConsistent, respond-sent, describe-total, has_some}
use coap_rs.Observer.Handler.Changes.{changed}

module _ (net : Endpoint) where
  open net use {Addr, display, block_new, block_size}

  -- The counters can be raised once for each message that the request may cause.
  pub record HasRoom (request : Request Addr) (s : Observer Addr) : Type 0 where
    pub number : s.current_message_id < 2 ^ 16
    pub numbers :
        (r : ResourceItem)
        → lookup request.path s.resources ≡ some r
        → s.current_message_id + length r.register_resources < 2 ^ 16
    pub sequence :
        (r : ResourceItem) → lookup request.path s.resources ≡ some r → r.sequence + 1 < 2 ^ 32

  renewed-room :
      (request : Request Addr) (s : Observer Addr)
      → HasRoom request s
      → (r : ResourceItem) → renew net request.payload (lookup request.path s.resources) ≡ some r
      → s.current_message_id + length r.register_resources < 2 ^ 16
  unfolding renew
  renewed-room request s room r e = elim (Option-cases (lookup request.path s.resources)) [
    | inl absent ↦ ground (arith, room.number)
    | inr (old, there) ↦ ground (arith, room.numbers old there, room.sequence old there)
  ]

  changed-Returns :
      {s : Observer Addr} (c : IsConsistent net s) (request : Request Addr)
      → HasRoom request s
      → Returns net (resource_changed net request s)
  changed-Returns {s} c request room =
      let done =
        changed net c request.path request.payload room.sequence request refl refl
          (renewed-room request s room) in
      record { observer = done.observer; returned = done.returned; consistent = done.consistent }

  acceptance-total :
      (resource : ResourceItem) (preferred : Option ℕ) (response : Packet)
      → ((size : ℕ) → preferred ≡ some size → block_new 0 true size ≢ none)
      → acceptance net resource preferred response ≢ none
  unfolding acceptance
  acceptance-total resource preferred response h =
      describe-total net resource preferred (record response { kind = MessageType.non_confirmable })
        h

  send_accepted-Returns :
      (responder : Responder Addr) (resource : ResourceItem) (preferred : Option ℕ)
      (response : Option Packet) {s : Observer Addr}
      → ((size : ℕ) → preferred ≡ some size → block_new 0 true size ≢ none)
      → IsConsistent net s
      → Returns net (send_accepted net responder resource preferred response s)
  unfolding send_accepted
  send_accepted-Returns responder resource preferred none {s} h c = record {
    observer = s;
    returned = refl;
    consistent = c;
  }
  send_accepted-Returns responder resource preferred (some response) {s} h c =
      let (packet, built) =
        has_some net (acceptance net resource preferred response)
          (acceptance-total resource preferred response h) in
      let (sent, e) = respond-sent net responder packet s in
      record {
        observer = record s { sent = sent };
        returned = rw (built, e) refl;
        consistent = resend-IsConsistent net sent c;
      }

  reply_not_found-sent :
      (responder : Responder Addr) (response : Option Packet) (s : Observer Addr)
      → (sent : List (Responder Addr × Bytes)) × (reply_not_found net responder response s
          ≡ record s { sent = sent })
  unfolding reply_not_found
  reply_not_found-sent responder none s = (s.sent, refl)
  reply_not_found-sent responder (some response) s = respond-sent net responder _ s

  recorded-resource :
      (responder : Responder Addr) (path token : Bytes) (preferred : Option ℕ)
      (resource : ResourceItem) (s : Observer Addr)
      → (r : ResourceItem) × (lookup path
            (recorded net responder path token preferred resource s).resources
          ≡ some r)
  unfolding recorded
  recorded-resource responder path token preferred resource s =
      let key = format_register_resource net responder.address path in
      let listed = record resource { register_resources = add key resource.register_resources } in
      (listed, ground (arith, lookup-insert path path listed s.resources))

  module _ (plain : (a : Addr) → IsPlain (display a))
      (sized : (b : Block) → block_new 0 true (block_size b) ≢ none) {s : Observer Addr}
      (c : IsConsistent net s) (request : Request Addr) where
    abbrev registered : Responder Addr → Option (Observer Addr)
    registered responder = do (s', _) ← register net request responder s; some s'

    block_size?-valid :
        (b : Option Block) (size : ℕ) → block_size? net b ≡ some size → block_new 0 true size ≢ none
    block_size?-valid none size e = cc
    block_size?-valid (some b) size e = ground (arith, sized b)

    pub register-Returns : (responder : Responder Addr) → Returns net (registered responder)
    unfolding register reply_accepted record_register_resource
    register-Returns responder = elim (Option-cases (lookup request.path s.resources)) [
      | inl absent ↦
          let (sent, e) = reply_not_found-sent responder request.response s in
          record {
            observer = record s { sent = sent };
            returned = ground (arith, e);
            consistent = resend-IsConsistent net sent c;
          }
      | inr (resource, there) ↦
          let preferred = block_size? net request.block2 in
          let valid = block_size?-valid request.block2 in
          let c' =
            recorded-IsConsistent net plain c responder request.path request.token preferred
              resource there valid in
          let (listed, again) =
            recorded-resource responder request.path request.token preferred resource s in
          let r = send_accepted-Returns responder listed preferred request.response valid c' in
          record {
            observer = r.observer;
            returned = ground (arith, there, again, r.returned);
            consistent = r.consistent;
          }
    ]

    pub deregister-Returns :
        (a : Addr) → request.source ≡ some a → Returns net (deregister net request s)
    unfolding deregister
    deregister-Returns a e =
        let r = remove_register_resource-Returns net plain c a request.path request.token in
        record { observer = r.observer; returned = rw e r.returned; consistent = r.consistent }

    pub reset_notification-Returns : Returns net (reset_notification net request s)
    unfolding reset_notification
    reset_notification-Returns =
        let id = request.message_id in
        elim (Option-cases (lookup id s.unacknowledge_messages)) [
          | inl e ↦ record { observer = s; returned = ground arith; consistent = c }
          | inr (message, e) ↦
              let key = message.register_resource in
              let owned = owner_at id message s.unacknowledge_messages e in
              let (item, there, waits) =
                pending_of-inv net key id s.register_resources ((c.awaited key id).1 owned) in
              let address = item.registered_responder.address in
              elim (Bool-cases (is_source net request.source address)) [
                | inl from ↦
                    let c' = settle-IsConsistent net c key item there id waits in
                    let r =
                      remove_register_resource-Returns net plain c' address item.resource
                        item.token in
                    record {
                      observer = r.observer;
                      returned = ground (arith, e, there, from, r.returned);
                      consistent = r.consistent;
                    }
                | inr other ↦ record { observer = s; returned = ground arith; consistent = c }
              ]
        ]

    -- The handler returns, and the observer that it leaves is consistent.
    abbrev pub Answers : Option (Handled net) → Type 0
    Answers m = (h : Handled net) × (m ≡ some h) × IsConsistent net h.observer

    still : Returns net (some s)
    still = record { observer = s; returned = refl; consistent = c }

    keep-Answers :
        (forward : Bool) (m : Option (Observer Addr))
        → Returns net m
        → Answers (keep net request forward m)
    unfolding keep
    keep-Answers forward m r = (
      record { observer = r.observer; request = request; forward = forward },
      rw r.returned refl,
      r.consistent,
    )

    register-Answers :
        (responder : Responder Addr) (m : Option (Observer Addr × Request Addr))
        → Returns net (do (s', _) ← m; some s')
        → Answers (do
          (s', request') ← m
          some (record { observer = s'; request = request'; forward = false }))
    register-Answers responder none r = absurd (ground (arith, r.returned))
    register-Answers responder (some (s', request')) r =
        let same : s' ≡ r.observer = ground (arith, r.returned) in
        (record { observer = s'; request = request'; forward = false }, refl, rw same r.consistent)

    module _ (responder : Responder Addr) (a : Addr) (source : request.source ≡ some a)
        (room : HasRoom request s) where
      method-Answers :
          (m : Method) (o : Option (Option ObserveOption))
          → Answers (handle_method net m o request responder s)
      unfolding handle_method
      method-Answers Method.get (some (some ObserveOption.register)) =
          register-Answers responder (register net request responder s) (register-Returns responder)
      method-Answers Method.get (some (some ObserveOption.deregister)) =
          keep-Answers true (deregister net request s) (deregister-Returns a source)
      method-Answers Method.get (some none) = keep-Answers true (some s) still
      method-Answers Method.get none = keep-Answers true (some s) still
      method-Answers Method.put _ =
          keep-Answers true (resource_changed net request s) (changed-Returns c request room)
      method-Answers _ _ = keep-Answers true (some s) still

      kind-Answers : (k : MessageType) → Answers (handle_kind net k request responder s)
      unfolding handle_kind acknowledge
      kind-Answers MessageType.acknowledgement =
          keep-Answers false (acknowledge net request s)
            (remove_unacknowledge_message-Returns net c request.message_id request.token)
      kind-Answers MessageType.reset =
          keep-Answers false (reset_notification net request s) reset_notification-Returns
      kind-Answers _ = method-Answers request.method request.observe

      -- The handler of a request from a known source returns, and leaves the maps in agreement,
      -- where they agree before, no address prints a dollar sign, every block size that a request
      -- names is a valid one, and the counters have room.
      pub request_handler-Answers : Answers (request_handler net request responder s)
      unfolding request_handler
      request_handler-Answers = kind-Answers request.kind
