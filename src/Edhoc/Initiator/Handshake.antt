-- ===== src/Edhoc/Initiator/Handshake.antt =====
-- src/edhoc/mod.rs: the two sides of a handshake end with identifiers that mirror one another.
use mathlib.Core.Path.{subst}
use coap_rs.Common.{
  ℕ, ◌≡◌, Option, some, ◌∷◌, ◌++◌, Bytes, bytes_key, lookup, arith, sym, ap, ◌∙◌, ascii,
  Option-cases, inl, inr, Bool-cases, lookup-insert,
}
use coap_rs.Common.Results.{Result, ok, err, Result-cases}
use coap_rs.Coap.{Status}
use coap_rs.Edhoc.{EdhocError, CborDecoder, Printer, expect_changed}
use coap_rs.Edhoc.Responder.{
  Lakers, EdhocIdentity, EdhocResponderStore, OscoreSecrets, Answered,
  allocate_connection_identifier, register_session, process_message_1, check_completed,
  split_message_3, take_session, verify_session, secrets, process_new, process_session, conclude,
  process_message_3,
}
use coap_rs.Edhoc.Responder.Replay.{process_message_3-fresh, process_message_3-again, check-pending}
use coap_rs.Edhoc.Initiator.{InitiatorLakers, Response, receive, answer_message_2, edhoc_initiate}
use coap_rs.Edhoc.Initiator.Serving.{edhoc_response}

module _ (lakers : Lakers) (steps : InitiatorLakers lakers) where
  open lakers use {
    Error, ConnId, Credential, Key, IdCred, ProcessedM1, WaitM3, as_slice, as_cbor, conn_id,
    prepare_message_2,
  }
  open steps use {WaitM2, ProcessingM2, WaitM4, prepare_message_1, parse_message_2}

  -- The messages carry the identifiers: a `message_1` that is processed gives the identifier that it
  -- was prepared with, a `message_2` too, and an identifier in CBOR decodes with what follows it.
  pub record Agrees : Type 0 where
    pub message_1 :
        (seed other : ℕ) (c_i c : ConnId) (key : Key) (credential : Credential) (i : WaitM2)
        (m : Bytes) (r : ProcessedM1)
        → prepare_message_1 seed c_i ≡ ok (i, m)
        → lakers.process_message_1 other key credential m ≡ ok (r, c)
        → c ≡ c_i
    pub message_2 :
        (r : ProcessedM1) (w : WaitM3) (c_r c : ConnId) (i : WaitM2) (m : Bytes) (p : ProcessingM2)
        (id : IdCred)
        → prepare_message_2 r c_r ≡ ok (w, m)
        → parse_message_2 i m ≡ ok (p, (c, id))
        → c ≡ c_r
    pub prefix : (c : ConnId) (rest : Bytes) → conn_id (as_cbor c ++ rest) ≡ some (c, some rest)

  -- What the Responder has done with the `message_1` of the Initiator `c_i`.
  record Opened (c_i : ConnId) (store left : EdhocResponderStore lakers) (m2 : Bytes) : Type 0 where
    responder : ProcessedM1
    waiting : WaitM3
    c_r : ConnId
    prepared : prepare_message_2 responder c_r ≡ ok (waiting, m2)
    session : lookup (as_slice c_r) left.pending ≡ some (c_i, waiting)

  registered-Opened :
      (c_i : ConnId) (responder : ProcessedM1) (allocated : Result (EdhocError Error) ConnId)
      (store left : EdhocResponderStore lakers) (m2 : Bytes)
      → register_session lakers c_i responder allocated store ≡ ok (m2, left)
      → Opened c_i store left m2
  unfolding register_session
  registered-Opened c_i responder (err e) store left m2 q = absurd (ground arith)
  registered-Opened c_i responder (ok c_r) store left m2 q =
      elim (Result-cases (prepare_message_2 responder c_r)) [
        | inr (e, bad) ↦ absurd (ground arith)
        | inl ((waiting, m), good) ↦ record {
          responder = responder;
          waiting = waiting;
          c_r = c_r;
          prepared = ground arith;
          session =
              let at = lookup-insert (as_slice c_r) (as_slice c_r) (c_i, waiting) store.pending in
              ground (arith, at);
        }
      ]

  processed-Opened :
      Agrees
      → (seed other draw : ℕ) (c_i : ConnId) (i : WaitM2) (store left : EdhocResponderStore lakers)
        (m1 m2 : Bytes)
      → prepare_message_1 seed c_i ≡ ok (i, m1)
      → process_message_1 lakers other draw store m1 ≡ some (ok (m2, left))
      → Opened c_i store left m2
  unfolding process_message_1
  processed-Opened agrees seed other draw c_i i store left m1 m2 sent q =
      elim (Bool-cases (lakers.fits m1)) [
        | inr large ↦ absurd (ground arith)
        | inl small ↦
            elim (Result-cases
              (lakers.process_message_1 other store.own.private_key store.own.credential m1)) [
                | inr (x, bad) ↦ absurd (ground arith)
                | inl ((responder, c), good) ↦
                    elim (Option-cases
                      (allocate_connection_identifier lakers draw store.pending c)) [
                        | inl panics ↦ absurd (ground arith)
                        | inr (allocated, chosen) ↦
                            let same =
                              agrees.message_1 seed other c_i c store.own.private_key
                                store.own.credential i m1 responder sent good in
                            subst (λ d. Opened d store left m2) same
                              (registered-Opened c responder allocated store left m2 (ground arith))
                      ]
              ]
      ]

  -- The identifiers of the two sides are one another's.
  pub record Mirrors (x y : OscoreSecrets) : Type 0 where
    pub sends : x.sender_id ≡ y.recipient_id
    pub receives : x.recipient_id ≡ y.sender_id

  -- A `message_3` under the opened session's identifier establishes nothing but its session.
  new-session :
      Agrees
      → (credentials : IdCred → Option Credential) (later : ℕ) (c_i c_r : ConnId) (waiting : WaitM3)
        (m3 payload : Bytes) (store : EdhocResponderStore lakers) (y : OscoreSecrets)
      → lookup (as_slice c_r) store.pending ≡ some (c_i, waiting)
      → (process_new lakers credentials later payload
          (split_message_3 lakers (as_cbor c_r ++ m3))
          store).established
        ≡ some y
      → (y.sender_id ≡ as_slice c_i) × (y.recipient_id ≡ as_slice c_r)
  unfolding split_message_3 process_new take_session process_session conclude secrets
  new-session agrees credentials later c_i c_r waiting m3 payload store y there told =
      let split = agrees.prefix c_r m3 in
      elim (Bool-cases (lakers.fits m3)) [
        | inr large ↦ absurd (ground arith)
        | inl small ↦ elim (Result-cases (verify_session lakers credentials waiting m3)) [
          | inr (e, bad) ↦ absurd (ground arith)
          | inl (f, good) ↦ (ground arith, ground arith)
        ]
      ]

  told-identifiers :
      Agrees
      → (credentials : IdCred → Option Credential) (now later : ℕ) (c_i c_r : ConnId)
        (waiting : WaitM3) (m3 : Bytes) (store : EdhocResponderStore lakers) (y : OscoreSecrets)
      → lookup (as_slice c_r) store.pending ≡ some (c_i, waiting)
      → (process_message_3 lakers credentials now later store (as_cbor c_r ++ m3)).established
        ≡ some y
      → (y.sender_id ≡ as_slice c_i) × (y.recipient_id ≡ as_slice c_r)
  told-identifiers agrees credentials now later c_i c_r waiting m3 store y there told =
      let p = as_cbor c_r ++ m3 in
      let same = check-pending lakers now p store in
      elim (Option-cases (check_completed lakers now p store).1) [
        | inr (m, again) ↦
            let e = process_message_3-again lakers credentials now later store p m again in
            absurd (ground (arith, told, e))
        | inl fresh ↦
            let e = process_message_3-fresh lakers credentials now later store p fresh in
            new-session agrees credentials later c_i c_r waiting m3 p
              (check_completed lakers now p store).0 y (rw same there)
              (ap (λ (r : Answered lakers). r.established) (sym e) ∙ told)
      ]

  module _ (decoder : CborDecoder) (printer : Printer Error) where
    -- What an Initiator that succeeds has received and holds.
    record Initiated (c_i c_r : ConnId) (x : OscoreSecrets) : Type 0 where
      sends : x.sender_id ≡ as_slice c_r
      receives : x.recipient_id ≡ as_slice c_i

    received :
        (what m payload : Bytes) (sent : Result Bytes Response)
        → sent ≡ ok (edhoc_response Status.changed payload)
        → receive lakers steps decoder printer what sent ≡ ok m
        → m ≡ payload
    unfolding receive edhoc_response expect_changed
    received what m payload sent e q = ground (arith, e, q)

    chosen :
        (own : EdhocIdentity lakers) (peer : Option Credential) (i : WaitM2) (m2 m3 prk_out : Bytes)
        (c_r c : ConnId) (waiting : WaitM4) (p : ProcessingM2) (id : IdCred)
        → parse_message_2 i m2 ≡ ok (p, (c, id))
        → answer_message_2 lakers steps decoder printer own peer i m2
          ≡ ok (c_r, (waiting, (m3, prk_out)))
        → c_r ≡ c
    unfolding answer_message_2
    chosen own peer i m2 m3 prk_out c_r c waiting p id parsed q =
        elim (Result-cases (lakers.credential_check_or_fetch peer id)) [
          | inr (e, bad) ↦ absurd (ground arith)
          | inl (credential, fetched) ↦
              elim (Result-cases (steps.set_identity p own.private_key own.credential)) [
                | inr (e, bad) ↦ absurd (ground arith)
                | inl (identified, good) ↦
                    elim (Result-cases (steps.verify_message_2 identified credential)) [
                      | inr (e, bad) ↦ absurd (ground arith)
                      | inl (processed, fine) ↦
                          elim (Result-cases (steps.prepare_message_3 processed)) [
                            | inr (e, bad) ↦ absurd (ground arith)
                            | inl (prepared, ready) ↦ ground arith
                          ]
                    ]
              ]
        ]

    answered-identifier :
        Agrees
        → (own : EdhocIdentity lakers) (peer : Option Credential) (i : WaitM2)
          (m2 m3 prk_out : Bytes) (c_r c : ConnId) (waiting : WaitM4) (responder : ProcessedM1)
          (w : WaitM3)
        → prepare_message_2 responder c ≡ ok (w, m2)
        → answer_message_2 lakers steps decoder printer own peer i m2
          ≡ ok (c_r, (waiting, (m3, prk_out)))
        → c_r ≡ c
    unfolding answer_message_2
    answered-identifier agrees own peer i m2 m3 prk_out c_r c waiting responder w prepared q =
        elim (Result-cases (parse_message_2 i m2)) [
          | inr (e, bad) ↦ absurd (ground arith)
          | inl ((p, (named, id)), parsed) ↦
              let same = agrees.message_2 responder w c named i m2 p id prepared parsed in
              chosen own peer i m2 m3 prk_out c_r named waiting p id parsed q ∙ same
        ]

    initiate-Initiated :
        (seed : ℕ) (c_i c_r : ConnId) (own : EdhocIdentity lakers) (peer : Option Credential)
        (first second : Bytes → Result Bytes Response) (i : WaitM2) (m1 m2 m3 prk_out : Bytes)
        (waiting : WaitM4) (x : OscoreSecrets)
        → prepare_message_1 seed c_i ≡ ok (i, m1)
        → first (0xf5 ∷ m1) ≡ ok (edhoc_response Status.changed m2)
        → answer_message_2 lakers steps decoder printer own peer i m2
          ≡ ok (c_r, (waiting, (m3, prk_out)))
        → edhoc_initiate lakers steps decoder printer seed c_i own peer first second ≡ ok x
        → Initiated c_i c_r x
    unfolding edhoc_initiate
    initiate-Initiated seed c_i c_r own peer first second i m1 m2 m3 prk_out waiting x a b c q =
        elim (Result-cases
          (receive lakers steps decoder printer (ascii "message_2") (first (0xf5 ∷ m1)))) [
            | inr (e, bad) ↦ absurd (ground arith)
            | inl (m, got) ↦
                let same = received (ascii "message_2") m m2 (first (0xf5 ∷ m1)) b got in
                let chosen : answer_message_2 lakers steps decoder printer own peer i m
                    ≡ ok (c_r, (waiting, (m3, prk_out))) =
                  rw same c in
                elim (Result-cases (
                  receive lakers steps decoder printer (ascii "message_4")
                    (second (as_cbor c_r ++ m3)))) [
                      | inr (e, bad) ↦ absurd (ground arith)
                      | inl (m4, end) ↦ elim (Result-cases (steps.process_message_4 waiting m4)) [
                        | inr (e, bad) ↦ absurd (ground arith)
                        | inl (done, good) ↦ record {
                          sends = ground arith;
                          receives = ground arith;
                        }
                      ]
                    ]
          ]

    -- An Initiator whose `message_1` a Responder has answered with `message_2`, and which goes on to
    -- send a `message_3` and to establish secrets, holds the mirror image of the secrets that the
    -- Responder establishes when that `message_3` arrives, if it establishes any: each sends with the
    -- identifier that the other receives with. It needs that `lakers` carries the identifiers in its
    -- messages.
    pub edhoc_initiate-Mirrors :
        Agrees
        → (credentials : IdCred → Option Credential) (seed other draw now later : ℕ)
          (c_i c_r : ConnId) (own : EdhocIdentity lakers) (peer : Option Credential)
          (first second : Bytes → Result Bytes Response) (store left : EdhocResponderStore lakers)
          (i : WaitM2) (m1 m2 m3 prk_out : Bytes) (waiting : WaitM4) (x y : OscoreSecrets)
        → prepare_message_1 seed c_i ≡ ok (i, m1)
        → process_message_1 lakers other draw store m1 ≡ some (ok (m2, left))
        → first (0xf5 ∷ m1) ≡ ok (edhoc_response Status.changed m2)
        → answer_message_2 lakers steps decoder printer own peer i m2
          ≡ ok (c_r, (waiting, (m3, prk_out)))
        → edhoc_initiate lakers steps decoder printer seed c_i own peer first second ≡ ok x
        → (process_message_3 lakers credentials now later left (as_cbor c_r ++ m3)).established
          ≡ some y
        → Mirrors x y
    unfolding answer_message_2
    edhoc_initiate-Mirrors agrees credentials seed other draw now later c_i c_r own peer first
          second store left i m1 m2 m3 prk_out waiting x y sent opened got answered ends told =
        let r = processed-Opened agrees seed other draw c_i i store left m1 m2 sent opened in
        let a =
          initiate-Initiated seed c_i c_r own peer first second i m1 m2 m3 prk_out waiting x sent
            got answered ends in
        let same =
          answered-identifier agrees own peer i m2 m3 prk_out c_r r.c_r waiting r.responder
            r.waiting r.prepared answered in
        let b =
          told-identifiers agrees credentials now later c_i c_r r.waiting m3 left y
            (rw same r.session) told in
        record { sends = a.sends ∙ sym (b.1); receives = a.receives ∙ sym (b.0) }
