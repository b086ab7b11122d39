-- ===== src/Edhoc/Responder/Registering.antt =====
-- src/edhoc/mod.rs: what `process_message_1` changes in the store.
use coap_rs.Common.{
  ℕ, ◌≡◌, ◌≢◌, inl, inr, true, none, some, List, Bytes, bytes_key, lookup, insert, contains, arith,
  Bool-cases,
}
use coap_rs.Common.Results.{Result, ok, err, Result-cases}
use coap_rs.Edhoc.{EdhocError}
use coap_rs.Edhoc.Responder.{Lakers, EdhocResponderStore, register_session, process_message_1}
use coap_rs.Edhoc.Responder.Identifiers.{
  slices, one_byte_ids, IsChosen, allocate_connection_identifier_lem,
}

module _ (lakers : Lakers) where
  open lakers use {ConnId, Error, ProcessedM1, WaitM3, as_slice, fits}

  -- What a registration does: one session more under an identifier that is free.
  pub record Registered (ids : List ConnId) (s t : EdhocResponderStore lakers) : Type 0 where
    pub c_i : ConnId
    pub c_r : ConnId
    pub waiting : WaitM3
    pub free : lookup (as_slice c_r) s.pending ≡ none
    pub differs : as_slice c_r ≢ as_slice c_i
    pub known : contains (as_slice c_r) (slices lakers ids) ≡ true
    pub added : t ≡ record s { pending = insert (as_slice c_r) (c_i, waiting) s.pending }

  register_session-Registered :
      (ids : List ConnId) (c_i : ConnId) (responder : ProcessedM1)
      (r : Result (EdhocError Error) ConnId) (s t : EdhocResponderStore lakers) (message_2 : Bytes)
      → IsChosen lakers ids s.pending c_i r
      → register_session lakers c_i responder r s ≡ ok (message_2, t)
      → Registered ids s t
  unfolding register_session
  register_session-Registered ids c_i responder (err e) s t message_2 h q = absurd (ground arith)
  register_session-Registered ids c_i responder (ok c_r) s t message_2 h q =
      elim (Result-cases (lakers.prepare_message_2 responder c_r)) [
        | inr (e, bad) ↦ absurd (ground arith)
        | inl ((waiting, m), good) ↦ record {
          c_i = c_i;
          c_r = c_r;
          waiting = waiting;
          free = h.0.1;
          differs = h.0.0;
          known = h.1;
          added = ground arith;
        }
      ]

  pub process_message_1-Registered :
      (ids : List ConnId) (seed draw : ℕ) (s t : EdhocResponderStore lakers)
      (payload message_2 : Bytes)
      → one_byte_ids lakers ≡ some ids
      → process_message_1 lakers seed draw s payload ≡ some (ok (message_2, t))
      → Registered ids s t
  unfolding process_message_1
  process_message_1-Registered ids seed draw s t payload message_2 e q =
      elim (Bool-cases (fits payload)) [
        | inr large ↦ absurd (ground arith)
        | inl small ↦
            elim (Result-cases
              (lakers.process_message_1 seed s.own.private_key s.own.credential payload)) [
                | inr (x, bad) ↦ absurd (ground arith)
                | inl ((responder, c_i), good) ↦
                    let (_, (r, allocated, chosen)) =
                      allocate_connection_identifier_lem lakers draw s.pending c_i ids e in
                    register_session-Registered ids c_i responder r s t message_2 chosen
                      (ground arith)
              ]
      ]
