-- ===== src/Edhoc/Responder/Replay.antt =====
-- src/edhoc/mod.rs: a `message_3` is answered again with the same `message_4`.
use mathlib.Core.Path.{subst}
use coap_rs.Common.{
  ℕ, ◌+◌, ◌<◌, ◌≡◌, refl, Option, none, some, List, Bytes, bytes_key, lookup, insert, remove, arith,
  Option-cases, inl, inr, lookup-remove, ap, sym, ◌∙◌,
}
use coap_rs.Common.Results.{Result, ok, err, Result-cases}
use coap_rs.Edhoc.{EdhocError}
use coap_rs.Edhoc.Responder.{
  Lakers, PendingSession, EdhocResponderStore, CompletedSession, OscoreSecrets, Finished, Answered,
  retain_after, completed_session_lifetime, check_completed, take_session, split_message_3,
  verify_session, complete_session, secrets, conclude, process_session, process_new,
  process_message_3,
}

module _ (lakers : Lakers) where
  open lakers use {ConnId, Error, IdCred, Credential, as_slice}

  -- What a `message_3` that establishes a session leaves: its session is pending no more, and its
  -- `message_4` is remembered until its lifetime is over.
  record Establishes (later : ℕ) (payload : Bytes) (a : Answered lakers) : Type 0 where
    message_4 : Bytes
    answered : a.answer ≡ ok message_4
    c_i : ConnId
    c_r : ConnId
    finished : Finished lakers
    told : a.established ≡ some (secrets lakers c_i c_r finished)
    gone : lookup (as_slice c_r) a.store.pending ≡ none
    rest : List (Bytes × CompletedSession)
    remembered :
        a.store.completed
        ≡ insert payload
            (record { message_4 = message_4; expires = later + completed_session_lifetime })
            rest

  lookup-remove_self :
      (k : Bytes) (m : List (Bytes × PendingSession lakers)) → lookup k (remove k m) ≡ none
  lookup-remove_self k m = grind (arith, lookup-remove)

  process_new-Establishes :
      (credentials : IdCred → Option Credential) (later : ℕ) (payload : Bytes)
      (split : Result (EdhocError Error) (ConnId × Bytes)) (store : EdhocResponderStore lakers)
      (x : OscoreSecrets)
      → (process_new lakers credentials later payload split store).established ≡ some x
      → Establishes later payload (process_new lakers credentials later payload split store)
  unfolding process_new process_session take_session conclude complete_session
  process_new-Establishes credentials later payload (err e) store x a = absurd (ground arith)
  process_new-Establishes credentials later payload (ok (c_r, message_3)) store x a =
      elim (Option-cases (lookup (as_slice c_r) store.pending)) [
        | inl missing ↦ absurd (ground arith)
        | inr ((c_i, waiting), there) ↦
            elim (Result-cases (verify_session lakers credentials waiting message_3)) [
              | inr (e, bad) ↦ absurd (ground arith)
              | inl (f, good) ↦ record {
                message_4 = f.message_4;
                answered = ground arith;
                c_i = c_i;
                c_r = c_r;
                finished = f;
                told = ground arith;
                gone = ground (arith, lookup-remove_self (as_slice c_r) store.pending);
                rest = store.completed;
                remembered = ground arith;
              }
            ]
      ]

  pub process_message_3-fresh :
      (credentials : IdCred → Option Credential) (now later : ℕ)
      (store : EdhocResponderStore lakers) (payload : Bytes)
      → (check_completed lakers now payload store).1 ≡ none
      → process_message_3 lakers credentials now later store payload
        ≡ process_new lakers credentials later payload
            (split_message_3 lakers payload)
            (check_completed lakers now payload store).0
  unfolding process_message_3 check_completed
  process_message_3-fresh credentials now later store payload fresh = ground arith

  pub process_message_3-again :
      (credentials : IdCred → Option Credential) (now later : ℕ)
      (store : EdhocResponderStore lakers) (payload m : Bytes)
      → (check_completed lakers now payload store).1 ≡ some m
      → process_message_3 lakers credentials now later store payload ≡ record {
        answer = ok m;
        store = (check_completed lakers now payload store).0;
        established = none;
      }
  unfolding process_message_3 check_completed
  process_message_3-again credentials now later store payload m again = ground arith

  process_message_3-Establishes :
      (credentials : IdCred → Option Credential) (now later : ℕ)
      (store : EdhocResponderStore lakers) (payload : Bytes) (x : OscoreSecrets)
      → (process_message_3 lakers credentials now later store payload).established ≡ some x
      → Establishes later payload (process_message_3 lakers credentials now later store payload)
  process_message_3-Establishes credentials now later store payload x a =
      elim (Option-cases (check_completed lakers now payload store).1) [
        | inr (m, again) ↦
            let same = process_message_3-again credentials now later store payload m again in
            absurd (ground (arith, a, same))
        | inl fresh ↦
            let same = process_message_3-fresh credentials now later store payload fresh in
            subst (λ r. Establishes later payload r) (sym same)
              (process_new-Establishes credentials later payload (split_message_3 lakers payload)
                (check_completed lakers now payload store).0 x
                (ap (λ (r : Answered lakers). r.established) (sym same) ∙ a))
      ]

  kept :
      (now : ℕ) (payload : Bytes) (session : CompletedSession)
      (rest : List (Bytes × CompletedSession))
      → now < session.expires
      → lookup payload (retain_after now (insert payload session rest)) ≡ some session
  unfolding retain_after lookup insert
  kept now payload session rest fresh = ground arith

  pub check-pending :
      (now : ℕ) (payload : Bytes) (store : EdhocResponderStore lakers)
      → (check_completed lakers now payload store).0.pending ≡ store.pending
  unfolding check_completed
  check-pending now payload store = refl

  replayed :
      (now : ℕ) (payload m : Bytes) (expires : ℕ) (store : EdhocResponderStore lakers)
      (rest : List (Bytes × CompletedSession))
      → store.completed ≡ insert payload (record { message_4 = m; expires = expires }) rest
      → now < expires
      → (check_completed lakers now payload store).1 ≡ some m
  unfolding check_completed
  replayed now payload m expires store rest e fresh =
      let at = kept now payload (record { message_4 = m; expires = expires }) rest fresh in
      rw e (ground (arith, at))

  -- A `message_3` that has established a session is answered, its session is no longer pending, and
  -- where the same payload comes again before the lifetime is over, whatever the store of
  -- credentials, it is answered with the same `message_4`: no session is established a second time
  -- and no pending session is touched.
  pub process_message_3-replay :
      (credentials others : IdCred → Option Credential) (now later again after : ℕ)
      (store : EdhocResponderStore lakers) (payload : Bytes) (x : OscoreSecrets)
      → (process_message_3 lakers credentials now later store payload).established ≡ some x
      → again < later + completed_session_lifetime
      → let first = process_message_3 lakers credentials now later store payload in
        let second = process_message_3 lakers others again after first.store payload in
        (lookup x.recipient_id first.store.pending ≡ none)
        × ((m : Bytes) × (first.answer ≡ ok m) × (second.answer ≡ ok m))
        × (second.established ≡ none)
        × (second.store.pending ≡ first.store.pending)
  unfolding secrets
  process_message_3-replay credentials others now later again after store payload x a fresh =
      let first = process_message_3 lakers credentials now later store payload in
      let r = process_message_3-Establishes credentials now later store payload x a in
      let at =
        replayed again payload r.message_4 (later + completed_session_lifetime) first.store r.rest
          r.remembered fresh in
      let second = process_message_3-again others again after first.store payload r.message_4 at in
      let same : x.recipient_id ≡ as_slice r.c_r = ground (arith, r.told, a) in
      (
        rw same r.gone,
        (r.message_4, r.answered, ap (λ (q : Answered lakers). q.answer) second),
        ap (λ (q : Answered lakers). q.established) second,
        ap (λ (q : Answered lakers). q.store.pending) second
            ∙ check-pending again payload first.store,
      )
