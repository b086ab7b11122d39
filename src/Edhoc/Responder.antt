-- ===== src/Edhoc/Responder.antt =====
-- src/edhoc/mod.rs: the store of a Responder and the two legs of an exchange. Each section under one
-- lock is a function of its own; other exchanges run between them (Worlds).
pub mod Identifiers
pub mod Registering
pub mod Replay
pub mod Worlds
use coap_rs.Common.{
  ℕ, zero, suc, ◌+◌, ◌%◌, Bool, true, false, not, ◌&&◌, Option, none, some, List, [], ◌∷◌, ◌++◌,
  ◌==◌, ltb, if◌then◌else◌, Bytes, bytes_same, bytes_key, lookup, insert, remove, ascii, length,
  take, ite,
}
use coap_rs.Common.Results.{Result, ok, err, ◌>>=◌, ok_or, map_err}
use coap_rs.Edhoc.{
  EdhocError, protocol, malformed, unknown_session, untrusted_credential,
  no_connection_identifier_available,
}

-- What the Responder takes from `lakers`: the connection identifiers, the states of its protocol and
-- the steps between them. `seed` stands for the random numbers that `new_crypto` draws.
pub record Lakers : Type 1 where
  pub Error : Type 0
  pub ConnId : Type 0
  pub Credential : Type 0
  pub Key : Type 0
  pub IdCred : Type 0
  pub ProcessedM1 : Type 0
  pub WaitM3 : Type 0
  pub ProcessingM3 : Type 0
  pub ProcessedM3 : Type 0
  pub Completed : Type 0
  pub as_slice : ConnId → Bytes
  pub as_cbor : ConnId → Bytes
  -- `from_decoder`, with the rest of the buffer.
  pub conn_id : Bytes → Option (ConnId × Option Bytes)
  -- `new_from_slice`
  pub fits : Bytes → Bool
  pub process_message_1 : ℕ → Key → Credential → Bytes → Result Error (ProcessedM1 × ConnId)
  pub prepare_message_2 : ProcessedM1 → ConnId → Result Error (WaitM3 × Bytes)
  pub parse_message_3 : WaitM3 → Bytes → Result Error (ProcessingM3 × IdCred)
  pub credential_check_or_fetch : Option Credential → IdCred → Result Error Credential
  pub verify_message_3 : ProcessingM3 → Credential → Result Error (ProcessedM3 × Bytes)
  pub prepare_message_4 : ProcessedM3 → Result Error (Completed × Bytes)
  pub exporter : Completed → ℕ → ℕ → Bytes

pub record OscoreSecrets : Type 0 where
  pub master_secret : Bytes
  pub master_salt : Bytes
  pub sender_id : Bytes
  pub recipient_id : Bytes
  pub prk_out : Bytes

-- `EXCHANGE_LIFETIME`, in seconds.
abbrev pub completed_session_lifetime : ℕ
completed_session_lifetime = 247

pub record CompletedSession : Type 0 where
  pub message_4 : Bytes
  pub expires : ℕ

-- `retain`
unfoldable pub retain_after : ℕ → List (Bytes × CompletedSession) → List (Bytes × CompletedSession)
retain_after now [] = []
retain_after now ((k, session) ∷ m) =
    let rest = retain_after now m in if ltb now session.expires then (k, session) ∷ rest else rest

-- The single bytes that encode a connection identifier: 0 to 23, then -1 to -24.
unfoldable pub count_up : ℕ → ℕ → List ℕ
count_up first zero = []
count_up first (suc n) = first ∷ count_up (suc first) n

module _ (lakers : Lakers) where
  open lakers use {
    Error, ConnId, Credential, Key, IdCred, ProcessedM1, WaitM3, Completed, as_slice, conn_id, fits,
    parse_message_3, credential_check_or_fetch, verify_message_3, prepare_message_4, exporter,
    prepare_message_2,
  }

  pub record EdhocIdentity : Type 0 where
    pub private_key : Key
    pub credential : Credential

  abbrev pub PendingSession : Type 0
  PendingSession = ConnId × WaitM3

  pub record EdhocResponderStore : Type 0 where
    pub own : EdhocIdentity
    pub pending : List (Bytes × PendingSession)
    pub completed : List (Bytes × CompletedSession)

  unfoldable pub new : EdhocIdentity → EdhocResponderStore
  new own = record { own = own; pending = []; completed = [] }

  unfoldable pub pending_sessions : EdhocResponderStore → ℕ
  pending_sessions store = length store.pending

  -- `none` is a panic: a byte that is no connection identifier.
  unfoldable pub parse_ids : List ℕ → Option (List ConnId)
  parse_ids [] = some []
  parse_ids (raw ∷ raws) = elim (conn_id (raw ∷ [])) [
    | none ↦ none
    | some (c, _) ↦ elim (parse_ids raws) [ none ↦ none | some cs ↦ some (c ∷ cs) ]
  ]

  abbrev is_pending : Bytes → List (Bytes × PendingSession) → Bool
  is_pending key m = elim (lookup key m) [ none ↦ false | some _ ↦ true ]

  abbrev pub is_free : List (Bytes × PendingSession) → ConnId → ConnId → Bool
  is_free pending c_i c_r =
      not (ite (bytes_same (as_slice c_r) (as_slice c_i)) true false)
      && not (is_pending (as_slice c_r) pending)

  unfoldable pub keep_free : List (Bytes × PendingSession) → ConnId → List ConnId → List ConnId
  keep_free pending c_i [] = []
  keep_free pending c_i (c ∷ cs) =
      let rest = keep_free pending c_i cs in if is_free pending c_i c then c ∷ rest else rest

  -- The element at an index below the length.
  abbrev pub pick : ConnId → List ConnId → ℕ → ConnId
  pick c [] n = c
  pick c (d ∷ cs) zero = c
  pick c (d ∷ cs) (suc n) = pick d cs n

  unfoldable pub choose : ℕ → List ConnId → Result (EdhocError Error) ConnId
  choose draw [] = err no_connection_identifier_available
  choose draw (c ∷ cs) = ok (pick c cs (draw % length (c ∷ cs)))

  -- `draw` is the random number.
  unfoldable pub allocate_connection_identifier :
      ℕ → List (Bytes × PendingSession) → ConnId → Option (Result (EdhocError Error) ConnId)
  unfolding parse_ids keep_free choose count_up
  allocate_connection_identifier draw pending c_i =
      elim (parse_ids (count_up 0x00 24 ++ count_up 0x20 24)) [
        | none ↦ none
        | some ids ↦ some (choose draw (keep_free pending c_i ids))
      ]

  abbrev protocol_error : {A : Type 0} → Result Error A → Result (EdhocError Error) A
  protocol_error r = map_err protocol r

  -- The section under the lock of the pending sessions.
  unfoldable pub register_session :
      ConnId
      → ProcessedM1
      → Result (EdhocError Error) ConnId
      → EdhocResponderStore
      → Result (EdhocError Error) (Bytes × EdhocResponderStore)
  register_session c_i responder allocated store = do
    c_r ← allocated
    (waiting, message_2) ← protocol_error (prepare_message_2 responder c_r)
    ok (message_2, record store { pending = insert (as_slice c_r) (c_i, waiting) store.pending })

  unfoldable pub process_message_1 :
      ℕ
      → ℕ
      → EdhocResponderStore
      → Bytes
      → Option (Result (EdhocError Error) (Bytes × EdhocResponderStore))
  unfolding register_session allocate_connection_identifier
  process_message_1 seed draw store payload =
      if fits payload
      then (elim (protocol_error
          (lakers.process_message_1 seed store.own.private_key store.own.credential payload)) [
            | err e ↦ some (err e)
            | ok (responder, c_i) ↦ elim (allocate_connection_identifier draw store.pending c_i) [
              | none ↦ none
              | some allocated ↦ some (register_session c_i responder allocated store)
            ]
          ])
      else some (err (malformed (ascii "message_1")))

  -- The first section: expired sessions go, and a `message_3` that was answered is answered again.
  unfoldable pub check_completed :
      ℕ → Bytes → EdhocResponderStore → EdhocResponderStore × Option Bytes
  unfolding retain_after
  check_completed now payload store =
      let left = retain_after now store.completed in
      (
        record store { completed = left },
        elim (lookup payload left) [ none ↦ none | some session ↦ some session.message_4 ],
      )

  abbrev message_3_of : Option Bytes → Result (EdhocError Error) Bytes
  message_3_of none = err (malformed (ascii "message_3"))
  message_3_of (some rest) = if fits rest then ok rest else err (malformed (ascii "message_3"))

  -- The connection identifier in front of a `message_3`, and the message.
  unfoldable pub split_message_3 : Bytes → Result (EdhocError Error) (ConnId × Bytes)
  split_message_3 payload = elim (conn_id payload) [
    | none ↦ err (malformed (ascii "C_R prefix"))
    | some (c_r, rest) ↦ elim (message_3_of rest) [ err e ↦ err e | ok m ↦ ok (c_r, m) ]
  ]

  -- The second section: a session is taken out of the pending ones.
  unfoldable pub take_session :
      ConnId → EdhocResponderStore → EdhocResponderStore × Result (EdhocError Error) PendingSession
  take_session c_r store = (
    record store { pending = remove (as_slice c_r) store.pending },
    ok_or unknown_session (lookup (as_slice c_r) store.pending),
  )

  -- What an exchange has at its end: the completed session, `PRK_out` and the `message_4`.
  pub record Finished : Type 0 where
    pub session : Completed
    pub prk_out : Bytes
    pub message_4 : Bytes

  -- Between the sections; `credentials` is `lookup` of the store of credentials.
  unfoldable pub verify_session :
      (IdCred → Option Credential) → WaitM3 → Bytes → Result (EdhocError Error) Finished
  verify_session credentials waiting message_3 = do
    (processing, id_cred) ← protocol_error (parse_message_3 waiting message_3)
    credential ←
        map_err (λ _. untrusted_credential)
          (credential_check_or_fetch (credentials id_cred) id_cred)
    (processed, prk_out) ← protocol_error (verify_message_3 processing credential)
    (session, message_4) ← protocol_error (prepare_message_4 processed)
    ok (record { session = session; prk_out = prk_out; message_4 = message_4 })

  -- The third section.
  unfoldable pub complete_session : ℕ → Bytes → Finished → EdhocResponderStore → EdhocResponderStore
  complete_session now payload f store = record store {
    completed =
        insert payload
          (record { message_4 = f.message_4; expires = now + completed_session_lifetime })
          store.completed;
  }

  unfoldable pub secrets : ConnId → ConnId → Finished → OscoreSecrets
  secrets c_i c_r f = record {
    master_secret = take 16 (exporter f.session 0 16);
    master_salt = take 8 (exporter f.session 1 8);
    sender_id = as_slice c_i;
    recipient_id = as_slice c_r;
    prk_out = f.prk_out;
  }

  -- The answer, the store and the secrets that the hook is given, if it is.
  pub record Answered : Type 0 where
    pub answer : Result (EdhocError Error) Bytes
    pub store : EdhocResponderStore
    pub established : Option OscoreSecrets

  abbrev fails : EdhocError Error → EdhocResponderStore → Answered
  fails e store = record { answer = err e; store = store; established = none }

  unfoldable pub conclude :
      ℕ
      → Bytes
      → ConnId
      → ConnId
      → Result (EdhocError Error) Finished
      → EdhocResponderStore
      → Answered
  unfolding complete_session secrets
  conclude later payload c_i c_r (err e) store = fails e store
  conclude later payload c_i c_r (ok f) store = record {
    answer = ok f.message_4;
    store = complete_session later payload f store;
    established = some (secrets c_i c_r f);
  }

  unfoldable pub process_session :
      (IdCred → Option Credential)
      → ℕ
      → Bytes
      → ConnId
      → Bytes
      → EdhocResponderStore × Result (EdhocError Error) PendingSession
      → Answered
  unfolding verify_session conclude
  process_session credentials later payload c_r message_3 (store, err e) = fails e store
  process_session credentials later payload c_r message_3 (store, ok (c_i, waiting)) =
      conclude later payload c_i c_r (verify_session credentials waiting message_3) store

  unfoldable pub process_new :
      (IdCred → Option Credential)
      → ℕ
      → Bytes
      → Result (EdhocError Error) (ConnId × Bytes)
      → EdhocResponderStore
      → Answered
  unfolding take_session process_session
  process_new credentials later payload (err e) store = fails e store
  process_new credentials later payload (ok (c_r, message_3)) store =
      process_session credentials later payload c_r message_3 (take_session c_r store)

  -- `now` and `later` are the readings of the clock.
  unfoldable pub process_message_3 :
      (IdCred → Option Credential) → ℕ → ℕ → EdhocResponderStore → Bytes → Answered
  unfolding check_completed split_message_3 process_new
  process_message_3 credentials now later store payload =
      let (checked, replay) = check_completed now payload store in
      elim replay [
        | some message_4 ↦ record { answer = ok message_4; store = checked; established = none }
        | none ↦ process_new credentials later payload (split_message_3 payload) checked
      ]

  abbrev answered_1 :
      EdhocResponderStore → Result (EdhocError Error) (Bytes × EdhocResponderStore) → Answered
  answered_1 store (err e) = fails e store
  answered_1 store (ok (message_2, registered)) = record {
    answer = ok message_2;
    store = registered;
    established = none;
  }

  -- A first byte of `0xf5`, the CBOR `true`, says that a `message_1` follows.
  pub process_edhoc_message :
      (IdCred → Option Credential) → ℕ → ℕ → ℕ → ℕ → EdhocResponderStore → Bytes → Option Answered
  unfolding process_message_1 process_message_3
  process_edhoc_message credentials seed draw now later store [] =
      some (process_message_3 credentials now later store [])
  process_edhoc_message credentials seed draw now later store (b ∷ payload) =
      let first = (elim (process_message_1 seed draw store payload) as (λ _. Option Answered) [
        | none ↦ none
        | some r ↦ some (answered_1 store r)
      ]) in
      let third = some (process_message_3 credentials now later store (b ∷ payload)) in
      if b == 0xf5 then first else third
