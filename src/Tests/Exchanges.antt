-- ===== src/Tests/Exchanges.antt =====
-- src/edhoc: the theorems on a protocol whose identifiers are bytes and whose messages carry them.
use Prim.Native.Nat.{ℕ}
use native.Mathlib.Decide.{ℕ_discrete}
use coap_rs.Common.{
  ◌≡◌, refl, true, false, Option, none, some, List, [], ◌∷◌, Bytes, arith, ascii, length, ltb,
  if◌then◌else◌, drop, ◌≤◌, ◌+◌, bytes_same, bytes_key, lookup, insert, remove, IsUnique,
}
use coap_rs.Common.Results.{Result, ok, err}
use coap_rs.Coap.{Status}
use coap_rs.Edhoc.{
  EdhocError, EdhocErrorMessage, CborDecoder, Printer, peer, io, text_head, expect_changed,
  to_error_message, render,
}
use coap_rs.Edhoc.Diagnostics.{DecodesCbor, IsHeard, expect_changed-to_error_message}
use coap_rs.Edhoc.Responder.{
  Lakers, EdhocIdentity, EdhocResponderStore, OscoreSecrets, new, process_message_1,
  process_message_3, parse_ids, count_up, keep_free, choose, register_session, split_message_3,
  take_session, verify_session, secrets, conclude, process_session, process_new, check_completed,
  retain_after, allocate_connection_identifier, pending_sessions,
}
use coap_rs.Edhoc.Responder.Identifiers.{one_byte_ids, IsChosen, allocate_connection_identifier_lem}
use coap_rs.Edhoc.Responder.Replay.{process_message_3-replay}
use coap_rs.Edhoc.Responder.Worlds.{World, Reach, starts, steps, registers, Reach-bounded}
use coap_rs.Edhoc.Initiator.{InitiatorLakers, receive, answer_message_2, edhoc_initiate}
use coap_rs.Edhoc.Initiator.Serving.{edhoc_response}
use coap_rs.Edhoc.Initiator.Handshake.{Agrees, Mirrors, edhoc_initiate-Mirrors}

abbrev read_id : Bytes → Option (ℕ × Option Bytes)
read_id [] = none
read_id (b ∷ rest) = some (b, some rest)

abbrev read_message_1 : Bytes → Result ℕ (ℕ × ℕ)
read_message_1 [] = err 0
read_message_1 (c ∷ rest) = ok (c, c)

abbrev read_message_2 : ℕ → Bytes → Result ℕ (ℕ × (ℕ × ℕ))
read_message_2 i [] = err 0
read_message_2 i (c ∷ rest) = ok (i, (c, 0))

abbrev trusted : Option ℕ → ℕ → Result ℕ ℕ
trusted none id = err 1
trusted (some credential) id = ok credential

abbrev lakers : Lakers
lakers = record {
  Error = ℕ;
  ConnId = ℕ;
  Credential = ℕ;
  Key = ℕ;
  IdCred = ℕ;
  ProcessedM1 = ℕ;
  WaitM3 = ℕ;
  ProcessingM3 = ℕ;
  ProcessedM3 = ℕ;
  Completed = ℕ;
  as_slice = λ c. c ∷ [];
  as_cbor = λ c. c ∷ [];
  conn_id = read_id;
  fits = λ m. true;
  process_message_1 = λ seed key credential m. read_message_1 m;
  prepare_message_2 = λ r c. ok (c, c ∷ []);
  parse_message_3 = λ w m. ok (w, 0);
  credential_check_or_fetch = trusted;
  verify_message_3 = λ p credential. ok (p, 9 ∷ []);
  prepare_message_4 = λ p. ok (p, 4 ∷ []);
  exporter = λ session label size. label ∷ size ∷ [];
}

abbrev initiator : InitiatorLakers lakers
initiator = record {
  WaitM2 = ℕ;
  ProcessingM2 = ℕ;
  ProcessedM2 = ℕ;
  WaitM4 = ℕ;
  Done = ℕ;
  prepare_message_1 = λ seed c. ok (c, c ∷ []);
  parse_message_2 = read_message_2;
  set_identity = λ p key credential. ok p;
  verify_message_2 = λ p credential. ok p;
  prepare_message_3 = λ p. ok (p, (3 ∷ [], 9 ∷ []));
  process_message_4 = λ w m. ok w;
  exporter = λ session label size. label ∷ size ∷ [];
}

abbrev own : EdhocIdentity lakers
own = record { private_key = 1; credential = 2 }

abbrev credentials : ℕ → Option ℕ
credentials id = some 2

-- The session of the Initiator 5 is pending under the identifier 0.
abbrev opened : EdhocResponderStore lakers
opened = record { own = own; pending = (0 ∷ [], (5, 0)) ∷ []; completed = [] }

abbrev responder_secrets : OscoreSecrets
responder_secrets = record {
  master_secret = 0 ∷ 16 ∷ [];
  master_salt = 1 ∷ 8 ∷ [];
  sender_id = 5 ∷ [];
  recipient_id = 0 ∷ [];
  prk_out = 9 ∷ [];
}

abbrev initiator_secrets : OscoreSecrets
initiator_secrets = record responder_secrets { sender_id = 0 ∷ []; recipient_id = 5 ∷ [] }

abbrev ids : List ℕ
ids =
    0 ∷ 1 ∷ 2 ∷ 3 ∷ 4 ∷ 5 ∷ 6 ∷ 7 ∷ 8 ∷ 9 ∷ 10 ∷ 11 ∷ 12 ∷ 13 ∷ 14 ∷ 15 ∷ 16 ∷ 17 ∷ 18 ∷ 19 ∷ 20
    ∷ 21 ∷ 22 ∷ 23 ∷ 32 ∷ 33 ∷ 34 ∷ 35 ∷ 36 ∷ 37 ∷ 38 ∷ 39 ∷ 40 ∷ 41 ∷ 42 ∷ 43 ∷ 44 ∷ 45 ∷ 46 ∷ 47
    ∷ 48 ∷ 49 ∷ 50 ∷ 51 ∷ 52 ∷ 53 ∷ 54 ∷ 55 ∷ []

ids-read : one_byte_ids lakers ≡ some ids
unfolding parse_ids count_up
ids-read = refl

allocate_connection_identifier_lem_example :
    (length ids ≡ 48)
    × ((r : Result (EdhocError ℕ) ℕ) × (allocate_connection_identifier lakers 1 [] 5 ≡ some r)
        × IsChosen lakers ids [] 5 r)
allocate_connection_identifier_lem_example =
    allocate_connection_identifier_lem lakers 1 [] 5 ids ids-read

abbrev text_string : Bytes → Option (Bytes × Bytes)
text_string [] = none
text_string (h ∷ rest) = if ltb (length rest) 24 then some (rest, []) else some (drop 1 rest, [])

abbrev first_byte : Bytes → Option (ℕ × Bytes)
first_byte [] = none
first_byte (b ∷ rest) = some (b, rest)

abbrev decoder : CborDecoder
decoder = record {
  i8 = first_byte;
  any_as_encoded = λ m. some (m, []);
  str = text_string;
  utf8 = λ m. true;
}

abbrev printer : Printer ℕ
printer = record {
  debug_error = λ e. [];
  debug_status = λ s. [];
  decimal = λ n. n ∷ [];
  is_unsupported_suite = λ e. false;
}

decodes : DecodesCbor decoder printer
unfolding text_head
decodes = record {
  small = λ c rest h. refl;
  suite = refl;
  truth = refl;
  item = λ text h. refl;
  content = λ text h. ground arith;
}

abbrev failure : EdhocError ℕ
failure = io (ascii "reset")

agrees : Agrees lakers initiator
agrees = record {
  message_1 = λ seed other c_i c key credential i m r sent got. ground (arith, sent, got);
  message_2 = λ r w c_r c i m p id sent got. ground (arith, sent, got);
  prefix = λ c rest. refl;
}

-- The Responder's first leg.
opens : process_message_1 lakers 7 0 (new lakers own) (5 ∷ []) ≡ some (ok (0 ∷ [], opened))
unfolding process_message_1 allocate_connection_identifier parse_ids count_up keep_free choose
    register_session new lookup insert remove bytes_same ℕ_discrete
opens = refl

third :
    (process_message_3 lakers credentials 1 2 opened (0 ∷ 3 ∷ [])).established
    ≡ some responder_secrets
unfolding process_message_3 check_completed retain_after split_message_3 process_new take_session
    process_session verify_session conclude secrets lookup bytes_same ℕ_discrete
third = refl

edhoc_initiate-Mirrors_example : Mirrors lakers initiator initiator_secrets responder_secrets
unfolding answer_message_2 edhoc_initiate receive expect_changed edhoc_response
edhoc_initiate-Mirrors_example =
    edhoc_initiate-Mirrors lakers initiator decoder printer agrees credentials 6 7 0 1 2 5 0 own
      (some 2) (λ m. ok (edhoc_response Status.changed (0 ∷ [])))
      (λ m. ok (edhoc_response Status.changed (4 ∷ []))) (new lakers own) opened 5 (5 ∷ []) (0 ∷ [])
      (3 ∷ []) (9 ∷ []) 5 initiator_secrets responder_secrets refl opens refl refl refl third

process_message_3-replay_example :
    let first = process_message_3 lakers credentials 1 2 opened (0 ∷ 3 ∷ []) in
    let second = process_message_3 lakers (λ id. none) 100 101 first.store (0 ∷ 3 ∷ []) in
    (lookup responder_secrets.recipient_id first.store.pending ≡ none)
    × ((m : Bytes) × (first.answer ≡ ok m) × (second.answer ≡ ok m))
    × (second.established ≡ none)
    × (second.store.pending ≡ first.store.pending)
process_message_3-replay_example =
    process_message_3-replay lakers credentials (λ id. none) 1 2 100 101 opened (0 ∷ 3 ∷ [])
      responder_secrets third (omega arith)

abbrev registered : World lakers
registered = record { store = opened; verifying = []; prepared = 1; established = [] }

registered-Reach : Reach lakers own registered
unfolding new
registered-Reach = steps starts (registers 7 0 (5 ∷ []) (0 ∷ []) opened opens)

Reach-bounded_example :
    (pending_sessions lakers opened ≤ 48)
    × IsUnique opened.pending
    × (0 + (0 + pending_sessions lakers opened) ≤ 1)
Reach-bounded_example = Reach-bounded lakers ids ids-read registered-Reach

expect_changed-to_error_message_example :
    (m : EdhocErrorMessage) × (expect_changed decoder printer Status.internal_server_error true
        (to_error_message decoder printer failure).1
      ≡ err (peer m))
    × IsHeard decoder printer Status.internal_server_error 1 (ascii "reset") m
unfolding to_error_message render
expect_changed-to_error_message_example =
    expect_changed-to_error_message decoder printer decodes failure refl
