-- ===== src/Edhoc/Responder/Worlds.antt =====
-- src/edhoc/mod.rs: exchanges that run at once. Each step is one section of `process_message_1` or
-- `process_message_3` that runs under a lock, or the end of an exchange after its verification.
use coap_rs.Common.{
  ℕ, ◌+◌, ◌≤◌, ◌≡◌, refl, ◌≢◌, true, Option, none, some, List, [], ◌∷◌, ◌++◌, Bytes, bytes_key,
  lookup, remove, contains, length, arith, IsUnique, insert-IsUnique, remove-IsUnique,
  lookup-insert, lookup-remove, ap, length-append, length-remove, length-remove_le,
  length-insert_le,
}
use coap_rs.Common.Results.{ok, err}
use coap_rs.Edhoc.{EdhocError}
use coap_rs.Edhoc.Responder.{
  Lakers, EdhocIdentity, EdhocResponderStore, PendingSession, OscoreSecrets, Finished, new,
  process_message_1, split_message_3, verify_session, check_completed, take_session,
  complete_session, secrets, pending_sessions,
}
use coap_rs.Edhoc.Responder.Registering.{Registered, process_message_1-Registered}
use coap_rs.Edhoc.Responder.Identifiers.{slices, one_byte_ids, length-one_byte_ids, length-distinct}

module _ (lakers : Lakers) where
  open lakers use {ConnId, Error, ProcessedM1, WaitM3, IdCred, Credential, as_slice, fits}

  -- A session taken out of the pending ones, whose `message_3` is being verified.
  pub record Flight : Type 0 where
    pub payload : Bytes
    pub c_i : ConnId
    pub c_r : ConnId
    pub waiting : WaitM3
    pub message_3 : Bytes

  -- `prepared` counts the `message_2`s that were returned, and `established` lists what the hook was
  -- given.
  pub record World : Type 0 where
    pub store : EdhocResponderStore lakers
    pub verifying : List Flight
    pub prepared : ℕ
    pub established : List OscoreSecrets

  pub data Step (w : World) : World → Type 0 where
    registers :
        (seed draw : ℕ) (payload message_2 : Bytes) (store' : EdhocResponderStore lakers)
        → process_message_1 lakers seed draw w.store payload ≡ some (ok (message_2, store'))
        → Step w (record w { store = store'; prepared = w.prepared + 1 })
    checks :
        (now : ℕ) (payload : Bytes)
        → Step w (record w { store = (check_completed lakers now payload w.store).0 })
    takes :
        (payload message_3 : Bytes) (c_r c_i : ConnId) (waiting : WaitM3)
        → split_message_3 lakers payload ≡ ok (c_r, message_3)
        → (take_session lakers c_r w.store).1 ≡ ok (c_i, waiting)
        → Step w (record w {
          store = (take_session lakers c_r w.store).0;
          verifying =
              record {
                payload = payload;
                c_i = c_i;
                c_r = c_r;
                waiting = waiting;
                message_3 = message_3;
              }
              ∷ w.verifying;
        })
    misses : (c_r : ConnId) → Step w (record w { store = (take_session lakers c_r w.store).0 })
    rejects :
        (before after : List Flight) (f : Flight) (credentials : IdCred → Option Credential)
        (e : EdhocError Error)
        → w.verifying ≡ before ++ f ∷ after
        → verify_session lakers credentials f.waiting f.message_3 ≡ err e
        → Step w (record w { verifying = before ++ after })
    completes :
        (before after : List Flight) (f : Flight) (credentials : IdCred → Option Credential)
        (later : ℕ) (done : Finished lakers)
        → w.verifying ≡ before ++ f ∷ after
        → verify_session lakers credentials f.waiting f.message_3 ≡ ok done
        → Step w (record w {
          store = complete_session lakers later f.payload done w.store;
          verifying = before ++ after;
          established = secrets lakers f.c_i f.c_r done ∷ w.established;
        })

  pub data Reach (own : EdhocIdentity lakers) : World → Type 0 where
    starts :
        Reach own
          (record { store = new lakers own; verifying = []; prepared = 0; established = [] })
    steps : {w v : World} → Reach own w → Step w v → Reach own v

  -- The keys of the pending sessions are distinct identifiers of one byte, none of them the
  -- Initiator's own, and no session is counted twice.
  pub record IsBounded (ids : List ConnId) (w : World) : Type 0 where
    pub distinct : IsUnique w.store.pending
    pub known :
        (k : Bytes) → lookup k w.store.pending ≢ none → contains k (slices lakers ids) ≡ true
    pub counted : length w.established + (length w.verifying + length w.store.pending) ≤ w.prepared

  Registered-IsBounded :
      (ids : List ConnId) (w : World) (t : EdhocResponderStore lakers)
      → IsBounded ids w
      → Registered lakers ids w.store t
      → IsBounded ids (record w { store = t; prepared = w.prepared + 1 })
  Registered-IsBounded ids w t b r =
      let added = length-insert_le (as_slice r.c_r) (r.c_i, r.waiting) w.store.pending in
      rw r.added (record {
        distinct = insert-IsUnique (as_slice r.c_r) (r.c_i, r.waiting) w.store.pending b.distinct;
        known = λ k there. grind (arith, lookup-insert, r.known, b.known k);
        counted = omega (arith, b.counted, added);
      })

  -- A session that is taken leaves the pending ones.
  removed-known :
      (ids : List ConnId) (w : World) (c_r : ConnId)
      → IsBounded ids w
      → (k : Bytes) → lookup k (remove (as_slice c_r) w.store.pending) ≢ none
      → contains k (slices lakers ids) ≡ true
  removed-known ids w c_r b k there = grind (arith, lookup-remove, b.known k)

  length-middle :
      (before after : List Flight) (f : Flight) (fs : List Flight)
      → fs ≡ before ++ f ∷ after
      → length fs ≡ length (before ++ after) + 1
  length-middle before after f fs e =
      omega (arith, ap length e, length-append before (f ∷ after), length-append before after)

  Step-IsBounded :
      (ids : List ConnId)
      → one_byte_ids lakers ≡ some ids
      → {w v : World} → Step w v
      → IsBounded ids w
      → IsBounded ids v
  unfolding check_completed take_session complete_session
  Step-IsBounded ids e {w} (registers seed draw payload message_2 t q) b =
      Registered-IsBounded ids w t b
        (process_message_1-Registered lakers ids seed draw w.store t payload message_2 e q)
  Step-IsBounded ids e {w} (checks now payload) b = record {
    distinct = b.distinct;
    known = b.known;
    counted = b.counted;
  }
  Step-IsBounded ids e {w} (takes payload message_3 c_r c_i waiting split q) b = record {
    distinct = remove-IsUnique (as_slice c_r) w.store.pending b.distinct;
    known = removed-known ids w c_r b;
    counted = omega (
      arith,
      b.counted,
      length-remove {V = PendingSession lakers} (as_slice c_r) w.store.pending
          (λ gone. ground arith),
    );
  }
  Step-IsBounded ids e {w} (misses c_r) b = record {
    distinct = remove-IsUnique (as_slice c_r) w.store.pending b.distinct;
    known = removed-known ids w c_r b;
    counted = omega (
      arith,
      b.counted,
      length-remove_le {V = PendingSession lakers} (as_slice c_r) w.store.pending,
    );
  }
  Step-IsBounded ids e {w} (rejects before after f credentials x at bad) b = record {
    distinct = b.distinct;
    known = b.known;
    counted = omega (arith, b.counted, length-middle before after f w.verifying at);
  }
  Step-IsBounded ids e {w} (completes before after f credentials later done at good) b = record {
    distinct = b.distinct;
    known = b.known;
    counted = omega (arith, b.counted, length-middle before after f w.verifying at);
  }

  Reach-IsBounded :
      (ids : List ConnId)
      → one_byte_ids lakers ≡ some ids
      → {own : EdhocIdentity lakers} {w : World} → Reach own w
      → IsBounded ids w
  unfolding new lookup
  Reach-IsBounded ids e starts = record {
    distinct = tt;
    known = λ k there. absurd (there refl);
    counted = omega arith;
  }
  Reach-IsBounded ids e (steps r st) = Step-IsBounded ids e st (Reach-IsBounded ids e r)

  length-slices : (ids : List ConnId) → length (slices lakers ids) ≡ length ids
  length-slices [] = refl
  length-slices (c ∷ cs) = omega (arith, length-slices cs)

  -- However exchanges interleave, at most 48 sessions are pending, under distinct keys, and each
  -- `message_2` that was returned leads to at most one established session: the sessions that are
  -- established, being verified or pending are not more than the `message_2`s. The bytes of the
  -- identifiers decode.
  pub Reach-bounded :
      (ids : List ConnId)
      → one_byte_ids lakers ≡ some ids
      → {own : EdhocIdentity lakers} {w : World} → Reach own w
      → (pending_sessions lakers w.store ≤ 48)
        × IsUnique w.store.pending
        × (length w.established + (length w.verifying + pending_sessions lakers w.store)
            ≤ w.prepared)
  unfolding pending_sessions
  Reach-bounded ids e {own} {w} r =
      let b = Reach-IsBounded ids e r in
      (
        omega (
          arith,
          length-distinct lakers w.store.pending (slices lakers ids) b.distinct b.known,
          length-slices ids,
          length-one_byte_ids lakers ids e,
        ),
        b.distinct,
        b.counted,
      )
