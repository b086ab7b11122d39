-- ===== src/Extract/Tuples.antt =====
-- src/router/extract/tuple.rs and src/router/handler.rs: the arguments of a handler are extracted one
-- after the other, and the first rejection is the response.
use coap_rs.Common.{◌≡◌, refl, arith, inl, inr}
use coap_rs.Common.Results.{Result, ok, err, Result-cases}
use coap_rs.Router.{Request, Response, fill_response}

module _ (S : Type 0) where
  -- The extractors of the elements of a tuple, in order: each is a `from_request` whose rejection is
  -- the response that it turns into.
  pub data Extractors : Type 0 → Type 1 where
    unit : Extractors (Unit {0})
    next : {A B : Type 0} → (Request → S → Result Response A) → Extractors B → Extractors (A × B)

  -- `from_request` of `()` and of the tuples, by `impl_from_request`.
  unfoldable pub from_request : {A : Type 0} → Extractors A → Request → S → Result Response A
  from_request unit req state = ok tt
  from_request (next extract rest) req state = elim (extract req state) [
    | err rejection ↦ err rejection
    | ok value ↦ elim (from_request rest req state) [
      | err rejection ↦ err rejection
      | ok values ↦ ok (value, values)
    ]
  ]

  -- `into_response` of a result.
  abbrev pub into_response : {A : Type 0} → (A → Response) → Result Response A → Response
  into_response handler (ok value) = handler value
  into_response handler (err rejection) = rejection

  -- `call` of a handler with these arguments, by `impl_handler`.
  unfoldable pub call : {A : Type 0} → Extractors A → (A → Response) → Request → S → Request
  unfolding fill_response
  call unit handler req state = fill_response (handler tt) req
  call (next extract rest) handler req state = elim (extract req state) [
    | err rejection ↦ fill_response rejection req
    | ok value ↦ call rest (λ values. handler (value, values)) req state
  ]

  -- A handler of several arguments fills the response as the result of extracting the tuple of them
  -- turns into: the first rejection, or what the handler returns where every argument is extracted.
  pub call-from_request :
      {A : Type 0} (es : Extractors A) (handler : A → Response) (req : Request) (state : S)
      → call es handler req state
        ≡ fill_response (into_response handler (from_request es req state)) req
  unfolding call from_request
  call-from_request unit handler req state = refl
  call-from_request (next extract rest) handler req state =
      elim (Result-cases (extract req state)) [
        | inr (r, rejected) ↦ ground arith
        | inl (value, good) ↦ elim (Result-cases (from_request rest req state)) [
          | inr (r, rejected) ↦
              ground (arith, call-from_request rest (λ values. handler (value, values)) req state)
          | inl (values, fine) ↦
              ground (arith, call-from_request rest (λ values. handler (value, values)) req state)
        ]
      ]
