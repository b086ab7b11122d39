-- ===== src/Router/Responses.antt =====
-- src/router/response.rs and route.rs: `IntoResponse`, what handlers return. A `Vec<u8>`, an array, a
-- slice and a text are their bytes, and a box is its content.
use Prim.{Unit}
use coap_rs.Common.{ℕ, ◌≡◌, refl, none, some, List, [], ◌∷◌, ◌++◌, Bytes, arith}
use coap_rs.Common.Results.{Result, ok, err}
use coap_rs.Coap.{Status}
use coap_rs.Router.{Reply, Request, Response, fill_reply, fill_response, error_response, or_else}
use coap_rs.Router.Routes.{RouteError}

abbrev pub new : Response
new = record { status_code = none; payload = none; options = [] }

abbrev set_status_code : Status → Response → Response
set_status_code status_code r = record r { status_code = some status_code }

abbrev set_payload : Bytes → Response → Response
set_payload payload r = record r { payload = some payload }

abbrev pub add_option : ℕ → Bytes → Response → Response
add_option option value r = record r { options = r.options ++ (option, value) ∷ [] }

pub record IntoResponse {ℓ} (T : Type ℓ) : Type ℓ where
  pub respond : T → Response

abbrev pub into_response {ℓ} : {T : Type ℓ} ⦃e : IntoResponse T⦄ → T → Response
into_response ⦃e⦄ = e.respond

instance abbrev pub response_same : IntoResponse Response
response_same = record { respond = λ r. r }

instance abbrev pub unit_response : IntoResponse {0} Unit
unit_response = record { respond = λ u. new }

instance abbrev pub status_response : IntoResponse Status
status_response = record { respond = λ status. set_status_code status new }

instance abbrev pub infallible_response : IntoResponse ⊥
infallible_response = record { respond = λ e. absurd e }

instance abbrev pub bytes_response : IntoResponse (List ℕ)
bytes_response = record { respond = λ bytes. set_payload bytes new }

instance abbrev pub route_error_response : IntoResponse RouteError
route_error_response = record { respond = error_response }

abbrev either_response {ℓ κ} :
    {E : Type ℓ} {T : Type κ} → (E → Response) → (T → Response) → Result E T → Response
either_response failed good (ok value) = good value
either_response failed good (err e) = failed e

instance abbrev pub result_response {ℓ κ} :
    {E : Type ℓ} {T : Type κ} ⦃e : IntoResponse E⦄ ⦃t : IntoResponse T⦄ → IntoResponse (Result E T)
result_response ⦃e⦄ ⦃t⦄ = record { respond = either_response e.respond t.respond }

instance abbrev pub with_status_response {ℓ} :
    {T : Type ℓ} ⦃t : IntoResponse T⦄ → IntoResponse (Status × T)
with_status_response ⦃t⦄ = record { respond = λ p. set_status_code p.0 (t.respond p.1) }

module _ {ℓ} {T : Type ℓ} ⦃t : IntoResponse T⦄ where
  -- A value that a handler returns with a code sets the code of the prepared response, adds the
  -- value's options after those that are there, and replaces the payload where the value has one.
  pub fill_response-with_status :
      (status : Status) (value : T) (req : Request) (reply : Reply)
      → req.response ≡ some reply
      → (filled : Reply) × ((fill_response
            (into_response {T = Status × T} (status, value))
            req).response
          ≡ some filled)
        × (filled.status ≡ status)
        × (filled.options ≡ reply.options ++ (into_response value).options)
        × (filled.payload ≡ or_else (into_response value).payload reply.payload)
  unfolding fill_response fill_reply
  fill_response-with_status status value req reply prepared = (
    fill_reply (into_response {T = Status × T} (status, value)) reply,
    ground (arith, prepared),
    refl,
    refl,
    refl,
  )
