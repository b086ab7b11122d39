-- ===== src/Router.antt =====
-- src/router: requests, responses, the method router and the router, whose first matching route
-- handles a request. Handlers, `regex` and the percent decoder are arguments.
pub mod Routes
pub mod Responses
pub mod Selection
use coap_rs.Common.{
  ℕ, Bool, true, false, not, ◌&&◌, Option, none, some, List, [], ◌∷◌, ◌++◌, ◌==◌, if◌then◌else◌,
  Bytes, bytes_same, ite, all, ascii, ◌⊎◌, inl, inr, map,
}
use coap_rs.Coap.{Method, Status}
use coap_rs.Discovery.{
  Link, LinkWriter, well_known_core, matches_query, write_link_format, same_text,
}
use Routes.{Route, Regex, match_path, has_params, trim_slashes, RouteError, not_found, render_error}

-- The response that is prepared for a request: the code, the options added to it and the payload.
pub record Reply : Type 0 where
  pub status : Status
  pub options : List (ℕ × Bytes)
  pub payload : Bytes

-- `router::Request`: the path segments, the query options, the payload and the prepared response of
-- the CoAP request, and the path parameters of the route.
pub record Request : Type 0 where
  pub method : Method
  pub segments : List Bytes
  pub queries : List Bytes
  pub payload : Bytes
  pub response : Option Reply
  pub path : List (Bytes × Bytes)

-- `router::Response`
pub record Response : Type 0 where
  pub status_code : Option Status
  pub payload : Option Bytes
  pub options : List (ℕ × Bytes)

abbrev pub or_else {ℓ} : {A : Type ℓ} → Option A → A → A
or_else none a = a
or_else (some b) a = b

unfoldable pub fill_reply : Response → Reply → Reply
fill_reply r reply = record {
  status = or_else r.status_code reply.status;
  options = reply.options ++ r.options;
  payload = or_else r.payload reply.payload;
}

-- `fill_response` does nothing where the request has no response.
unfoldable pub fill_response : Response → Request → Request
unfolding fill_reply
fill_response r req = elim req.response [
  | none ↦ req
  | some reply ↦ record req { response = some (fill_reply r reply) }
]

-- `IntoResponse` of `(StatusCode, T)` for a text, and of a route error.
abbrev pub status_text : Status → Bytes → Response
status_text status text = record { status_code = some status; payload = some text; options = [] }

unfoldable pub error_response : RouteError → Response
unfolding render_error
error_response e =
    status_text (elim e [ RouteError.not_found ↦ Status.not_found | _ ↦ Status.bad_request ])
      (render_error e)

-- `join`
unfoldable pub join_with : ℕ → List Bytes → Bytes
join_with sep [] = []
join_with sep (s ∷ []) = s
join_with sep (s ∷ t ∷ rest) = s ++ sep ∷ join_with sep (t ∷ rest)

unfoldable pub path_text : Request → Bytes
unfolding join_with
path_text req = join_with b'/' req.segments

-- `query_as_vec`, where `utf8` says which options are valid texts.
unfoldable pub query_as_vec : (Bytes → Bool) → Request → Option (List Bytes)
query_as_vec utf8 req = if all utf8 req.queries then some req.queries else none

module _ (S : Type 0) where
  abbrev pub Handler : Type 0
  Handler = Request → S → Request

  pub record MethodRouter : Type 0 where
    pub get : Option Handler
    pub delete : Option Handler
    pub post : Option Handler
    pub put : Option Handler
    pub fallback : Option Handler
    pub link_attributes : List (Bytes × Option Bytes)

  abbrev pub no_methods : MethodRouter
  no_methods = record {
    get = none;
    delete = none;
    post = none;
    put = none;
    fallback = none;
    link_attributes = [];
  }

  -- `get`, `delete`, `post`, `put` and `fallback` of a method router; the functions of these names
  -- apply them to the router without handlers.
  pub with_get : Handler → MethodRouter → MethodRouter
  with_get handler m = record m { get = some handler }

  pub with_delete : Handler → MethodRouter → MethodRouter
  with_delete handler m = record m { delete = some handler }

  pub with_post : Handler → MethodRouter → MethodRouter
  with_post handler m = record m { post = some handler }

  pub with_put : Handler → MethodRouter → MethodRouter
  with_put handler m = record m { put = some handler }

  pub with_fallback : Handler → MethodRouter → MethodRouter
  with_fallback handler m = record m { fallback = some handler }

  pub link_attribute : Bytes → Bytes → MethodRouter → MethodRouter
  link_attribute key value m = record m {
    link_attributes = m.link_attributes ++ (key, some value) ∷ [];
  }

  pub link_flag : Bytes → MethodRouter → MethodRouter
  link_flag key m = record m { link_attributes = m.link_attributes ++ (key, none) ∷ [] }

  -- The handler for a method.
  pub handler_for : MethodRouter → Method → Option Handler
  handler_for m Method.get = m.get
  handler_for m Method.delete = m.delete
  handler_for m Method.post = m.post
  handler_for m Method.put = m.put
  handler_for m (Method.other n) = none

  -- `Ok` of the handled request is `inl`; `Err` of the request as it came is `inr`.
  pub try_handle : MethodRouter → Request → S → Request ⊎ Request
  unfolding handler_for
  try_handle m req state = elim (handler_for m req.method) [
    | some handler ↦ inl (handler req state)
    | none ↦ elim m.fallback [ some fallback ↦ inl (fallback req state) | none ↦ inr req ]
  ]

  pub record Router : Type 0 where
    pub routes : List (Route × MethodRouter)
    pub fallback : Option Handler
    pub state : S
    pub enable_discovery : Bool

  pub from_state : S → Router
  from_state state = record {
    routes = [];
    fallback = none;
    state = state;
    enable_discovery = false;
  }

  pub with_state : S → Router → Router
  with_state state router = record router { state = state }

  -- `fallback` of a router.
  pub set_fallback : Handler → Router → Router
  set_fallback handler router = record router { fallback = some handler }

  pub set_discovery : Bool → Router → Router
  set_discovery value router = record router { enable_discovery = value }

  pub add_route : Route → MethodRouter → Router → Router
  add_route route m router = record router { routes = router.routes ++ (route, m) ∷ [] }

  pub route_links : List (Route × MethodRouter) → List Link
  unfolding has_params trim_slashes
  route_links [] = []
  route_links ((route, m) ∷ rest) =
      if has_params route
      then route_links rest
      else record { href = b'/' ∷ trim_slashes route.path; attributes = m.link_attributes }
        ∷ route_links rest

  pub links : Router → List Link
  unfolding route_links
  links router = route_links router.routes

  pub handle_fallback : Router → Request → Request
  unfolding error_response fill_response
  handle_fallback router req = elim router.fallback [
    | some fallback ↦ fallback req router.state
    | none ↦ fill_response (error_response RouteError.not_found) req
  ]

  abbrev pub selected : List Bytes → List Link → List Link
  selected queries [] = []
  selected queries (l ∷ rest) =
      if all (matches_query l) queries then l ∷ selected queries rest else selected queries rest

  module _ (regex : Regex) (writer : LinkWriter) (utf8 : Bytes → Bool)
      (link_format : ℕ × Bytes) where
    abbrev set_link_format : Request → Request
    set_link_format req = elim req.response [
      | none ↦ req
      | some reply ↦ record req {
        response = some (record reply { options = reply.options ++ link_format ∷ [] });
      }
    ]

    pub handle_discovery : Router → Request → Request
    unfolding query_as_vec links fill_response
    handle_discovery router req = elim (query_as_vec utf8 req) [
      | none ↦ fill_response (status_text Status.bad_request (ascii "Invalid query string")) req
      | some queries ↦ set_link_format (
          fill_response
            (status_text Status.content
              (write_link_format writer (selected queries (links router))))
            req)
    ]

    -- A method router that does not handle the request hands it to the router's fallback.
    pub serve : Router → MethodRouter → Request → Request
    unfolding try_handle handle_fallback
    serve router m req = elim (try_handle m req router.state) [
      | inl handled ↦ handled
      | inr back ↦ handle_fallback router back
    ]

    abbrev pub is_get : Method → Bool
    is_get Method.get = true
    is_get _ = false

    pub handle_unmatched : Router → Request → Request
    unfolding handle_discovery handle_fallback path_text
    handle_unmatched router req =
        if router.enable_discovery
          && (is_get req.method && same_text (path_text req) well_known_core)
        then handle_discovery router req
        else handle_fallback router req

    -- The loop over the routes.
    pub handle_from : List (Route × MethodRouter) → Router → Request → Request
    unfolding serve handle_unmatched match_path
    handle_from [] router req = handle_unmatched router req
    handle_from ((route, m) ∷ rest) router req = elim (match_path regex route (path_text req)) [
      | inl params ↦ serve router m (record req { path = params })
      | inr _ ↦ handle_from rest router req
    ]

    pub handle : Router → Request → Request
    unfolding handle_from
    handle router req = handle_from router.routes router req
