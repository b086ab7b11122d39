-- ===== src/Tests/Routes.antt =====
-- src/router/mod.rs: the theorems on a router of two routes with numbers for states.
use Prim.Native.Nat.{ℕ}
use coap_rs.Common.{
  List, ◌≡◌, refl, true, ◌&&◌, if◌then◌else◌, none, some, [], ◌∷◌, ◌++◌, Bytes, ascii, ite,
  bytes_same, map, All,
}
use native.Mathlib.Decide.{ℕ_discrete}
use coap_rs.Common.Results.{Result, err}
use coap_rs.Coap.{Method, Status}
use coap_rs.Discovery.{LinkWriter, same_text, well_known_core}
use coap_rs.Router.{
  Response, error_response, Request, Router, MethodRouter, handle, serve, path_text, join_with,
  handle_discovery, handle_fallback, no_methods,
}
use coap_rs.Router.Routes.{
  build_regex, scan_segments, scan_literal, scan_param, render, split_slash, Route, Regex,
  match_path, bind_params, trim_slashes, trim_front, trim_back, RouteError, render_error,
}
use coap_rs.Router.Routes.Patterns.{
  Part, print, join_segments, join_pieces, all_params, IsClean, build_regex-groups,
}
use coap_rs.Router.Responses.{
  into_response, add_option, new, response_same, with_status_response, result_response,
  bytes_response, route_error_response,
}
use coap_rs.Router.Selection.{NoneMatch, handle-first_match, handle-NoneMatch}

-- A pattern without groups matches just itself.
abbrev literal_regex : Regex
literal_regex = record {
  escape = λ text. text;
  captures = λ pattern text. ite (bytes_same pattern text) (some []) none;
  percent_decode = λ text. some text;
}

abbrev writer : LinkWriter
writer = record {
  link = λ href. href;
  attr = λ key value. key ++ b'=' ∷ value;
  attr_quoted = λ key value. key ++ b'=' ∷ value;
}

abbrev exact : Bytes → Route
exact path = record { path = path; regex = path; param_names = [] }

abbrev heater : MethodRouter ℕ
heater = no_methods ℕ

abbrev lamp : MethodRouter ℕ
lamp = record (no_methods ℕ) { put = some (λ req state. record req { payload = ascii "lit" }) }

abbrev house : Router ℕ
house = record {
  routes = (exact (ascii "heater"), heater) ∷ (exact (ascii "lamp"), lamp) ∷ [];
  fallback = none;
  state = 3;
  enable_discovery = true;
}

abbrev ask : Method → Bytes → Request
ask method segment = record {
  method = method;
  segments = segment ∷ [];
  queries = [];
  payload = [];
  response = none;
  path = [];
}

abbrev format : ℕ × Bytes
format = (12, 40 ∷ [])

handle-first_match_example :
    handle ℕ literal_regex writer (λ text. true) format house (ask Method.put (ascii "lamp"))
    ≡ serve ℕ literal_regex writer (λ text. true) format house lamp (ask Method.put (ascii "lamp"))
unfolding match_path bind_params trim_slashes trim_front trim_back path_text join_with bytes_same
    ℕ_discrete
handle-first_match_example =
    handle-first_match ℕ literal_regex writer (λ text. true) format
      ((exact (ascii "heater"), heater) ∷ []) [] (exact (ascii "lamp")) lamp house
      (ask Method.put (ascii "lamp")) [] refl (NoneMatch.passed refl NoneMatch.none_left) refl

handle-NoneMatch_example :
    handle ℕ literal_regex writer (λ text. true) format house (ask Method.get (ascii "door")) ≡ (
      if true && (true && same_text (path_text (ask Method.get (ascii "door"))) well_known_core)
      then handle_discovery ℕ literal_regex writer
          (λ text. true)
          format
          house
          (ask Method.get (ascii "door"))
      else handle_fallback ℕ house (ask Method.get (ascii "door")))
unfolding match_path bind_params trim_slashes trim_front trim_back path_text join_with bytes_same
    ℕ_discrete
handle-NoneMatch_example =
    handle-NoneMatch ℕ literal_regex writer (λ text. true) format house
      (ask Method.get (ascii "door"))
      (NoneMatch.passed refl (NoneMatch.passed refl NoneMatch.none_left))

build_regex-groups_example :
    (parts : List (List Part)) × (join_segments (map print parts)
      ≡ trim_slashes (ascii "/s/{id}/{n}"))
    × (ascii "^s/([^/]+)/([^/]+)$" ≡ b'^' ∷ render literal_regex (join_pieces parts) ++ b'$' ∷ [])
    × (all_params parts ≡ ascii "id" ∷ ascii "n" ∷ [])
    × All (All IsClean) parts
unfolding build_regex scan_segments scan_literal scan_param render split_slash trim_slashes
    trim_front trim_back
build_regex-groups_example =
    build_regex-groups literal_regex (ascii "/s/{id}/{n}") (ascii "^s/([^/]+)/([^/]+)$")
      (ascii "id" ∷ ascii "n" ∷ []) refl

-- An option with a text and a code, and a failure of the route.
options_kept :
    into_response {T = Status × Response} (Status.content, add_option 12 (64 ∷ []) new)
    ≡ record { status_code = some Status.content; payload = none; options = (12, 64 ∷ []) ∷ [] }
options_kept = refl

failure_rendered : into_response {T = Result RouteError Bytes} (err RouteError.not_found) ≡ record {
  status_code = some Status.not_found;
  payload = some (ascii "Not found");
  options = [];
}
unfolding error_response render_error
failure_rendered = refl
