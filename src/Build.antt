-- ===== src/Build.antt =====
-- src/request.rs: the builder of a request. An option is a number with its value, where a number stands
-- for the variant that it names; `Unknown` of a number that has a name, which the comparison with
-- `UriQuery` lets pass, is left out. The options of a path and the parse of an address are arguments. The field `data` is called `payload`.
pub mod Options
use coap_rs.Common.{
  ℕ, Bool, true, false, not, ◌&&◌, Option, none, some, List, [], ◌∷◌, ◌++◌, map, ◌==◌, Bytes, ◌>>=◌,
  if◌then◌else◌,
}
use coap_rs.Coap.{MessageType, Method}

abbrev pub CoapOption : Type 0
CoapOption = ℕ × Bytes

-- The numbers of Uri-Host and Uri-Query.
abbrev pub uri_host : ℕ
uri_host = 3

abbrev pub uri_query : ℕ
uri_query = 15

pub record RequestBuilder : Type 0 where
  pub path : Bytes
  pub method : Method
  pub payload : Option Bytes
  pub queries : List Bytes
  pub domain : Bytes
  pub confirmable : Bool
  pub token : Option Bytes
  pub options : List CoapOption

unfoldable pub new : Bytes → Method → RequestBuilder
new path method = record {
  path = path;
  method = method;
  payload = none;
  queries = [];
  domain = [];
  confirmable = true;
  token = none;
  options = [];
}

abbrev or_empty : Option Bytes → Bytes
or_empty none = []
or_empty (some domain) = domain

pub request_path : Bytes → Method → Option Bytes → List Bytes → Option Bytes → RequestBuilder
unfolding new
request_path path method payload query domain = record (new path method) {
  payload = payload;
  queries = query;
  domain = or_empty domain;
}

unfoldable pub with_data : Option Bytes → RequestBuilder → RequestBuilder
with_data payload b = record b { payload = payload }

unfoldable pub with_queries : List Bytes → RequestBuilder → RequestBuilder
with_queries queries b = record b { queries = queries }

unfoldable pub with_domain : Bytes → RequestBuilder → RequestBuilder
with_domain domain b = record b { domain = domain }

pub with_confirmable : Bool → RequestBuilder → RequestBuilder
with_confirmable confirmable b = record b { confirmable = confirmable }

pub with_token : Option Bytes → RequestBuilder → RequestBuilder
with_token token b = record b { token = token }

pub with_options : List CoapOption → RequestBuilder → RequestBuilder
with_options options b = record b { options = options }

-- What `build` sets of the request, with the options in the order in which they are added.
pub record BuiltRequest : Type 0 where
  pub method : Method
  pub kind : MessageType
  pub options : List CoapOption
  pub payload : Bytes
  pub token : Bytes

-- The loop over the options; `assert_ne!` panics at Uri-Query.
pub add_options : List CoapOption → Option (List CoapOption)
add_options [] = some []
add_options ((number, value) ∷ rest) =
    let later = add_options rest in
    if number == uri_query then none else (do added ← later; some ((number, value) ∷ added))

abbrev pub query_option : Bytes → CoapOption
query_option query = (uri_query, query)

module _ (path_options : Bytes → List CoapOption) (is_address : Bytes → Bool) where
  -- The option that names the host, where it is no address.
  pub host_options : Bytes → List CoapOption
  host_options [] = []
  host_options (b ∷ bs) = if is_address (b ∷ bs) then [] else (uri_host, b ∷ bs) ∷ []

  unfoldable pub build : RequestBuilder → Option BuiltRequest
  unfolding add_options host_options
  build b = do
    added ← add_options b.options
    some (record {
      method = b.method;
      kind = if b.confirmable then MessageType.confirmable else MessageType.non_confirmable;
      options =
          path_options b.path ++ (map query_option b.queries ++ (added ++ host_options b.domain));
      payload = or_empty b.payload;
      token = or_empty b.token;
    })
