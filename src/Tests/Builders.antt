-- ===== src/Tests/Builders.antt =====
-- src/request.rs: the theorem on a request with a query and a host.
use coap_rs.Common.{
  All, map, ◌⊎◌, ◌≡◌, refl, ◌≢◌, true, Bool, false, none, some, List, [], ◌∷◌, Bytes, ascii,
}
use coap_rs.Coap.{Method}
use coap_rs.Common.Results.{ok}
use coap_rs.Router.{join_with}
use coap_rs.Client.Urls.{UrlReader, request}
use coap_rs.Client.Urls.Splitting.{Apart, request_lem}
use coap_rs.Build.{RequestBuilder, BuiltRequest, CoapOption, build}
use coap_rs.Build.Options.{queries_of, build_lem}

abbrev search : RequestBuilder
search = record {
  path = ascii "find";
  method = Method.get;
  payload = none;
  queries = ascii "q=1" ∷ [];
  domain = ascii "home";
  confirmable = true;
  token = some (ascii "a");
  options = (17, 40 ∷ []) ∷ [];
}

-- One Uri-Path option.
abbrev one_segment : Bytes → List CoapOption
one_segment path = (11, path) ∷ []

abbrev never : Bytes → Bool
never domain = false

build_lem_example :
    ((queries_of search.options ≡ [])
      × (r : BuiltRequest) × (build one_segment never search ≡ some r)
      × (queries_of r.options ≡ search.queries))
    ⊎ ((queries_of search.options ≢ []) × (build one_segment never search ≡ none))
unfolding queries_of
build_lem_example = build_lem one_segment never search refl

-- A URL that reads as the host "h", the path "/p" and the query "a=1&b".
abbrev reader : UrlReader
reader = record {
  parse = λ url. some (record {
    host = some (ascii "h");
    port = none;
    path = ascii "/p";
    query = some (ascii "a=1&b");
  });
  set_path = λ path u. path;
  decode = λ q. q;
  without_brackets = λ host. host;
}

request_lem_example :
    (r : BuiltRequest) × (request reader
        (λ path. [])
        (λ host. false)
        (ascii "coap://h/p?a=1&b")
        Method.get
        none
      ≡ ok ((ascii "h", 5683), some r))
    × (parts : List Bytes) × (queries_of r.options ≡ map (λ q. q) parts)
    × (join_with b'&' parts ≡ ascii "a=1&b")
    × All (Apart b'&') parts
unfolding queries_of
request_lem_example =
    request_lem reader (λ path. []) (λ host. false) (ascii "coap://h/p?a=1&b") Method.get none
      (record {
        host = some (ascii "h");
        port = none;
        path = ascii "/p";
        query = some (ascii "a=1&b");
      })
      104 [] (ascii "a=1&b") refl refl refl refl
