-- ===== src/Client/Urls.antt =====
-- src/client.rs: what the requests that take a URL send, and the answer to a discovery. The parser of
-- URLs, the percent decoder and the pattern that takes the brackets off a host are arguments.
pub mod Splitting
use coap_rs.Common.{
  ℕ, Bool, true, false, Option, none, some, List, [], ◌∷◌, ◌==◌, if◌then◌else◌, Bytes, map, leb,
  length, ascii,
}
use coap_rs.Common.Results.{Result, ok, err, ◌>>=◌, ok_or, map_err}
use coap_rs.Coap.{Method, Status}
use coap_rs.Discovery.{Link, well_known_core}
use coap_rs.Build.{
  CoapOption, RequestBuilder, BuiltRequest, build, with_queries, with_domain, with_data,
}
use coap_rs.Client.{Message}
use coap_rs.Client.Transport.{Failure}
use coap_rs.Server.Multicast.{IpAddr, all_coap}

-- What the client reads of a URL.
pub record Url : Type 0 where
  pub host : Option Bytes
  pub port : Option ℕ
  pub path : Bytes
  pub query : Option Bytes

-- What the client takes from `url`, `percent_encoding` and `regex`.
pub record UrlReader : Type 0 where
  pub parse : Bytes → Option Url
  -- `set_path` and `to_string`
  pub set_path : Bytes → Url → Bytes
  pub decode : Bytes → Bytes
  pub without_brackets : Bytes → Bytes

pub data UrlError : Type 0 where
  url_error host_error : UrlError

-- Where a request goes, its path and its queries.
pub record Target : Type 0 where
  pub host : Bytes
  pub port : ℕ
  pub path : Bytes
  pub queries : List Bytes

abbrev on_first : ℕ → List Bytes → List Bytes
on_first b [] = (b ∷ []) ∷ []
on_first b (s ∷ rest) = (b ∷ s) ∷ rest

-- `split`
unfoldable pub split_on : ℕ → Bytes → List Bytes
split_on sep [] = [] ∷ []
split_on sep (b ∷ text) =
    let rest = split_on sep text in if b == sep then [] ∷ rest else on_first b rest

abbrev pub default_port : Option ℕ → ℕ
default_port none = 5683
default_port (some port) = port

abbrev host_of : Option Bytes → Result UrlError Bytes
host_of none = err host_error
host_of (some []) = err host_error
host_of (some (b ∷ host)) = ok (b ∷ host)

module _ (reader : UrlReader) where
  open reader use {parse, set_path, decode, without_brackets}

  abbrev pub queries_in : Option Bytes → List Bytes
  queries_in none = []
  queries_in (some q) = map decode (split_on b'&' q)

  unfoldable pub parse_coap_url : Bytes → Result UrlError Target
  parse_coap_url url = do
    url_params ← ok_or url_error (parse url)
    host ← host_of url_params.host
    ok (record {
      host = without_brackets host;
      port = default_port url_params.port;
      path = url_params.path;
      queries = queries_in url_params.query;
    })

  unfoldable pub discovery_url : Bytes → Result UrlError Bytes
  discovery_url url = do
    url_params ← ok_or url_error (parse url)
    ok (set_path well_known_core url_params)

  module _ (path_options : Bytes → List CoapOption) (is_address : Bytes → Bool) where
    -- The host and the port that a client is made for, and the request that it sends; `none` is a
    -- panic of `build`.
    unfoldable pub request :
        Bytes → Method → Option Bytes → Result UrlError ((Bytes × ℕ) × Option BuiltRequest)
    unfolding parse_coap_url
    request url method payload = do
      target ← parse_coap_url url
      ok (
        (target.host, target.port),
        build path_options is_address (
            with_data payload (
              with_domain target.host
                (with_queries target.queries (coap_rs.Build.new target.path method)))),
      )

    pub get : Bytes → Result UrlError ((Bytes × ℕ) × Option BuiltRequest)
    unfolding request
    get url = request url Method.get none

    pub post : Bytes → Bytes → Result UrlError ((Bytes × ℕ) × Option BuiltRequest)
    unfolding request
    post url payload = request url Method.post (some payload)

    pub put : Bytes → Bytes → Result UrlError ((Bytes × ℕ) × Option BuiltRequest)
    unfolding request
    put url payload = request url Method.put (some payload)

    pub delete : Bytes → Result UrlError ((Bytes × ℕ) × Option BuiltRequest)
    unfolding request
    delete url = request url Method.delete none

    -- The request of a discovery.
    pub discover : Bytes → Result UrlError ((Bytes × ℕ) × Option BuiltRequest)
    unfolding discovery_url request
    discover url = do wanted ← discovery_url url; request wanted Method.get none

-- The response to a discovery: its status, its first Content-Format option, `some none` where that
-- does not decode, and its payload.
pub record DiscoveryResponse : Type 0 where
  pub status : Status
  pub content_format : Option (Option ℕ)
  pub payload : Bytes

pub data DiscoveryError : Type 0 where
  refused : Status → DiscoveryError
  invalid_format invalid_utf8 link_format : DiscoveryError
  unexpected_format : ℕ → DiscoveryError

abbrev application_link_format : ℕ
application_link_format = 40

abbrev accepts_format : Option (Option ℕ) → Result DiscoveryError (Unit {0})
accepts_format none = ok tt
accepts_format (some none) = err invalid_format
accepts_format (some (some n)) =
    if n == application_link_format then ok tt else err (unexpected_format n)

abbrev accepts_status : Status → Result DiscoveryError (Unit {0})
accepts_status Status.content = ok tt
accepts_status status = err (refused status)

-- `parse_links` is `parse_link_format`, whose parser is `coap_lite`'s.
unfoldable pub parse_discovery_response :
    (Bytes → Bool)
    → (Bytes → Option (List Link))
    → DiscoveryResponse
    → Result DiscoveryError (List Link)
parse_discovery_response utf8 parse_links response = do
  _ ← accepts_status response.status
  _ ← accepts_format response.content_format
  text ← if utf8 response.payload then ok response.payload else err invalid_utf8
  ok_or link_format (parse_links text)

-- What sending a multicast request comes to.
pub data MulticastError : Type 0 where
  packet_error send_length : MulticastError
  transport : Failure → MulticastError

abbrev sent_whole : Bytes → ℕ → Result MulticastError (Unit {0})
sent_whole bytes size = if size == length bytes then ok tt else err send_length

-- `to_bytes` is the codec and `send_to` the socket, which says how many bytes it has sent.
unfoldable pub send_multicast :
    (Message → Option Bytes)
    → (Bytes → IpAddr × ℕ → Result Failure ℕ)
    → ℕ
    → Message
    → IpAddr × ℕ
    → Message × Result MulticastError (Unit {0})
send_multicast to_bytes send_to counter m addr =
    let numbered = (if m.message_id == 0 then record m { message_id = counter } else m) in
    (
      numbered,
      do
        bytes ← ok_or packet_error (to_bytes numbered)
        size ← map_err transport (send_to bytes addr)
        sent_whole bytes size,
    )

-- `none` is the panic at a segment above 15; `is_v4` and `port` are of the peer's address.
unfoldable pub send_all_coap :
    (Message → Option Bytes)
    → (Bytes → IpAddr × ℕ → Result Failure ℕ)
    → ℕ
    → Message
    → Bool
    → ℕ
    → ℕ
    → Option (Message × Result MulticastError (Unit {0}))
unfolding send_multicast
send_all_coap to_bytes send_to counter m is_v4 port segment =
    let done = send_multicast to_bytes send_to counter m (all_coap is_v4 segment, port) in
    if leb segment 0xf then some done else none
