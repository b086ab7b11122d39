-- ===== src/Client/Urls/Splitting.antt =====
-- src/client.rs: the queries of a URL.
use mathlib.Core.Path.{subst}
use Prim.{tt}
use coap_rs.Common.{
  ℕ, ◌≡◌, refl, Bool, Option, some, List, [], ◌∷◌, ◌==◌, Bytes, map, arith, Bool-cases, inl, inr,
  false, All,
}
use coap_rs.Common.Results.{ok}
use coap_rs.Router.{join_with}
use coap_rs.Coap.{Method}
use coap_rs.Build.{CoapOption, BuiltRequest, new, with_data, with_domain, with_queries}
use coap_rs.Build.Options.{queries_of, build-free}
use coap_rs.Client.Urls.{
  Url, UrlReader, split_on, default_port, queries_in, parse_coap_url, request,
}

join_with-first :
    (sep b : ℕ) (s : Bytes) (rest : List Bytes)
    → join_with sep ((b ∷ s) ∷ rest) ≡ b ∷ join_with sep (s ∷ rest)
unfolding join_with
join_with-first sep b s [] = refl
join_with-first sep b s (t ∷ rest) = refl

split_on-filled :
    (sep : ℕ) (text : Bytes) → (s : Bytes) × (rest : List Bytes) × (split_on sep text ≡ s ∷ rest)
unfolding split_on
split_on-filled sep [] = ([], [], refl)
split_on-filled sep (b ∷ text) =
    let (s, rest, e) = split_on-filled sep text in
    elim (Bool-cases (b == sep)) [
      | inl same ↦ ([], split_on sep text, ground arith)
      | inr other ↦ (b ∷ s, rest, ground (arith, e))
    ]

-- A text that is split at a separator is joined by it again.
pub join_with-split_on : (sep : ℕ) (text : Bytes) → join_with sep (split_on sep text) ≡ text
unfolding split_on join_with
join_with-split_on sep [] = refl
join_with-split_on sep (b ∷ text) =
    let (s, rest, e) = split_on-filled sep text in
    let ih = join_with-split_on sep text in
    elim (Bool-cases (b == sep)) [
      | inl same ↦ ground (arith, e, ih)
      | inr other ↦ let first = join_with-first sep b s rest in ground (arith, e, ih, first)
    ]

unfoldable pub Apart : ℕ → Bytes → Type 0
Apart sep = All (λ b. (b == sep) ≡ false)

-- No part of a split text has the separator.
split_on-Apart : (sep : ℕ) (text : Bytes) → All (Apart sep) (split_on sep text)
unfolding split_on Apart
split_on-Apart sep [] = (tt, tt)
split_on-Apart sep (b ∷ text) =
    let (s, rest, e) = split_on-filled sep text in
    let ih : All (Apart sep) (s ∷ rest) = subst (All (Apart sep)) e (split_on-Apart sep text) in
    elim (Bool-cases (b == sep)) [
      | inl same ↦
          let split : [] ∷ split_on sep text ≡ split_on sep (b ∷ text) = ground arith in
          subst (All (Apart sep)) split (tt, split_on-Apart sep text)
      | inr other ↦
          let split : (b ∷ s) ∷ rest ≡ split_on sep (b ∷ text) = ground (arith, e) in
          subst (All (Apart sep)) split ((other, ih.0), ih.1)
    ]

module _ (reader : UrlReader) (path_options : Bytes → List CoapOption)
    (is_address : Bytes → Bool) where
  open reader use {parse, decode, without_brackets}

  -- For a URL that parses and has a host and a query, `request` makes a client for the host, without
  -- brackets, and the port, 5683 where the URL has none, and the queries of the request that it sends are the parts of the
  -- URL's query between the ampersands, decoded and in order. The options of the path hold no query.
  pub request_lem :
      (url : Bytes) (method : Method) (payload : Option Bytes) (u : Url) (h : ℕ) (host q : Bytes)
      → parse url ≡ some u
      → u.host ≡ some (h ∷ host)
      → u.query ≡ some q
      → queries_of (path_options u.path) ≡ []
      → (r : BuiltRequest) × (request reader path_options is_address url method payload
          ≡ ok ((without_brackets (h ∷ host), default_port u.port), some r))
        × (parts : List Bytes) × (queries_of r.options ≡ map decode parts)
        × (join_with b'&' parts ≡ q)
        × All (Apart b'&') parts
  unfolding request parse_coap_url new with_data with_domain with_queries queries_of
  request_lem url method payload u h host q parsed named asked bare =
      let b = with_data payload (
        with_domain (without_brackets (h ∷ host))
          (with_queries (queries_in reader u.query) (new u.path method))) in
      let (r, built, same) = build-free path_options is_address b bare refl in
      (
        r,
        ground (arith, parsed, named, built),
        split_on b'&' q,
        ground (arith, same, asked),
        join_with-split_on b'&' q,
        split_on-Apart b'&' q,
      )
