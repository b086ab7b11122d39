-- ===== src/Build/Options.antt =====
-- src/request.rs: the queries of a built request are those of the builder.
use coap_rs.Common.{
  ◌≡◌, refl, ◌≢◌, ◌⊎◌, Bool, true, false, none, some, List, [], ◌∷◌, ◌++◌, map, ◌==◌, Bytes, arith,
  ◌∙◌, ap, ap₂, append-nil, Option-cases, inl, inr, Bool-cases,
}
use coap_rs.Build.{
  CoapOption, RequestBuilder, BuiltRequest, uri_query, add_options, query_option, host_options,
  build,
}

abbrev pub keep_query : Bool → Bytes → List Bytes → List Bytes
keep_query true value rest = value ∷ rest
keep_query false value rest = rest

-- The values of the Uri-Query options.
unfoldable pub queries_of : List CoapOption → List Bytes
queries_of [] = []
queries_of ((number, value) ∷ rest) = keep_query (number == uri_query) value (queries_of rest)

queries_of-append :
    (xs ys : List CoapOption) → queries_of (xs ++ ys) ≡ queries_of xs ++ queries_of ys
unfolding queries_of
queries_of-append [] ys = refl
queries_of-append ((number, value) ∷ xs) ys = ground (arith, queries_of-append xs ys)

queries_of-map : (qs : List Bytes) → queries_of (map query_option qs) ≡ qs
unfolding queries_of
queries_of-map [] = refl
queries_of-map (q ∷ qs) = ap (λ rest. q ∷ rest) (queries_of-map qs)

add_options-same :
    (options added : List CoapOption)
    → add_options options ≡ some added
    → (added ≡ options) × (queries_of options ≡ [])
unfolding add_options queries_of
add_options-same [] added e = (ground arith, refl)
add_options-same ((number, value) ∷ rest) added e = elim (Option-cases (add_options rest)) [
  | inl bad ↦ absurd (ground arith)
  | inr (later, good) ↦
      let (same, none_there) = add_options-same rest later good in
      (ground (arith, same), ground (arith, none_there))
]

add_options-total :
    (options : List CoapOption) → queries_of options ≡ [] → add_options options ≡ some options
unfolding add_options queries_of
add_options-total [] h = refl
add_options-total ((number, value) ∷ rest) h = elim (Bool-cases (number == uri_query)) [
  | inl query ↦ absurd (ground arith)
  | inr plain ↦ ground (arith, add_options-total rest)
]

module _ (path_options : Bytes → List CoapOption) (is_address : Bytes → Bool) where
  host_options-queries :
      (domain : Bytes) → queries_of (host_options path_options is_address domain) ≡ []
  unfolding host_options queries_of
  host_options-queries [] = refl
  host_options-queries (b ∷ bs) = ground arith

  build-queries :
      (b : RequestBuilder) (r : BuiltRequest)
      → queries_of (path_options b.path) ≡ []
      → build path_options is_address b ≡ some r
      → (queries_of r.options ≡ b.queries) × (queries_of b.options ≡ [])
  unfolding build
  build-queries b r bare e = elim (Option-cases (add_options b.options)) [
    | inl bad ↦ absurd (ground arith)
    | inr (added, good) ↦
        let (same, free) = add_options-same b.options added good in
        let host = host_options path_options is_address b.domain in
        let parts : queries_of
              (path_options b.path ++ (map query_option b.queries ++ (added ++ host)))
            ≡ b.queries =
          queries_of-append (path_options b.path) (map query_option b.queries ++ (added ++ host))
          ∙ (ap₂ ◌++◌ bare (
              queries_of-append (map query_option b.queries) (added ++ host)
              ∙ (ap₂ ◌++◌ (queries_of-map b.queries) (
                    queries_of-append added host
                    ∙ ap₂ ◌++◌ (ap queries_of same ∙ free) (host_options-queries b.domain))
                  ∙ append-nil b.queries))) in
        (ground (arith, parts), free)
  ]

  build-total :
      (b : RequestBuilder) → queries_of b.options ≡ [] → build path_options is_address b ≢ none
  unfolding build
  build-total b free = ground (arith, add_options-total b.options free)

  -- Where the options of the path hold no query, `build` returns a request whose queries are the
  -- builder's in their order if no other option of the builder is a query, and panics if one is.
  pub build_lem :
      (b : RequestBuilder)
      → queries_of (path_options b.path) ≡ []
      → ((queries_of b.options ≡ [])
          × (r : BuiltRequest) × (build path_options is_address b ≡ some r)
          × (queries_of r.options ≡ b.queries))
        ⊎ ((queries_of b.options ≢ []) × (build path_options is_address b ≡ none))
  build_lem b bare = elim (Option-cases (build path_options is_address b)) [
    | inl bad ↦ inr ((λ free. build-total b free bad), bad)
    | inr (r, good) ↦ let (same, free) = build-queries b r bare good in inl (free, r, good, same)
  ]

  pub build-free :
      (b : RequestBuilder)
      → queries_of (path_options b.path) ≡ []
      → queries_of b.options ≡ []
      → (r : BuiltRequest) × (build path_options is_address b ≡ some r)
        × (queries_of r.options ≡ b.queries)
  build-free b bare free = elim (build_lem b bare) [
    | inl (_, r, built, same) ↦ (r, built, same)
    | inr (other, _) ↦ absurd (other free)
  ]
