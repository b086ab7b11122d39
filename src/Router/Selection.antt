-- ===== src/Router/Selection.antt =====
-- src/router/mod.rs: which route handles a request.
use coap_rs.Common.{
  ℕ, Bool, ◌&&◌, if◌then◌else◌, List, [], ◌∷◌, ◌++◌, Bytes, inl, inr, ◌≡◌, refl, ap, ◌∙◌,
}
use coap_rs.Discovery.{LinkWriter, same_text, well_known_core}
use coap_rs.Router.{
  Request, Router, MethodRouter, handle, handle_from, serve, handle_unmatched, path_text, is_get,
  handle_discovery, handle_fallback,
}
use coap_rs.Router.Routes.{Route, Regex, RouteError, match_path}

module _ (S : Type 0) (regex : Regex) (writer : LinkWriter) (utf8 : Bytes → Bool)
    (link_format : ℕ × Bytes) where
  -- No route of the list matches the path.
  pub data NoneMatch (path : Bytes) : List (Route × MethodRouter S) → Type 0 where
    none_left : NoneMatch path []
    passed :
        {route : Route} {m : MethodRouter S} {rest : List (Route × MethodRouter S)} {e : RouteError}
        → match_path regex route path ≡ inr e
        → NoneMatch path rest
        → NoneMatch path ((route, m) ∷ rest)

  handle_from-skip :
      (before after : List (Route × MethodRouter S)) (router : Router S) (req : Request)
      → NoneMatch (path_text req) before
      → handle_from S regex writer utf8 link_format (before ++ after) router req
        ≡ handle_from S regex writer utf8 link_format after router req
  unfolding handle_from
  handle_from-skip [] after router req none_left = refl
  handle_from-skip ((route, m) ∷ before) after router req (passed e h) =
      rw (handle_from, e) (handle_from-skip before after router req h)

  -- Where the routes before a route do not match the path of the request and the route matches it
  -- with some parameters, the route's method router serves the request with these parameters; the
  -- routes after it are not asked, even where the method router has no handler for the method.
  pub handle-first_match :
      (before after : List (Route × MethodRouter S)) (route : Route) (m : MethodRouter S)
      (router : Router S) (req : Request) (params : List (Bytes × Bytes))
      → router.routes ≡ before ++ (route, m) ∷ after
      → NoneMatch (path_text req) before
      → match_path regex route (path_text req) ≡ inl params
      → handle S regex writer utf8 link_format router req
        ≡ serve S regex writer utf8 link_format router m (record req { path = params })
  unfolding handle handle_from
  handle-first_match before after route m router req params listed unmatched matched =
      ap (λ rs. handle_from S regex writer utf8 link_format rs router req) listed
      ∙ (handle_from-skip before ((route, m) ∷ after) router req unmatched
          ∙ rw (handle_from, matched) refl)

  handle_from-none :
      (routes : List (Route × MethodRouter S)) (router : Router S) (req : Request)
      → NoneMatch (path_text req) routes
      → handle_from S regex writer utf8 link_format routes router req
        ≡ handle_unmatched S regex writer utf8 link_format router req
  unfolding handle_from
  handle_from-none [] router req none_left = refl
  handle_from-none ((route, m) ∷ rest) router req (passed e h) =
      rw (handle_from, e) (handle_from-none rest router req h)

  -- Where no route of the router matches the path, the discovery answers a GET of
  -- ".well-known/core" if it is enabled, and else the fallback answers.
  pub handle-NoneMatch :
      (router : Router S) (req : Request)
      → NoneMatch (path_text req) router.routes
      → handle S regex writer utf8 link_format router req ≡ (
          if router.enable_discovery
            && (is_get S regex writer utf8 link_format req.method
                && same_text (path_text req) well_known_core)
          then handle_discovery S regex writer utf8 link_format router req
          else handle_fallback S router req)
  unfolding handle handle_unmatched
  handle-NoneMatch router req unmatched = handle_from-none router.routes router req unmatched
