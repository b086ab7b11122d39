-- ===== src/Router/Routes.antt =====
-- src/router/route.rs: route patterns, and the match of a path against them.
pub mod Patterns
use coap_rs.Common.{
  ℕ, Bool, true, false, Option, none, some, List, [], ◌∷◌, ◌++◌, ◌==◌, if◌then◌else◌, Bytes, ascii,
  ◌⊎◌, inl, inr, ◌>>=◌,
}

pub data RouteError : Type 0 where
  different_method no_uri_path different_path failed_to_decode_path not_found : RouteError

-- `Display`
unfoldable pub render_error : RouteError → Bytes
render_error RouteError.different_method = ascii "Different method"
render_error RouteError.no_uri_path = ascii "No URI path"
render_error RouteError.different_path = ascii "Different path"
render_error RouteError.failed_to_decode_path = ascii "Failed to decode path"
render_error RouteError.not_found = ascii "Not found"

-- What the program takes from `regex` and `percent_encoding`: the escape of a literal, the captures
-- of a pattern in a text (the groups after the whole match), and the decoder.
pub record Regex : Type 0 where
  pub escape : Bytes → Bytes
  pub captures : Bytes → Bytes → Option (List (Option Bytes))
  pub percent_decode : Bytes → Option Bytes

pub record Route : Type 0 where
  pub path : Bytes
  pub regex : Bytes
  pub param_names : List Bytes

unfoldable pub has_params : Route → Bool
has_params route = elim route.param_names [ [] ↦ false | _ ∷ _ ↦ true ]

unfoldable pub trim_front : Bytes → Bytes
trim_front [] = []
trim_front (b ∷ bs) = if b == b'/' then trim_front bs else b ∷ bs

unfoldable pub trim_back : Bytes → Bytes
trim_back [] = []
trim_back (b ∷ bs) =
    let rest = trim_back bs in
    elim rest [ [] ↦ if b == b'/' then [] else b ∷ [] | c ∷ cs ↦ b ∷ c ∷ cs ]

-- `trim_matches('/')`
unfoldable pub trim_slashes : Bytes → Bytes
unfolding trim_front trim_back
trim_slashes path = trim_back (trim_front path)

abbrev prepend : ℕ → List Bytes → List Bytes
prepend b [] = (b ∷ []) ∷ []
prepend b (s ∷ rest) = (b ∷ s) ∷ rest

-- `split('/')`
unfoldable pub split_slash : Bytes → List Bytes
split_slash [] = [] ∷ []
split_slash (b ∷ bs) = if b == b'/' then [] ∷ split_slash bs else prepend b (split_slash bs)

-- The pieces that `build_regex` pushes: an escaped literal, a group `([^/]+)`, a slash.
pub data Piece : Type 0 where
  literal : Bytes → Piece
  group slash : Piece

-- `&segment[pos..byte_idx]` is pushed where it is not empty.
abbrev pub push_literal : Bytes → List Piece → List Piece
push_literal [] pieces = pieces
push_literal (b ∷ bs) pieces = literal (b ∷ bs) ∷ pieces

-- The scan of a segment: outside a parameter with the literal since `pos`, or inside one with its
-- name so far. `none` is a panic: a nested, an unmatched or an unclosed brace.
unfoldable mutual
  pub scan_literal : Bytes → Bytes → Option (List Piece × List Bytes)
  scan_literal lit [] = some (push_literal lit [], [])
  scan_literal lit (b ∷ bs) =
      let opened = (do (pieces, names) ← scan_param [] bs; some (push_literal lit pieces, names)) in
      let longer = scan_literal (lit ++ b ∷ []) bs in
      if b == b'{' then opened else if b == b'}' then none else longer

  pub scan_param : Bytes → Bytes → Option (List Piece × List Bytes)
  scan_param name [] = none
  scan_param name (b ∷ bs) =
      let closed = (do (pieces, names) ← scan_literal [] bs; some (group ∷ pieces, name ∷ names)) in
      let longer = scan_param (name ++ b ∷ []) bs in
      if b == b'{' then none else if b == b'}' then closed else longer

unfoldable pub scan_segments : List Bytes → Option (List Piece × List Bytes)
unfolding scan_literal
scan_segments [] = some ([], [])
scan_segments (s ∷ []) = scan_literal [] s
scan_segments (s ∷ t ∷ rest) = do
  (pieces, names) ← scan_literal [] s
  (later, more) ← scan_segments (t ∷ rest)
  some (pieces ++ slash ∷ later, names ++ more)

module _ (regex : Regex) where
  open regex use {escape, captures, percent_decode}

  unfoldable pub render : List Piece → Bytes
  render [] = []
  render (literal s ∷ pieces) = escape s ++ render pieces
  render (group ∷ pieces) = ascii "([^/]+)" ++ render pieces
  render (slash ∷ pieces) = b'/' ∷ render pieces

  unfoldable pub build_regex : Bytes → Option (Bytes × List Bytes)
  unfolding scan_segments render trim_slashes split_slash
  build_regex route = do
    (pieces, names) ← scan_segments (split_slash (trim_slashes route))
    some (b'^' ∷ render pieces ++ b'$' ∷ [], names)

  pub new : Bytes → Option Route
  unfolding build_regex
  new route = do
    (pattern, names) ← build_regex route
    some (record { path = route; regex = pattern; param_names = names })

  abbrev pub Params : Type 0
  Params = List (Bytes × Bytes)

  abbrev cons_param : Bytes × Bytes → Params ⊎ RouteError → Params ⊎ RouteError
  cons_param p (inl params) = inl (p ∷ params)
  cons_param p (inr e) = inr e

  -- The loop over the parameter names; a group that took no part in the match is passed over.
  unfoldable pub bind_params : List Bytes → List (Option Bytes) → Params ⊎ RouteError
  bind_params [] groups = inl []
  bind_params (name ∷ names) [] = inl []
  bind_params (name ∷ names) (none ∷ groups) = bind_params names groups
  bind_params (name ∷ names) (some value ∷ groups) =
      let rest = bind_params names groups in
      elim (percent_decode value) [
        | none ↦ inr RouteError.failed_to_decode_path
        | some decoded ↦ cons_param (name, decoded) rest
      ]

  unfoldable pub match_path : Route → Bytes → Params ⊎ RouteError
  unfolding bind_params trim_slashes
  match_path route path = elim (captures route.regex (trim_slashes path)) [
    | none ↦ inr RouteError.different_path
    | some groups ↦ bind_params route.param_names groups
  ]
