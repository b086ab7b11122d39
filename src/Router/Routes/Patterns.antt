-- ===== src/Router/Routes/Patterns.antt =====
-- src/router/route.rs: how the pattern of a route reads its segments.
use mathlib.Core.Path.{subst}
use coap_rs.Common.{
  ℕ, ◌≡◌, refl, Bool, true, false, Option, none, some, List, [], ◌∷◌, ◌++◌, ◌==◌, Bytes, arith,
  Option-cases, inl, inr, ◌>>=◌, if◌then◌else◌, All, All-append, append_assoc, append-nil, map, ap,
  ap₂, sym, ◌∙◌, Bool-cases,
}
use coap_rs.Router.Routes.{
  Piece, literal, group, slash, push_literal, scan_literal, scan_param, scan_segments, Regex,
  render, build_regex, split_slash, trim_slashes,
}

-- A segment is made of texts and of parameters in braces.
pub data Part : Type 0 where
  plain param : Bytes → Part

abbrev pub print : List Part → Bytes
print [] = []
print (plain s ∷ parts) = s ++ print parts
print (param name ∷ parts) = b'{' ∷ name ++ b'}' ∷ print parts

-- The pattern of a segment: the texts escaped, and a group for each parameter.
abbrev pub pieces_of : List Part → List Piece
pieces_of [] = []
pieces_of (plain s ∷ parts) = literal s ∷ pieces_of parts
pieces_of (param name ∷ parts) = group ∷ pieces_of parts

abbrev pub params : List Part → List Bytes
params [] = []
params (plain s ∷ parts) = params parts
params (param name ∷ parts) = name ∷ params parts

-- No byte is a brace.
abbrev pub HasNoBrace : Bytes → Type 0
HasNoBrace = All (λ b. ((b == b'{') ≡ false) × ((b == b'}') ≡ false))

abbrev pub IsClean : Part → Type 0
IsClean (plain s) = HasNoBrace s
IsClean (param name) = HasNoBrace name

-- A scan that returns has read the text as the parts whose pieces and names it returns.
abbrev Reads : Bytes → Option (List Piece × List Bytes) → Type 0
Reads text none = Unit {0}
Reads text (some (pieces, names)) =
    (parts : List Part) × (print parts ≡ text)
    × (pieces_of parts ≡ pieces)
    × (params parts ≡ names)
    × All IsClean parts

push-Reads :
    (lit text : Bytes) (r : Option (List Piece × List Bytes))
    → HasNoBrace lit
    → Reads text r
    → Reads (lit ++ text) (do (pieces, names) ← r; some (push_literal lit pieces, names))
push-Reads lit text none clean h = tt
push-Reads [] text (some (pieces, names)) clean h = h
push-Reads (b ∷ bs) text (some (pieces, names)) clean (parts, printed, shaped, named, clear) = (
  plain (b ∷ bs) ∷ parts,
  ap (λ t. b ∷ bs ++ t) printed,
  ap (λ ps. literal (b ∷ bs) ∷ ps) shaped,
  named,
  (clean, clear),
)

close-Reads :
    (name text : Bytes) (r : Option (List Piece × List Bytes))
    → HasNoBrace name
    → Reads text r
    → Reads
        (b'{' ∷ name ++ b'}' ∷ text)
        (do (pieces, names) ← r; some (group ∷ pieces, name ∷ names))
close-Reads name text none clean h = tt
close-Reads name text (some (pieces, names)) clean (parts, printed, shaped, named, clear) = (
  param name ∷ parts,
  ap (λ t. b'{' ∷ name ++ b'}' ∷ t) printed,
  ap (λ ps. group ∷ ps) shaped,
  ap (λ ns. name ∷ ns) named,
  (clean, clear),
)

branch-Reads :
    (text : Bytes) (b c : Bool) (x y z : Option (List Piece × List Bytes))
    → (b ≡ true → Reads text x)
    → (c ≡ true → Reads text y)
    → (b ≡ false → c ≡ false → Reads text z)
    → Reads text (if b then x else if c then y else z)
branch-Reads text true c x y z h k l = h refl
branch-Reads text false true x y z h k l = k refl
branch-Reads text false false x y z h k l = l refl refl

longer-Reads :
    (front : Bytes) (b : ℕ) (bs : Bytes) (r : Option (List Piece × List Bytes))
    → Reads ((front ++ b ∷ []) ++ bs) r
    → Reads (front ++ b ∷ bs) r
longer-Reads front b bs r h = subst (λ t. Reads t r) (append_assoc front (b ∷ []) bs) h

byte_same : (b c : ℕ) → (b == c) ≡ true → b ≡ c
byte_same b c e = ground arith

mutual
  unfolding scan_literal scan_param

  scan_literal-Reads : (lit bs : Bytes) → HasNoBrace lit → Reads (lit ++ bs) (scan_literal lit bs)
  scan_literal-Reads lit [] clean =
      push-Reads lit [] (some ([], [])) clean ([], refl, refl, refl, tt)
  scan_literal-Reads lit (b ∷ bs) clean =
      branch-Reads (lit ++ b ∷ bs) (b == b'{') (b == b'}') _ none _
        (λ opens.
          subst
            (λ t.
              Reads t
                (do (pieces, names) ← scan_param [] bs; some (push_literal lit pieces, names)))
            (ap (λ c. lit ++ c ∷ bs) (sym (byte_same b b'{' opens)))
            (push-Reads lit (b'{' ∷ bs) (scan_param [] bs) clean (scan_param-Reads [] bs tt)))
        (λ _. tt)
        (λ opens_not closes_not. longer-Reads lit b bs (scan_literal (lit ++ b ∷ []) bs) (
          scan_literal-Reads (lit ++ b ∷ []) bs
            (All-append _ lit (b ∷ []) clean ((opens_not, closes_not), tt))))

  scan_param-Reads :
      (name bs : Bytes) → HasNoBrace name → Reads (b'{' ∷ name ++ bs) (scan_param name bs)
  scan_param-Reads name [] clean = tt
  scan_param-Reads name (b ∷ bs) clean =
      branch-Reads (b'{' ∷ name ++ b ∷ bs) (b == b'{') (b == b'}') none _ _ (λ _. tt)
        (λ closes.
          subst
            (λ t.
              Reads t
                (do (pieces, names) ← scan_literal [] bs; some (group ∷ pieces, name ∷ names)))
            (ap (λ c. b'{' ∷ name ++ c ∷ bs) (sym (byte_same b b'}' closes)))
            (close-Reads name bs (scan_literal [] bs) clean (scan_literal-Reads [] bs tt)))
        (λ opens_not closes_not. longer-Reads (b'{' ∷ name) b bs (scan_param (name ++ b ∷ []) bs) (
          scan_param-Reads (name ++ b ∷ []) bs
            (All-append _ name (b ∷ []) clean ((opens_not, closes_not), tt))))

-- A path is its segments with slashes between them.
abbrev pub join_segments : List Bytes → Bytes
join_segments [] = []
join_segments (s ∷ []) = s
join_segments (s ∷ t ∷ rest) = s ++ b'/' ∷ join_segments (t ∷ rest)

abbrev pub join_pieces : List (List Part) → List Piece
join_pieces [] = []
join_pieces (p ∷ []) = pieces_of p
join_pieces (p ∷ q ∷ rest) = pieces_of p ++ slash ∷ join_pieces (q ∷ rest)

abbrev pub all_params : List (List Part) → List Bytes
all_params [] = []
all_params (p ∷ rest) = params p ++ all_params rest

abbrev ReadsAll : List Bytes → Option (List Piece × List Bytes) → Type 0
ReadsAll segments none = Unit {0}
ReadsAll segments (some (pieces, names)) =
    (parts : List (List Part)) × (map print parts ≡ segments)
    × (join_pieces parts ≡ pieces)
    × (all_params parts ≡ names)
    × All (All IsClean) parts

one-ReadsAll : (s : Bytes) (r : Option (List Piece × List Bytes)) → Reads s r → ReadsAll (s ∷ []) r
one-ReadsAll s none h = tt
one-ReadsAll s (some (pieces, names)) (parts, printed, shaped, named, clear) =
    (parts ∷ [], ap (λ t. t ∷ []) printed, shaped, append-nil (params parts) ∙ named, (clear, tt))

join-ReadsAll :
    (s t : Bytes) (rest : List Bytes) (x y : Option (List Piece × List Bytes))
    → Reads s x
    → ReadsAll (t ∷ rest) y
    → ReadsAll
        (s ∷ t ∷ rest)
        (do (pieces, names) ← x; (later, more) ← y; some (pieces ++ slash ∷ later, names ++ more))
join-ReadsAll s t rest none y h k = tt
join-ReadsAll s t rest (some (pieces, names)) none h k = tt
join-ReadsAll s t rest (some (pieces, names)) (some (later, more)) h ([], texts, _, _, _) =
    absurd (ground arith)
join-ReadsAll s t rest (some (pieces, names)) (some (later, more))
      (parts, printed, shaped, named, clear) (q ∷ qs, texts, joined, all_named, all_clear) =
    (
      parts ∷ q ∷ qs,
      ap₂ ◌∷◌ printed texts,
      ap₂ (λ ps qs. ps ++ slash ∷ qs) shaped joined,
      ap₂ ◌++◌ named all_named,
      (clear, all_clear),
    )

scan_segments-ReadsAll : (segments : List Bytes) → ReadsAll segments (scan_segments segments)
unfolding scan_segments
scan_segments-ReadsAll [] = ([], refl, refl, refl, tt)
scan_segments-ReadsAll (s ∷ []) = one-ReadsAll s (scan_literal [] s) (scan_literal-Reads [] s tt)
scan_segments-ReadsAll (s ∷ t ∷ rest) =
    join-ReadsAll s t rest (scan_literal [] s) (scan_segments (t ∷ rest))
      (scan_literal-Reads [] s tt) (scan_segments-ReadsAll (t ∷ rest))

split_slash-filled :
    (path : Bytes) → (s : Bytes) × (rest : List Bytes) × (split_slash path ≡ s ∷ rest)
unfolding split_slash
split_slash-filled [] = ([], [], refl)
split_slash-filled (b ∷ bs) =
    let (s, rest, e) = split_slash-filled bs in
    elim (Bool-cases (b == b'/')) [
      | inl same ↦ ([], split_slash bs, ground arith)
      | inr other ↦ (b ∷ s, rest, ground (arith, e))
    ]

join_segments-first :
    (b : ℕ) (s : Bytes) (rest : List Bytes)
    → join_segments ((b ∷ s) ∷ rest) ≡ b ∷ join_segments (s ∷ rest)
join_segments-first b s [] = refl
join_segments-first b s (t ∷ rest) = refl

join_segments-split_slash : (path : Bytes) → join_segments (split_slash path) ≡ path
unfolding split_slash
join_segments-split_slash [] = refl
join_segments-split_slash (b ∷ bs) =
    let (s, rest, e) = split_slash-filled bs in
    let ih = join_segments-split_slash bs in
    elim (Bool-cases (b == b'/')) [
      | inl same ↦ ground (arith, e, ih)
      | inr other ↦ let first = join_segments-first b s rest in ground (arith, e, ih, first)
    ]

-- Where a pattern is built, the route without its outer slashes is made of segments of texts and
-- parameters in braces, none of which has a brace inside. Between its anchors the pattern has the
-- segments in order with slashes between them, each text escaped and a group for each parameter, and
-- the names are the parameters in that order, so that the n-th name is the n-th group's.
pub build_regex-groups :
    (regex : Regex) (route pattern : Bytes) (names : List Bytes)
    → build_regex regex route ≡ some (pattern, names)
    → (parts : List (List Part)) × (join_segments (map print parts) ≡ trim_slashes route)
      × (pattern ≡ b'^' ∷ render regex (join_pieces parts) ++ b'$' ∷ [])
      × (all_params parts ≡ names)
      × All (All IsClean) parts
unfolding build_regex
build_regex-groups regex route pattern names e =
    let segments = split_slash (trim_slashes route) in
    elim (Option-cases (scan_segments segments)) [
      | inl bad ↦ absurd (ground arith)
      | inr ((pieces, found), good) ↦
          let (parts, printed, shaped, named, clean) =
            subst (λ r. ReadsAll segments r) good (scan_segments-ReadsAll segments) in
          let built : pattern ≡ b'^' ∷ render regex pieces ++ b'$' ∷ [] = ground (arith, good) in
          let returned : found ≡ names = ground (arith, good) in
          (
            parts,
            ap join_segments printed ∙ join_segments-split_slash (trim_slashes route),
            built ∙ ap (λ ps. b'^' ∷ render regex ps ++ b'$' ∷ []) (sym shaped),
            named ∙ returned,
            clean,
          )
    ]
