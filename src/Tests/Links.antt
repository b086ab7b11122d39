-- ===== src/Tests/Links.antt =====
-- src/discovery.rs: the theorems on the link of a sensor.
use coap_rs.Common.{◌≡◌, ◌↔◌, true, none, some, [], ◌∷◌, ascii, arith}
use coap_rs.Discovery.{Link, matches_query}
use coap_rs.Discovery.Queries.{Query, Selects, matches_query_lem}

abbrev sensor : Link
sensor = record {
  href = ascii "/sensors/temp";
  attributes = (ascii "rt", some (ascii "temperature-c humidity")) ∷ (ascii "obs", none) ∷ [];
}

abbrev humid : Query
humid = Query.by_value (ascii "rt") (ascii "humid*")

matches_query_lem_example : (matches_query sensor (ascii "rt=humid*") ≡ true) ↔ Selects sensor humid
matches_query_lem_example =
    matches_query_lem sensor humid
      (((λ e. omega (arith, e)), ((λ e. omega (arith, e)), tt)), λ e. ground arith)
