-- ===== src/Examples/Searches.antt =====
-- A query with a range and a free text.
use skorekeeper.Common.{[], ◌∷◌, ◌≡◌, refl}
use skorekeeper.Search.{Operator, Query, parse_query, build_query}
use skorekeeper.Search.Queries.{parse_query-build_query}

abbrev recent : Query
recent = record {
  tokens = "finals" ∷ [];
  filters =
      record { key = "date"; value = "2025"; operator = Operator.within; max_value = "2026" }
      ∷ record { key = "team"; value = "Mets"; operator = Operator.is; max_value = "" }
      ∷ [];
}

parse_query-build_query_example : parse_query (λ s. s) (build_query recent) ≡ recent
parse_query-build_query_example =
    parse_query-build_query (λ s. s) recent
      (((refl, refl, refl, refl, refl), ((refl, refl, refl, refl, refl), tt)), ((refl, refl), tt))
      (refl, (refl, tt))
