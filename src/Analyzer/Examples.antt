-- ===== src/Analyzer/Examples.antt =====
-- Concrete statements for the analyzer.
use sql_proxy_service.Prelude.{
  ℕ, suc, ◌≡◌, refl, true, List, [], ◌∷◌, map, Bytes, codes, bytes_eq, ok, Action, occurs, Distinct,
}
use sql_proxy_service.Analysis.{StatementType, TableRef, ParseResult, default_statement}
use sql_proxy_service.Analyzer.{qualified_name, normalized_tables}
use sql_proxy_service.Analyzer.Tables.{normalized_tables_complete}

-- `customers, public.orders, customers`
abbrev mentioned : List TableRef
mentioned =
    record { schema = []; name = codes "customers" }
    ∷ record { schema = codes "public"; name = codes "orders" }
    ∷ record { schema = []; name = codes "customers" }
    ∷ []

abbrev two_statements : ParseResult
two_statements = record {
  success = true;
  statements = default_statement ∷ default_statement ∷ [];
  error = [];
}

abbrev one_select : ParseResult
one_select = record {
  success = true;
  statements = record default_statement { type = StatementType.select; tables = mentioned } ∷ [];
  error = [];
}

-- A parser that counts its calls.
abbrev counting : Bytes → Action ℕ ParseResult
counting sql n = (ok one_select, suc n)

abbrev text : Bytes
text = codes "SELECT id FROM customers"

normalized_tables_test :
    normalized_tables mentioned ≡ codes "customers" ∷ codes "public.orders" ∷ []
unfolding normalized_tables bytes_eq
normalized_tables_test = refl

normalized_tables_complete_example :
    Distinct (normalized_tables mentioned)
    × ((name : Bytes)
        → occurs name (normalized_tables mentioned) ≡ occurs name (map qualified_name mentioned))
normalized_tables_complete_example = normalized_tables_complete mentioned
