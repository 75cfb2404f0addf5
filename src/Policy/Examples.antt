-- ===== src/Policy/Examples.antt =====
-- Concrete analyses for the policy.
use sql_proxy_service.Prelude.{◌≡◌, ◌↔◌, ◌⊎◌, true, [], ◌∷◌, ◌++◌, arith, codes}
use sql_proxy_service.Prelude.Int.{pos}
use sql_proxy_service.Analysis.{
  StatementType, StatementClass, InsertSource, InsertValueKind, AnalysisStatus, SqlAnalysis,
  default_analysis,
}
use sql_proxy_service.Text.{dot}
use sql_proxy_service.Policy.{is_system_table, evaluate}
use sql_proxy_service.Policy.Permission.{IsPermitted, evaluate_iff}
use sql_proxy_service.Policy.System.{IsCatalogSchema, HasPgPrefix, is_system_table-qualified}
use sql_proxy_service.Policy.Rules.{first_match, policy_rules, evaluate-first_match}

-- `SELECT email FROM customers`
abbrev a_read : SqlAnalysis
a_read = record default_analysis {
  status = AnalysisStatus.ok;
  statement_type = StatementType.select;
  statement_class = StatementClass.select;
  statement_count = pos 1;
  tables = codes "customers" ∷ [];
  projection_columns = codes "email" ∷ [];
}

-- `INSERT INTO orders (customer_id, amount) VALUES (1, 2.50)`
abbrev an_insert : SqlAnalysis
an_insert = record default_analysis {
  status = AnalysisStatus.ok;
  statement_type = StatementType.insert;
  statement_class = StatementClass.dml;
  statement_count = pos 1;
  tables = codes "orders" ∷ [];
  affected_columns = codes "customer_id" ∷ codes "amount" ∷ [];
  insert_source = InsertSource.values;
  insert_value_kinds =
      InsertValueKind.positive_integer_literal ∷ InsertValueKind.positive_decimal_literal ∷ [];
}

evaluate_iff_example : ((evaluate an_insert).allowed ≡ true) ↔ IsPermitted an_insert
evaluate_iff_example = evaluate_iff an_insert

evaluate-first_match_example : evaluate a_read ≡ first_match policy_rules a_read
evaluate-first_match_example = evaluate-first_match a_read

is_system_table-qualified_example :
    (is_system_table (codes "Pg_Catalog" ++ dot ∷ codes "users") ≡ true)
    ↔ (IsCatalogSchema (codes "Pg_Catalog") ⊎ HasPgPrefix (codes "users"))
is_system_table-qualified_example =
    is_system_table-qualified (codes "Pg_Catalog") (codes "users") (ground arith)
