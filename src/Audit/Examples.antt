-- ===== src/Audit/Examples.antt =====
-- Concrete records for the audit.
use sql_proxy_service.Prelude.{◌≡◌, List, [], ◌∷◌, Bytes, codes, ok, threw}
use sql_proxy_service.Prelude.Int.{pos}
use sql_proxy_service.Analysis.{StatementType}
use sql_proxy_service.Audit.{Details, classify_tables}
use sql_proxy_service.Audit.Factories.{IsAllowed, make, given_tables, make_iff}

abbrev tables : List Bytes
tables = codes "customers" ∷ codes "orders" ∷ []

abbrev insert : Details
insert = Details.write_success (record { statement_type = StatementType.insert; affected_rows = 1 })

make_iff_example :
    (IsAllowed insert
      → make (pos 1700000000000) 7 tables insert
        ≡ ok (record {
          timestamp_ms = pos 1700000000000;
          request_id = 7;
          referenced_tables = classify_tables (given_tables tables insert);
          details = insert;
        }))
    × (¬ IsAllowed insert → make (pos 1700000000000) 7 tables insert ≡ threw)
make_iff_example = make_iff (pos 1700000000000) 7 tables insert
