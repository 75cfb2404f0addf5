-- ===== src/Audit/Factories.antt =====
-- What the factories accept, and what every record they make keeps.
use sql_proxy_service.Prelude.{
  ℕ, Bool, true, false, ◌≡◌, refl, ◌≢◌, ◌⊎◌, List, [], arith, Bytes, Fault, ok, threw,
}
use sql_proxy_service.Prelude.Int.{ℤ}
use sql_proxy_service.Analysis.{StatementType}
use sql_proxy_service.Policy.{RejectReason}
use sql_proxy_service.Audit.{Details, AuditRecord, audit_record, classify_tables}
use sql_proxy_service.Audit.Record
use sql_proxy_service.Audit.Record.{is_real_rejection}

-- The combinations that the header allows.
abbrev pub IsAllowed : Details → Type 0
IsAllowed (Details.success d) = d.statement_type ≡ StatementType.select
IsAllowed (Details.write_success d) = d.statement_type ≡ StatementType.insert
IsAllowed Details.parsing_failure = Unit
IsAllowed (Details.policy_rejected d) =
    (d.reason ≢ RejectReason.none)
    × (d.reason ≢ RejectReason.not_evaluated)
    × (d.reason ≢ RejectReason.unparseable_sql)
IsAllowed (Details.database_failure d) =
    (d.statement_type ≡ StatementType.select) ⊎ (d.statement_type ≡ StatementType.insert)
IsAllowed (Details.masking_refused d) = d.statement_type ≡ StatementType.select
IsAllowed Details.internal_failure = Unit

-- The factory for some details.
abbrev pub make : ℤ → ℕ → List Bytes → Details → Fault AuditRecord
make t id tables (Details.success d) = Record.success t id d tables
make t id tables (Details.write_success d) = Record.write_success t id d tables
make t id tables Details.parsing_failure = ok (Record.parsing_failure t id)
make t id tables (Details.policy_rejected d) = Record.policy_rejected t id d tables
make t id tables (Details.database_failure d) = Record.database_failure t id d tables
make t id tables (Details.masking_refused d) = Record.masking_refused t id d tables
make t id tables Details.internal_failure = ok (Record.internal_failure t id)

-- The tables that the record of some details is given.
abbrev pub given_tables : List Bytes → Details → List Bytes
given_tables tables Details.parsing_failure = []
given_tables tables Details.internal_failure = []
given_tables tables _ = tables

-- A factory returns a record exactly for an allowed combination, and throws otherwise; the record
-- holds the time, the id and the details it was given, and the checked table list, which a parsing
-- and an internal failure do not have.
pub make_iff :
    (t : ℤ) (id : ℕ) (tables : List Bytes) (d : Details)
    → (IsAllowed d
        → make t id tables d
          ≡ ok (record {
            timestamp_ms = t;
            request_id = id;
            referenced_tables = classify_tables (given_tables tables d);
            details = d;
          }))
      × (¬ IsAllowed d → make t id tables d ≡ threw)
unfolding Record.success Record.write_success Record.parsing_failure Record.policy_rejected
    Record.database_failure Record.masking_refused Record.internal_failure audit_record
make_iff t id tables (Details.success d) = (λ h. ground arith, λ h. ground arith)
make_iff t id tables (Details.write_success d) = (λ h. ground arith, λ h. ground arith)
make_iff t id tables Details.parsing_failure = (λ h. refl, λ h. absurd (h tt))
make_iff t id tables (Details.policy_rejected d) = (λ h. ground arith, λ h. ground arith)
make_iff t id tables (Details.database_failure d) = (λ h. ground arith, λ h. ground arith)
make_iff t id tables (Details.masking_refused d) = (λ h. ground arith, λ h. ground arith)
make_iff t id tables Details.internal_failure = (λ h. refl, λ h. absurd (h tt))

require_ok : (b : Bool) (x r : AuditRecord) → Record.require b x ≡ ok r → r ≡ x
require_ok true x r h = cc h
require_ok false x r h = cc h

-- A record that a factory made holds the checked list of its tables.
pub make_record :
    (t : ℤ) (id : ℕ) (tables : List Bytes) (d : Details) (r : AuditRecord)
    → make t id tables d ≡ ok r
    → r ≡ record {
      timestamp_ms = t;
      request_id = id;
      referenced_tables = classify_tables (given_tables tables d);
      details = d;
    }
unfolding Record.success Record.write_success Record.parsing_failure Record.policy_rejected
    Record.database_failure Record.masking_refused Record.internal_failure audit_record
make_record t id tables (Details.success d) r h = require_ok _ _ r h
make_record t id tables (Details.write_success d) r h = require_ok _ _ r h
make_record t id tables Details.parsing_failure r h = cc h
make_record t id tables (Details.policy_rejected d) r h = require_ok _ _ r h
make_record t id tables (Details.database_failure d) r h = require_ok _ _ r h
make_record t id tables (Details.masking_refused d) r h = require_ok _ _ r h
make_record t id tables Details.internal_failure r h = cc h
