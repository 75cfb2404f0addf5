-- ===== src/Jsonl/RoundTrip.antt =====
-- What a reader of the audit file gets back from a line.
use sql_proxy_service.Prelude.{
  ℕ, ◌≡◌, refl, ◌∙◌, List, ◌∷◌, ◌++◌, arith, Bytes, codes, bytes_eq, ok, threw,
}
use sql_proxy_service.Prelude.Int.{ℤ}
use sql_proxy_service.Analysis.{StatementType, statement_type_name}
use sql_proxy_service.Policy.{RejectReason, reject_reason_name}
use sql_proxy_service.Audit.{
  AuditOutcome, audit_outcome_name, AuditTableState, AuditTableMetadata, db_failure_name,
  DbFailureCategory, Details, AuditRecord, classify_tables, outcome_of,
}
use sql_proxy_service.Audit.Tables.{Keeps, absent, present, omitted, classify_tables-Keeps}
use sql_proxy_service.Audit.Factories.{make, make_record, given_tables}
use sql_proxy_service.Jsonl.{format_utc_timestamp, Tm, Object, text, number, serialize}
use sql_proxy_service.Jsonl.Schema.{table_entries, detail_entries, serialize_lem}
use sql_proxy_service.Jsonl.Reader.{
  lookup, decode, read_number, read_type, read_reason, read_category, read_outcome, read_success,
  read_details_of, read_details, read_tables, types, reasons, categories, outcomes,
}

type_decoded :
    (t : StatementType) → decode statement_type_name types (text (statement_type_name t)) ≡ ok t
unfolding statement_type_name decode bytes_eq
type_decoded t = ground arith

reason_decoded :
    (r : RejectReason) → decode reject_reason_name reasons (text (reject_reason_name r)) ≡ ok r
unfolding reject_reason_name decode bytes_eq
reason_decoded r = ground arith

category_decoded :
    (c : DbFailureCategory) → decode db_failure_name categories (text (db_failure_name c)) ≡ ok c
unfolding db_failure_name decode bytes_eq
category_decoded c = ground arith

outcome_decoded :
    (o : AuditOutcome) → decode audit_outcome_name outcomes (text (audit_outcome_name o)) ≡ ok o
unfolding audit_outcome_name decode bytes_eq
outcome_decoded o = ground arith

details_read : (d : Details) → read_details_of (detail_entries d) (outcome_of d) ≡ ok d
unfolding read_details_of read_success read_type read_reason read_category lookup bytes_eq
details_read (Details.success d) = rw (type_decoded d.statement_type) refl
details_read (Details.write_success d) = rw (type_decoded d.statement_type) refl
details_read (Details.policy_rejected d) =
    rw (reason_decoded d.reason, type_decoded d.statement_type) refl
details_read (Details.database_failure d) =
    rw (category_decoded d.category, type_decoded d.statement_type) refl
details_read (Details.masking_refused d) = rw (type_decoded d.statement_type) refl
details_read Details.parsing_failure = refl
details_read Details.internal_failure = refl

no_tables :
    (d : Details)
    → (lookup (codes "referenced_tables") (detail_entries d) ≡ threw)
      × (lookup (codes "referenced_tables_omitted") (detail_entries d) ≡ threw)
unfolding lookup bytes_eq
no_tables (Details.success d) = (refl, refl)
no_tables (Details.write_success d) = (refl, refl)
no_tables (Details.policy_rejected d) = (refl, refl)
no_tables (Details.database_failure d) = (refl, refl)
no_tables (Details.masking_refused d) = (refl, refl)
no_tables Details.parsing_failure = (refl, refl)
no_tables Details.internal_failure = (refl, refl)

module _ (stamp : Bytes) (id : ℕ) where
  abbrev line : AuditOutcome → Object → Object
  line o rest =
      (codes "timestamp", text stamp)
      ∷ (codes "request_id", number id)
      ∷ (codes "outcome", text (audit_outcome_name o))
      ∷ rest

  -- The details do not depend on the entry for the tables.
  details_apart :
      (tables : List Bytes) (o : AuditOutcome) (state : AuditTableState) (rest : Object)
      → read_details (line o (table_entries state tables ++ rest)) ≡ read_details_of rest o
  unfolding read_details read_outcome read_details_of read_success read_type read_reason
      read_category lookup bytes_eq
  details_apart tables o AuditTableState.present rest = rw (outcome_decoded o) (ground arith)
  details_apart tables o AuditTableState.omitted rest = rw (outcome_decoded o) (ground arith)
  details_apart tables o AuditTableState.absent rest = rw (outcome_decoded o) (ground arith)

  tables_read :
      (names : List Bytes) (m : AuditTableMetadata) (o : AuditOutcome) (d : Details)
      → Keeps names m
      → read_tables (line o (table_entries m.state m.tables ++ detail_entries d)) ≡ ok m
  unfolding read_tables lookup bytes_eq
  tables_read names m o d (absent _ e f) = rw (e, f) (ground (arith, no_tables d))
  tables_read names m o d (present _ _ _ e f) = rw (e, f) refl
  tables_read names m o d (omitted _ _ e f) = rw (e, f) (ground (arith, no_tables d))

-- The line of a record that a factory made loses nothing of it but the form of the time: a reader
-- that knows the keys and the names gets back the id, the outcome with all its details, and the
-- table list with the difference between no tables and tables that were left out.
pub read-serialize :
    (gmtime_r : ℤ → Tm) (t : ℤ) (id : ℕ) (names : List Bytes) (d : Details) (r : AuditRecord)
    → make t id names d ≡ ok r
    → (j : Object) × (serialize gmtime_r r ≡ ok j)
      × (read_number (codes "request_id") j ≡ ok id)
      × (read_details j ≡ ok d)
      × (read_tables j ≡ ok (classify_tables (given_tables names d)))
unfolding lookup bytes_eq
read-serialize gmtime_r t id names d r h =
    let given = given_tables names d in
    let m = classify_tables given in
    let stamp = format_utc_timestamp gmtime_r t in
    rw (make_record t id names d r h) (
      _,
      serialize_lem gmtime_r _,
      refl,
      details_apart stamp id m.tables (outcome_of d) m.state (detail_entries d) ∙ details_read d,
      tables_read stamp id given m (outcome_of d) d (classify_tables-Keeps given),
    )
