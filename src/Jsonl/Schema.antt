-- ===== src/Jsonl/Schema.antt =====
-- The closed schema of a line.
use sql_proxy_service.Prelude.{ℕ, ◌≡◌, refl, true, List, [], ◌∷◌, ◌++◌, Bytes, codes, bytes_eq, ok}
use sql_proxy_service.Prelude.Int.{ℤ}
use sql_proxy_service.Analysis.{StatementType, statement_type_name}
use sql_proxy_service.Policy.{reject_reason_name}
use sql_proxy_service.Audit.{
  audit_outcome_name, AuditTableState, db_failure_name, Details, AuditRecord, outcome, outcome_of,
  is_write_success, success_details, write_success_details, policy_rejected_details,
  database_failure_details, masking_refused_details,
}
use sql_proxy_service.Jsonl.{
  Tm, format_utc_timestamp, Json, Object, text, number, flag, texts, put, put_tables, put_success,
  put_details, serialize,
}

-- The entries for a table list and for the details, in the order in which they are written.
abbrev pub table_entries : AuditTableState → List Bytes → Object
table_entries AuditTableState.present tables = (codes "referenced_tables", texts tables) ∷ []
table_entries AuditTableState.omitted tables = (codes "referenced_tables_omitted", flag true) ∷ []
table_entries AuditTableState.absent tables = []

abbrev pub type_entry : StatementType → Bytes × Json
type_entry t = (codes "statement_type", text (statement_type_name t))

abbrev pub detail_entries : Details → Object
detail_entries (Details.success d) =
    type_entry d.statement_type
    ∷ (codes "row_count", number d.row_count)
    ∷ (codes "column_count", number d.column_count)
    ∷ (codes "pii_email_columns", number d.pii.email_columns)
    ∷ (codes "pii_phone_columns", number d.pii.phone_columns)
    ∷ (codes "pii_credit_card_columns", number d.pii.credit_card_columns)
    ∷ []
detail_entries (Details.write_success d) =
    type_entry d.statement_type ∷ (codes "affected_rows", number d.affected_rows) ∷ []
detail_entries (Details.policy_rejected d) =
    (codes "reason", text (reject_reason_name d.reason))
    ∷ type_entry d.statement_type
    ∷ (codes "statement_count", number d.statement_count)
    ∷ []
detail_entries (Details.database_failure d) =
    (codes "category", text (db_failure_name d.category)) ∷ type_entry d.statement_type ∷ []
detail_entries (Details.masking_refused d) =
    type_entry d.statement_type ∷ (codes "column_count", number d.column_count) ∷ []
detail_entries Details.parsing_failure = []
detail_entries Details.internal_failure = []

module _ (gmtime_r : ℤ → Tm) where
  abbrev pub entries : AuditRecord → Object
  entries r =
      (codes "timestamp", text (format_utc_timestamp gmtime_r r.timestamp_ms))
        ∷ (codes "request_id", number r.request_id)
        ∷ (codes "outcome", text (audit_outcome_name (outcome_of r.details)))
        ∷ table_entries r.referenced_tables.state r.referenced_tables.tables
      ++ detail_entries r.details

  module _ (t : ℤ) (id : ℕ) (tables : List Bytes) where
    abbrev with : AuditTableState → Details → AuditRecord
    with state d = record {
      timestamp_ms = t;
      request_id = id;
      referenced_tables = record { state = state; tables = tables };
      details = d;
    }

    by_state :
        (state : AuditTableState) (d : Details)
        → serialize gmtime_r (with state d) ≡ ok (entries (with state d))
    unfolding serialize put put_tables put_details put_success bytes_eq outcome is_write_success
        success_details write_success_details policy_rejected_details database_failure_details
        masking_refused_details
    by_state AuditTableState.present (Details.success d) = refl
    by_state AuditTableState.present (Details.write_success d) = refl
    by_state AuditTableState.present (Details.policy_rejected d) = refl
    by_state AuditTableState.present (Details.database_failure d) = refl
    by_state AuditTableState.present (Details.masking_refused d) = refl
    by_state AuditTableState.present Details.parsing_failure = refl
    by_state AuditTableState.present Details.internal_failure = refl
    by_state AuditTableState.omitted (Details.success d) = refl
    by_state AuditTableState.omitted (Details.write_success d) = refl
    by_state AuditTableState.omitted (Details.policy_rejected d) = refl
    by_state AuditTableState.omitted (Details.database_failure d) = refl
    by_state AuditTableState.omitted (Details.masking_refused d) = refl
    by_state AuditTableState.omitted Details.parsing_failure = refl
    by_state AuditTableState.omitted Details.internal_failure = refl
    by_state AuditTableState.absent (Details.success d) = refl
    by_state AuditTableState.absent (Details.write_success d) = refl
    by_state AuditTableState.absent (Details.policy_rejected d) = refl
    by_state AuditTableState.absent (Details.database_failure d) = refl
    by_state AuditTableState.absent (Details.masking_refused d) = refl
    by_state AuditTableState.absent Details.parsing_failure = refl
    by_state AuditTableState.absent Details.internal_failure = refl

  -- No accessor throws, and no key is written twice: the object of a record is the list of its
  -- entries.
  pub serialize_lem : (r : AuditRecord) → serialize gmtime_r r ≡ ok (entries r)
  serialize_lem r =
      by_state r.timestamp_ms r.request_id r.referenced_tables.tables r.referenced_tables.state
        r.details
