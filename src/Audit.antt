-- ===== src/Audit.antt =====
-- `src/core/audit_record.h` and `src/core/audit_record.cpp`: one record for each request outcome.
-- `std::variant` is a data type, a factory that throws is a `Fault`.
pub mod Tables
pub mod Record
pub mod Factories
mod Examples
use sql_proxy_service.Prelude.{
  ℕ, Bool, true, false, not, ◌&&◌, ◌||◌, List, [], ◌∷◌, ltb, leb, ◌==◌, if◌then◌else◌, length,
  is_empty, all, any, Bytes, codes, Fault, ok, threw,
}
use sql_proxy_service.Prelude.Int.{ℤ}
use sql_proxy_service.Analysis.{StatementType}
use sql_proxy_service.Policy.{RejectReason}

pub data AuditOutcome : Type 0 where
  success parsing_failure policy_rejected database_failure : AuditOutcome
  masking_refused internal_failure : AuditOutcome

-- `to_string(AuditOutcome)`
unfoldable pub audit_outcome_name : AuditOutcome → Bytes
audit_outcome_name AuditOutcome.success = codes "SUCCESS"
audit_outcome_name AuditOutcome.parsing_failure = codes "PARSING_FAILURE"
audit_outcome_name AuditOutcome.policy_rejected = codes "POLICY_REJECTED"
audit_outcome_name AuditOutcome.database_failure = codes "DATABASE_FAILURE"
audit_outcome_name AuditOutcome.masking_refused = codes "MASKING_REFUSED"
audit_outcome_name AuditOutcome.internal_failure = codes "INTERNAL_FAILURE"

pub data AuditTableState : Type 0 where
  absent present omitted : AuditTableState

pub record AuditTableMetadata : Type 0 where
  pub state : AuditTableState
  pub tables : List Bytes

pub data DbFailureCategory : Type 0 where
  connection_failure execution_failure : DbFailureCategory

-- `to_string(DbFailureCategory)`
unfoldable pub db_failure_name : DbFailureCategory → Bytes
db_failure_name DbFailureCategory.connection_failure = codes "CONNECTION_FAILURE"
db_failure_name DbFailureCategory.execution_failure = codes "EXECUTION_FAILURE"

pub record PiiSummary : Type 0 where
  pub email_columns : ℕ
  pub phone_columns : ℕ
  pub credit_card_columns : ℕ

pub record SuccessDetails : Type 0 where
  pub statement_type : StatementType
  pub row_count : ℕ
  pub column_count : ℕ
  pub pii : PiiSummary

pub record WriteSuccessDetails : Type 0 where
  pub statement_type : StatementType
  pub affected_rows : ℕ

pub record PolicyRejectedDetails : Type 0 where
  pub reason : RejectReason
  pub statement_type : StatementType
  pub statement_count : ℕ

pub record DatabaseFailureDetails : Type 0 where
  pub category : DbFailureCategory
  pub statement_type : StatementType

pub record MaskingRefusedDetails : Type 0 where
  pub statement_type : StatementType
  pub column_count : ℕ

-- The variant `Details`. A parsing and an internal failure carry nothing.
pub data Details : Type 0 where
  success : SuccessDetails → Details
  write_success : WriteSuccessDetails → Details
  parsing_failure : Details
  policy_rejected : PolicyRejectedDetails → Details
  database_failure : DatabaseFailureDetails → Details
  masking_refused : MaskingRefusedDetails → Details
  internal_failure : Details

pub record AuditRecord : Type 0 where
  pub timestamp_ms : ℤ
  pub request_id : ℕ
  pub referenced_tables : AuditTableMetadata
  pub details : Details

abbrev pub max_referenced_tables : ℕ
max_referenced_tables = 8

abbrev pub max_table_name_length : ℕ
max_table_name_length = 63

abbrev pub is_letter : ℕ → Bool
is_letter c = (leb b'A' c && leb c b'Z') || (leb b'a' c && leb c b'z')

abbrev pub is_name_start : ℕ → Bool
is_name_start c = is_letter c || c == b'_'

abbrev pub is_name_byte : ℕ → Bool
is_name_byte c = is_letter c || (leb b'0' c && leb c b'9') || c == b'_' || c == b'$'

unfoldable pub is_valid_table_name : Bytes → Bool
is_valid_table_name [] = false
is_valid_table_name (first ∷ name) =
    if ltb max_table_name_length (length (first ∷ name))
    then false
    else if not (is_name_start first)
    then false
    else all is_name_byte name

unfoldable pub classify_tables : List Bytes → AuditTableMetadata
classify_tables names =
    if is_empty names
    then record { state = AuditTableState.absent; tables = [] }
    else if ltb max_referenced_tables (length names)
    then record { state = AuditTableState.omitted; tables = [] }
    else if any (λ name. not (is_valid_table_name name)) names
    then record { state = AuditTableState.omitted; tables = [] }
    else record { state = AuditTableState.present; tables = names }

-- The constructor. The failures without a table list are given the empty one.
unfoldable pub audit_record : ℤ → ℕ → Details → List Bytes → AuditRecord
audit_record timestamp_ms request_id details referenced_tables = record {
  timestamp_ms = timestamp_ms;
  request_id = request_id;
  referenced_tables = classify_tables referenced_tables;
  details = details;
}

abbrev pub is_select : StatementType → Bool
is_select StatementType.select = true
is_select _ = false

abbrev pub is_insert : StatementType → Bool
is_insert StatementType.insert = true
is_insert _ = false

abbrev pub outcome_of : Details → AuditOutcome
outcome_of (Details.success d) = AuditOutcome.success
outcome_of (Details.write_success d) = AuditOutcome.success
outcome_of Details.parsing_failure = AuditOutcome.parsing_failure
outcome_of (Details.policy_rejected d) = AuditOutcome.policy_rejected
outcome_of (Details.database_failure d) = AuditOutcome.database_failure
outcome_of (Details.masking_refused d) = AuditOutcome.masking_refused
outcome_of Details.internal_failure = AuditOutcome.internal_failure

-- `AuditRecord::outcome`
unfoldable pub outcome : AuditRecord → AuditOutcome
outcome r = outcome_of r.details

-- The accessors: `std::get` throws if the record holds another alternative.
unfoldable pub is_write_success : AuditRecord → Bool
is_write_success r = elim r.details [ Details.write_success d ↦ true | _ ↦ false ]

unfoldable pub success_details : AuditRecord → Fault SuccessDetails
success_details r = elim r.details [ Details.success d ↦ ok d | _ ↦ threw ]

unfoldable pub write_success_details : AuditRecord → Fault WriteSuccessDetails
write_success_details r = elim r.details [ Details.write_success d ↦ ok d | _ ↦ threw ]

unfoldable pub policy_rejected_details : AuditRecord → Fault PolicyRejectedDetails
policy_rejected_details r = elim r.details [ Details.policy_rejected d ↦ ok d | _ ↦ threw ]

unfoldable pub database_failure_details : AuditRecord → Fault DatabaseFailureDetails
database_failure_details r = elim r.details [ Details.database_failure d ↦ ok d | _ ↦ threw ]

unfoldable pub masking_refused_details : AuditRecord → Fault MaskingRefusedDetails
masking_refused_details r = elim r.details [ Details.masking_refused d ↦ ok d | _ ↦ threw ]
