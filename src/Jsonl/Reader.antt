-- ===== src/Jsonl/Reader.antt =====
-- A reader of the object of one line of the audit file.
use sql_proxy_service.Prelude.{
  ℕ, List, [], ◌∷◌, if◌then◌else◌, Bytes, codes, bytes_eq, Fault, ok, threw, ◌>>=◌,
}
use sql_proxy_service.Analysis.{StatementType, statement_type_name}
use sql_proxy_service.Policy.{RejectReason, reject_reason_name}
use sql_proxy_service.Audit.{
  AuditOutcome, audit_outcome_name, AuditTableState, AuditTableMetadata, db_failure_name,
  DbFailureCategory, Details,
}
use sql_proxy_service.Jsonl.{Json, Object, text, number, texts}

unfoldable pub lookup : Bytes → Object → Fault Json
lookup key [] = threw
lookup key ((k, v) ∷ j) = let rest = lookup key j in if bytes_eq key k then ok v else rest

-- The value of an enumeration with a given name.
unfoldable pub decode : {A : Type 0} → (A → Bytes) → List A → Json → Fault A
decode name [] v = threw
decode name (a ∷ l) (text s) =
    let rest = decode name l (text s) in if bytes_eq s (name a) then ok a else rest
decode name (a ∷ l) _ = threw

abbrev pub to_number : Json → Fault ℕ
to_number (number n) = ok n
to_number _ = threw

abbrev pub read_number : Bytes → Object → Fault ℕ
read_number key j = lookup key j >>= to_number

abbrev pub types : List StatementType
types =
    StatementType.select ∷ StatementType.insert ∷ StatementType.update ∷ StatementType.delete
    ∷ StatementType.create ∷ StatementType.alter ∷ StatementType.drop ∷ StatementType.unknown ∷ []

unfoldable pub read_type : Object → Fault StatementType
read_type j = lookup (codes "statement_type") j >>= decode statement_type_name types

abbrev pub reasons : List RejectReason
reasons =
    RejectReason.none ∷ RejectReason.not_evaluated ∷ RejectReason.empty_input
    ∷ RejectReason.unparseable_sql ∷ RejectReason.multiple_statements
    ∷ RejectReason.unsupported_statement_type ∷ RejectReason.unsupported_sql_feature
    ∷ RejectReason.ddl_not_allowed ∷ RejectReason.dml_not_allowed ∷ RejectReason.system_table_access
    ∷ RejectReason.unattributable_projection ∷ RejectReason.insert_target_not_allowed
    ∷ RejectReason.unsupported_insert_shape ∷ []

unfoldable pub read_reason : Object → Fault RejectReason
read_reason j = lookup (codes "reason") j >>= decode reject_reason_name reasons

abbrev pub categories : List DbFailureCategory
categories = DbFailureCategory.connection_failure ∷ DbFailureCategory.execution_failure ∷ []

unfoldable pub read_category : Object → Fault DbFailureCategory
read_category j = lookup (codes "category") j >>= decode db_failure_name categories

abbrev pub outcomes : List AuditOutcome
outcomes =
    AuditOutcome.success ∷ AuditOutcome.parsing_failure ∷ AuditOutcome.policy_rejected
    ∷ AuditOutcome.database_failure ∷ AuditOutcome.masking_refused ∷ AuditOutcome.internal_failure
    ∷ []

unfoldable pub read_outcome : Object → Fault AuditOutcome
read_outcome j = lookup (codes "outcome") j >>= decode audit_outcome_name outcomes

unfoldable pub read_success : Object → Fault Details
read_success j = do
  t ← read_type j
  rows ← read_number (codes "row_count") j
  columns ← read_number (codes "column_count") j
  emails ← read_number (codes "pii_email_columns") j
  phones ← read_number (codes "pii_phone_columns") j
  cards ← read_number (codes "pii_credit_card_columns") j
  ok (
      Details.success (record {
        statement_type = t;
        row_count = rows;
        column_count = columns;
        pii = record {
          email_columns = emails;
          phone_columns = phones;
          credit_card_columns = cards;
        };
      }))

-- A success with a number of affected rows is one of a write.
unfoldable pub read_details_of : Object → AuditOutcome → Fault Details
read_details_of j AuditOutcome.success = elim (read_number (codes "affected_rows") j) [
  | threw ↦ read_success j
  | ok n ↦ read_type j >>= λ t.
      ok (Details.write_success (record { statement_type = t; affected_rows = n }))
]
read_details_of j AuditOutcome.policy_rejected = do
  r ← read_reason j
  t ← read_type j
  n ← read_number (codes "statement_count") j
  ok (Details.policy_rejected (record { reason = r; statement_type = t; statement_count = n }))
read_details_of j AuditOutcome.database_failure = do
  c ← read_category j
  t ← read_type j
  ok (Details.database_failure (record { category = c; statement_type = t }))
read_details_of j AuditOutcome.masking_refused = do
  t ← read_type j
  n ← read_number (codes "column_count") j
  ok (Details.masking_refused (record { statement_type = t; column_count = n }))
read_details_of j AuditOutcome.parsing_failure = ok Details.parsing_failure
read_details_of j AuditOutcome.internal_failure = ok Details.internal_failure

unfoldable pub read_details : Object → Fault Details
read_details j = read_outcome j >>= read_details_of j

unfoldable pub read_tables : Object → Fault AuditTableMetadata
read_tables j = elim (lookup (codes "referenced_tables") j) [
  | ok (texts l) ↦ ok (record { state = AuditTableState.present; tables = l })
  | ok _ ↦ threw
  | threw ↦ elim (lookup (codes "referenced_tables_omitted") j) [
    | ok v ↦ ok (record { state = AuditTableState.omitted; tables = [] })
    | threw ↦ ok (record { state = AuditTableState.absent; tables = [] })
  ]
]
