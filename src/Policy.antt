-- ===== src/Policy.antt =====
-- `src/core/policy_engine.cpp`: the one place where a statement is authorised. `evaluate` reads a
-- `SqlAnalysis` and nothing else.
pub mod System
pub mod Rules
pub mod Permission
mod Examples
use sql_proxy_service.Prelude.{
  suc, Bool, true, false, not, ◌&&◌, ◌||◌, Option, List, [], ◌∷◌, ◌==◌, if◌then◌else◌, take, drop,
  is_empty, any, Bytes, codes, bytes_eq, ok,
}
use sql_proxy_service.Prelude.Int.{ℤ, pos, negsuc}
use sql_proxy_service.Text.{ascii_lower, find, starts_with, dot}
use sql_proxy_service.Analysis.{
  StatementType, StatementClass, SqlAnalysis, AnalysisStatus, InsertSource, InsertValueKind,
}

pub data RejectReason : Type 0 where
  not_evaluated none empty_input unparseable_sql multiple_statements : RejectReason
  unsupported_statement_type unsupported_sql_feature ddl_not_allowed dml_not_allowed : RejectReason
  system_table_access unattributable_projection insert_target_not_allowed : RejectReason
  unsupported_insert_shape : RejectReason

-- `to_string(RejectReason)`
unfoldable pub reject_reason_name : RejectReason → Bytes
reject_reason_name RejectReason.not_evaluated = codes "NOT_EVALUATED"
reject_reason_name RejectReason.none = codes "NONE"
reject_reason_name RejectReason.empty_input = codes "EMPTY_INPUT"
reject_reason_name RejectReason.unparseable_sql = codes "UNPARSEABLE_SQL"
reject_reason_name RejectReason.multiple_statements = codes "MULTIPLE_STATEMENTS"
reject_reason_name RejectReason.unsupported_statement_type = codes "UNSUPPORTED_STATEMENT_TYPE"
reject_reason_name RejectReason.unsupported_sql_feature = codes "UNSUPPORTED_SQL_FEATURE"
reject_reason_name RejectReason.ddl_not_allowed = codes "DDL_NOT_ALLOWED"
reject_reason_name RejectReason.dml_not_allowed = codes "DML_NOT_ALLOWED"
reject_reason_name RejectReason.system_table_access = codes "SYSTEM_TABLE_ACCESS"
reject_reason_name RejectReason.unattributable_projection = codes "UNATTRIBUTABLE_PROJECTION"
reject_reason_name RejectReason.insert_target_not_allowed = codes "INSERT_TARGET_NOT_ALLOWED"
reject_reason_name RejectReason.unsupported_insert_shape = codes "UNSUPPORTED_INSERT_SHAPE"

pub record PolicyDecision : Type 0 where
  pub allowed : Bool
  pub reason : RejectReason

-- The schema part and the table part of a lowered entry: everything before its first dot, or
-- nothing; everything after it.
unfoldable pub schema_part : Bytes → Bytes
schema_part lowered = elim (find dot lowered) [ Option.none ↦ [] | Option.some d ↦ take d lowered ]

unfoldable pub table_part : Bytes → Bytes
table_part lowered = elim (find dot lowered) [
  | Option.none ↦ lowered
  | Option.some d ↦ drop (suc d) lowered
]

unfoldable pub is_catalog_schema : Bytes → Bool
is_catalog_schema schema =
    bytes_eq schema (codes "pg_catalog") || bytes_eq schema (codes "information_schema")

unfoldable pub is_system_table : Bytes → Bool
is_system_table table_entry =
    let lowered = ascii_lower table_entry in
    if is_catalog_schema (schema_part lowered)
    then true
    else starts_with (codes "pg_") (table_part lowered)

abbrev pub insert_target_table : Bytes
insert_target_table = codes "orders"

abbrev pub is_values : InsertSource → Bool
is_values InsertSource.values = true
is_values _ = false

abbrev pub is_insert : StatementType → Bool
is_insert StatementType.insert = true
is_insert _ = false

-- `affected_columns.size() == 2` and its two elements.
unfoldable pub are_order_columns : List Bytes → Bool
are_order_columns (first ∷ second ∷ []) =
    bytes_eq first (codes "customer_id") && bytes_eq second (codes "amount")
are_order_columns _ = false

-- `insert_value_kinds.size() == 2` and its two elements.
unfoldable pub are_order_values : List InsertValueKind → Bool
are_order_values
      (InsertValueKind.positive_integer_literal ∷ InsertValueKind.positive_integer_literal ∷ []) =
    true
are_order_values
      (InsertValueKind.positive_integer_literal ∷ InsertValueKind.positive_decimal_literal ∷ []) =
    true
are_order_values _ = false

unfoldable pub is_allowed_order_insert : SqlAnalysis → Bool
is_allowed_order_insert analysis =
    is_empty analysis.unsupported_features
    && is_values analysis.insert_source
    && are_order_columns analysis.affected_columns
    && are_order_values analysis.insert_value_kinds

unfoldable pub is_target : List Bytes → Bool
is_target (table ∷ []) = bytes_eq table insert_target_table
is_target _ = false

unfoldable pub targets_insert_table : SqlAnalysis → Bool
targets_insert_table analysis = is_target analysis.tables

abbrev pub reject : RejectReason → PolicyDecision
reject reason = record { allowed = false; reason = reason }

abbrev pub allow : PolicyDecision
allow = record { allowed = true; reason = RejectReason.none }

abbrev pub is_one : ℤ → Bool
is_one (pos n) = n == 1
is_one (negsuc n) = false

-- The `Dml` case of the class gate.
unfoldable pub evaluate_dml : SqlAnalysis → PolicyDecision
evaluate_dml analysis =
    if not (is_insert analysis.statement_type)
    then reject RejectReason.dml_not_allowed
    else if not (targets_insert_table analysis)
    then reject RejectReason.insert_target_not_allowed
    else if not (is_allowed_order_insert analysis)
    then reject RejectReason.unsupported_insert_shape
    else allow

-- R8 to R11.
unfoldable pub evaluate_select : SqlAnalysis → PolicyDecision
evaluate_select analysis =
    if not (is_empty analysis.unsupported_features)
    then reject RejectReason.unsupported_sql_feature
    else if any is_system_table analysis.tables
    then reject RejectReason.system_table_access
    else if analysis.has_wildcard_projection && not (is_empty analysis.projection_columns)
    then reject RejectReason.unattributable_projection
    else allow

-- R5 to R7, the switch on the class.
unfoldable pub evaluate_class : StatementClass → SqlAnalysis → PolicyDecision
evaluate_class StatementClass.unknown analysis = reject RejectReason.unsupported_statement_type
evaluate_class StatementClass.ddl analysis = reject RejectReason.ddl_not_allowed
evaluate_class StatementClass.dml analysis = evaluate_dml analysis
evaluate_class StatementClass.select analysis = evaluate_select analysis

-- R1 to R4, the switch on the status.
unfoldable pub evaluate_status : AnalysisStatus → SqlAnalysis → PolicyDecision
evaluate_status AnalysisStatus.empty_input analysis = reject RejectReason.empty_input
evaluate_status AnalysisStatus.parse_error analysis = reject RejectReason.unparseable_sql
evaluate_status AnalysisStatus.multiple_statements analysis =
    reject RejectReason.multiple_statements
evaluate_status AnalysisStatus.ok analysis =
    if not (is_one analysis.statement_count)
    then reject RejectReason.multiple_statements
    else evaluate_class analysis.statement_class analysis

unfoldable pub evaluate : SqlAnalysis → PolicyDecision
evaluate analysis = evaluate_status analysis.status analysis
