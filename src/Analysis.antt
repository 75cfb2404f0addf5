-- ===== src/Analysis.antt =====
-- The analysis model: `src/core/sql_analysis.h`, `src/core/sql_analysis.cpp`, and the statement
-- facts of `src/ports/sql_parser.h` from which it is built. Strings are byte lists.
use sql_proxy_service.Prelude.{Bool, false, List, [], Bytes, codes}
use sql_proxy_service.Prelude.Int.{ℤ, pos}

pub data StatementType : Type 0 where
  select insert update delete create alter drop unknown : StatementType

pub data StatementClass : Type 0 where
  select dml ddl unknown : StatementClass

pub data InsertSource : Type 0 where
  none values select : InsertSource

pub data InsertValueKind : Type 0 where
  unsupported positive_integer_literal positive_decimal_literal : InsertValueKind
  non_positive_numeric_literal : InsertValueKind

pub data AnalysisStatus : Type 0 where
  ok empty_input parse_error multiple_statements : AnalysisStatus

unfoldable pub statement_class_of : StatementType → StatementClass
statement_class_of StatementType.select = StatementClass.select
statement_class_of StatementType.insert = StatementClass.dml
statement_class_of StatementType.update = StatementClass.dml
statement_class_of StatementType.delete = StatementClass.dml
statement_class_of StatementType.create = StatementClass.ddl
statement_class_of StatementType.alter = StatementClass.ddl
statement_class_of StatementType.drop = StatementClass.ddl
statement_class_of StatementType.unknown = StatementClass.unknown

-- `to_string(StatementType)`
unfoldable pub statement_type_name : StatementType → Bytes
statement_type_name StatementType.select = codes "SELECT"
statement_type_name StatementType.insert = codes "INSERT"
statement_type_name StatementType.update = codes "UPDATE"
statement_type_name StatementType.delete = codes "DELETE"
statement_type_name StatementType.create = codes "CREATE"
statement_type_name StatementType.alter = codes "ALTER"
statement_type_name StatementType.drop = codes "DROP"
statement_type_name StatementType.unknown = codes "UNKNOWN"

-- `to_string(StatementClass)`
unfoldable pub statement_class_name : StatementClass → Bytes
statement_class_name StatementClass.select = codes "SELECT"
statement_class_name StatementClass.dml = codes "DML"
statement_class_name StatementClass.ddl = codes "DDL"
statement_class_name StatementClass.unknown = codes "UNKNOWN"

pub record TableRef : Type 0 where
  pub schema : Bytes
  pub name : Bytes

pub record ParsedStatement : Type 0 where
  pub type : StatementType
  pub tables : List TableRef
  pub projection_columns : List Bytes
  pub has_wildcard_projection : Bool
  pub has_computed_projection : Bool
  pub has_safe_count_star_projection : Bool
  pub has_group_by : Bool
  pub affected_columns : List Bytes
  pub insert_source : InsertSource
  pub insert_value_kinds : List InsertValueKind
  pub unsupported_features : List Bytes

-- `ParsedStatement{}`
abbrev pub default_statement : ParsedStatement
default_statement = record {
  type = StatementType.unknown;
  tables = [];
  projection_columns = [];
  has_wildcard_projection = false;
  has_computed_projection = false;
  has_safe_count_star_projection = false;
  has_group_by = false;
  affected_columns = [];
  insert_source = InsertSource.none;
  insert_value_kinds = [];
  unsupported_features = [];
}

pub record ParseResult : Type 0 where
  pub success : Bool
  pub statements : List ParsedStatement
  pub error : Bytes

pub record SqlAnalysis : Type 0 where
  pub status : AnalysisStatus
  pub statement_type : StatementType
  pub statement_class : StatementClass
  pub statement_count : ℤ
  pub tables : List Bytes
  pub projection_columns : List Bytes
  pub has_wildcard_projection : Bool
  pub has_computed_projection : Bool
  pub has_safe_count_star_projection : Bool
  pub has_group_by : Bool
  pub affected_columns : List Bytes
  pub insert_source : InsertSource
  pub insert_value_kinds : List InsertValueKind
  pub unsupported_features : List Bytes
  pub error_reason : Bytes

-- `SqlAnalysis{}`: the fail-closed defaults.
abbrev pub default_analysis : SqlAnalysis
default_analysis = record {
  status = AnalysisStatus.parse_error;
  statement_type = StatementType.unknown;
  statement_class = StatementClass.unknown;
  statement_count = pos 0;
  tables = [];
  projection_columns = [];
  has_wildcard_projection = false;
  has_computed_projection = false;
  has_safe_count_star_projection = false;
  has_group_by = false;
  affected_columns = [];
  insert_source = InsertSource.none;
  insert_value_kinds = [];
  unsupported_features = [];
  error_reason = [];
}
