-- ===== src/Execution.antt =====
-- `src/ports/query_executor.h`: what an execution returns. A cell is `none` for SQL NULL; the
-- empty string is another value.
use sql_proxy_service.Prelude.{Bool, false, Option, List, [], Bytes}
use sql_proxy_service.Prelude.Int.{ℤ, pos}

pub data ColumnType : Type 0 where
  text integer float numeric boolean timestamp date other : ColumnType

pub record ColumnInfo : Type 0 where
  pub name : Bytes
  pub type : ColumnType

pub data ExecutionStatus : Type 0 where
  ok connection_failure execution_failure : ExecutionStatus

abbrev pub Cell : Type 0
Cell = Option Bytes

pub record ExecutionResult : Type 0 where
  pub status : ExecutionStatus
  pub error : Bytes
  pub has_result_set : Bool
  pub columns : List ColumnInfo
  pub rows : List (List Cell)
  pub row_count : ℤ
  pub affected_rows : ℤ

-- `ExecutionResult{}`
abbrev pub default_result : ExecutionResult
default_result = record {
  status = ExecutionStatus.execution_failure;
  error = [];
  has_result_set = false;
  columns = [];
  rows = [];
  row_count = pos 0;
  affected_rows = pos 0;
}
