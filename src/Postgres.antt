-- ===== src/Postgres.antt =====
-- `src/postgres/postgres_query_executor.cpp`: the executor over libpqxx. The driver is a parameter:
-- what its calls do to the world, what they return and what they throw.
pub mod Table
pub mod Execution
pub mod Settings
mod Examples
use sql_proxy_service.Prelude.{
  ℕ, zero, suc, ◌+◌, Bool, ◌||◌, none, some, List, [], ◌∷◌, ◌++◌, ltb, ◌==◌, if◌then◌else◌, Bytes,
  codes, ok,
}
use sql_proxy_service.Prelude.Int.{pos}
use sql_proxy_service.Prelude.Decimal.{decimal}
use sql_proxy_service.Config.{DatabaseConfig}
use sql_proxy_service.Execution.{
  Cell, ColumnType, ColumnInfo, ExecutionStatus, ExecutionResult, default_result,
}

-- The exceptions that the handlers tell apart, with the text of `what()`.
pub data Exception : Type 0 where
  broken_connection : Bytes → Exception
  sql_error : Bytes → Bytes → Exception
  failure : Bytes → Exception
  other : Exception

pub data Attempt (A : Type 0) : Type 0 where
  returned : A → Attempt A
  raised : Exception → Attempt A

abbrev pub Call : Type 0 → Type 0 → Type 0
Call W A = W → Attempt A × W

-- `pqxx::result`, by its accessors.
pub record DriverResult : Type 0 where
  pub columns : ℕ
  pub column_name : ℕ → Bytes
  pub column_type : ℕ → ℕ
  pub size : ℕ
  pub is_null : ℕ → ℕ → Bool
  pub view : ℕ → ℕ → Bytes
  pub affected_rows : ℕ

-- The calls of the driver on its one connection and transaction; the last two are the destructors.
pub record Driver (W : Type 0) : Type 0 where
  pub connect : Bytes → Call W Unit
  pub begin : Call W Unit
  pub exec : Bytes → Call W DriverResult
  pub commit : Call W Unit
  pub end_transaction : W → W
  pub disconnect : W → W

unfoldable pub column_type_from_oid : ℕ → ColumnType
column_type_from_oid oid =
    if oid == 25 || oid == 1043 || oid == 1042
    then ColumnType.text
    else if oid == 20 || oid == 21 || oid == 23
    then ColumnType.integer
    else if oid == 700 || oid == 701
    then ColumnType.float
    else if oid == 1700
    then ColumnType.numeric
    else if oid == 16
    then ColumnType.boolean
    else if oid == 1114 || oid == 1184
    then ColumnType.timestamp
    else if oid == 1082
    then ColumnType.date
    else ColumnType.other

-- A loop that appends a value for each index from `c` on, `n` of them.
unfoldable pub collect : {A : Type 0} → (ℕ → A) → ℕ → ℕ → List A
collect f c zero = []
collect f c (suc n) = f c ∷ collect f (c + 1) n

abbrev pub column_info : DriverResult → ℕ → ColumnInfo
column_info r c = record { name = r.column_name c; type = column_type_from_oid (r.column_type c) }

abbrev pub cell : DriverResult → ℕ → ℕ → Cell
cell r i c = if r.is_null i c then none else some (r.view i c)

unfoldable pub translate : DriverResult → ExecutionResult
translate r = record {
  status = ExecutionStatus.ok;
  error = [];
  has_result_set = ltb 0 r.columns;
  columns = collect (column_info r) 0 r.columns;
  rows = collect (λ i. collect (cell r i) 0 r.columns) 0 r.size;
  row_count = pos r.size;
  affected_rows = pos r.affected_rows;
}

-- The helper `failure`.
abbrev pub failed : ExecutionStatus → Bytes → ExecutionResult
failed status error = record default_result { status = status; error = error }

-- The handlers of `execute`.
unfoldable pub caught : Exception → ExecutionResult
caught (broken_connection what) =
    failed ExecutionStatus.connection_failure (codes "connection failed")
caught (sql_error what sqlstate) =
    failed ExecutionStatus.execution_failure
      (codes "statement failed (SQLSTATE " ++ sqlstate ++ codes ")")
caught (failure what) = failed ExecutionStatus.execution_failure (codes "statement failed")
caught other = failed ExecutionStatus.execution_failure (codes "executor failure")

abbrev pub limit_statement : DatabaseConfig → Bytes
limit_statement config =
    codes "SET LOCAL statement_timeout = " ++ decimal config.statement_timeout_ms

module _ {W : Type 0} where
  -- The rest of a run, from the outcome of its first call.
  abbrev pub next : {A B : Type 0} → Attempt A × W → (A → Call W B) → Attempt B × W
  next (returned a, w) f = f a w
  next (raised e, w) f = (raised e, w)

  abbrev pub answered : Attempt ExecutionResult × W → ExecutionResult × W
  answered (returned r, w) = (r, w)
  answered (raised e, w) = (caught e, w)

  module _ (driver : Driver W) (config : DatabaseConfig) where
    -- The statements of the transaction.
    unfoldable pub transact : Bytes → Call W ExecutionResult
    transact sql w = next (driver.exec (limit_statement config) w) (λ limited w₁.
        next (driver.exec sql w₁)
          (λ r w₂. next (driver.commit w₂) (λ committed w₃. (returned (translate r), w₃))))

    -- A destructor runs on every path behind its constructor.
    abbrev pub finally : (W → W) → Attempt ExecutionResult × W → Attempt ExecutionResult × W
    finally destroy (r, w) = (r, destroy w)

    unfoldable pub execute : Bytes → W → ExecutionResult × W
    execute sql w = answered (
        next (driver.connect config.connection_string w) (λ connected w₁.
          finally driver.disconnect (
            next (driver.begin w₁) (λ begun w₂. finally driver.end_transaction (transact sql w₂)))))
