-- ===== src/Syntax.antt =====
-- The parts of the third-party parser's syntax tree that `src/parser/hyrise_sql_parser.cpp` reads:
-- one field for each member or test in that file. A pointer is an `Option`, or has a `null` of its
-- own; `char*` is an `Option Bytes`. What produces these values is a parameter.
use sql_proxy_service.Prelude.{ℕ, Bool, Option, List, Bytes}
use sql_proxy_service.Prelude.Int.{ℤ}

pub data ExprType : Type 0 where
  star column_ref function_ref literal_int literal_float other : ExprType

-- Of an argument only the type is read; of `fval` only whether it is above zero.
pub record Expr : Type 0 where
  pub type : ExprType
  pub name : Option Bytes
  pub table : Option Bytes
  pub distinct : Bool
  pub has_window : Bool
  pub expr_list : Option (List (Option ExprType))
  pub ival : ℤ
  pub fval_is_positive : Bool

-- A pointer to a table reference, and the list that a cross product points to.
mutual
  pub data FromRef : Type 0 where
    null : FromRef
    table_name : Option Bytes → Option Bytes → FromRef
    join : FromRef → FromRef → FromRef
    empty_join : FromRef
    cross_product : FromRefs → FromRef
    empty_cross_product : FromRef
    subquery : FromRef

  pub data FromRefs : Type 0 where
    nil : FromRefs
    cons : FromRef → FromRefs → FromRefs

-- `with_count` and `set_count` are the sizes of the two lists behind pointers.
pub record SelectStatement : Type 0 where
  pub from_table : FromRef
  pub select_list : Option (List (Option Expr))
  pub has_group_by : Bool
  pub with_count : Option ℕ
  pub set_count : Option ℕ

pub record InsertStatement : Type 0 where
  pub schema : Option Bytes
  pub table_name : Option Bytes
  pub columns : Option (List (Option Bytes))
  pub is_insert_select : Bool
  pub values : Option (List (Option Expr))

-- A clause of an update is its column.
pub record UpdateStatement : Type 0 where
  pub table : FromRef
  pub updates : Option (List (Option (Option Bytes)))

-- The schema and the name that a delete, create, drop or alter statement carries.
pub record NamedStatement : Type 0 where
  pub schema : Option Bytes
  pub name : Option Bytes

pub data SqlStatement : Type 0 where
  select : SelectStatement → SqlStatement
  insert : InsertStatement → SqlStatement
  update : UpdateStatement → SqlStatement
  delete : NamedStatement → SqlStatement
  create drop : Bool → NamedStatement → SqlStatement
  alter : NamedStatement → SqlStatement
  other : SqlStatement

pub record SqlParserResult : Type 0 where
  pub is_valid : Bool
  pub error_line : ℤ
  pub error_column : ℤ
  pub statements : List (Option SqlStatement)
