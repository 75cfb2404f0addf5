-- ===== src/Parser.antt =====
-- `src/parser/hyrise_sql_parser.cpp`: the translation of the third-party syntax tree. `out`, which
-- the functions of the source change, is passed and returned.
pub mod Statements
pub mod Tables
pub mod Projection
pub mod Select
pub mod Literals
pub mod Insert
pub mod Attribution
pub mod Counting
pub mod Result
pub mod Outcome
mod Examples
use sql_proxy_service.Prelude.{
  ℕ, Bool, true, false, not, ◌||◌, Option, none, some, List, [], ◌∷◌, ◌++◌, map, ltb, ◌==◌,
  if◌then◌else◌, drop, Bytes, codes, bytes_eq, without,
}
use sql_proxy_service.Prelude.Int.{ℤ, pos, negsuc}
use sql_proxy_service.Analysis.{
  StatementType, InsertSource, InsertValueKind, TableRef, ParsedStatement, default_statement,
}
use sql_proxy_service.Text.{ascii_lower, dot}
use sql_proxy_service.Syntax.{
  ExprType, Expr, FromRef, FromRefs, SelectStatement, InsertStatement, UpdateStatement,
  NamedStatement, SqlStatement,
}

abbrev pub copy_or_empty : Option Bytes → Bytes
copy_or_empty none = []
copy_or_empty (some s) = s

abbrev pub is_star : ExprType → Bool
is_star ExprType.star = true
is_star _ = false

abbrev pub is_column_ref : ExprType → Bool
is_column_ref ExprType.column_ref = true
is_column_ref _ = false

abbrev pub is_function_ref : ExprType → Bool
is_function_ref ExprType.function_ref = true
is_function_ref _ = false

-- `exprList` holds the star alone.
abbrev pub has_star_argument : Option (List (Option ExprType)) → Bool
has_star_argument (some (some argument ∷ [])) = is_star argument
has_star_argument _ = false

unfoldable pub is_count_star : Expr → Bool
is_count_star e =
    if not (is_function_ref e.type)
    then false
    else if not (bytes_eq (ascii_lower (copy_or_empty e.name)) (codes "count"))
    then false
    else if e.distinct || e.has_window
    then false
    else has_star_argument e.expr_list

abbrev pub note_insert_without_columns : Bytes
note_insert_without_columns = codes "INSERT without column list"

abbrev pub note_from_subquery : Bytes
note_from_subquery = codes "subquery in FROM"

abbrev pub note_with_cte : Bytes
note_with_cte = codes "WITH/CTE"

abbrev pub note_set_operation : Bytes
note_set_operation = codes "set operation (UNION/INTERSECT/EXCEPT)"

abbrev pub note_non_table_create : Bytes
note_non_table_create = codes "non-table CREATE"

abbrev pub note_non_table_drop : Bytes
note_non_table_drop = codes "non-table DROP"

abbrev pub table_ref : Option Bytes → Option Bytes → TableRef
table_ref schema name = record { schema = copy_or_empty schema; name = copy_or_empty name }

abbrev pub push_table : TableRef → ParsedStatement → ParsedStatement
push_table t out = record out { tables = out.tables ++ t ∷ [] }

abbrev pub push_note : Bytes → ParsedStatement → ParsedStatement
push_note note out = record out { unsupported_features = out.unsupported_features ++ note ∷ [] }

unfoldable mutual
  pub collect_tables : FromRef → ParsedStatement → ParsedStatement
  collect_tables FromRef.null out = out
  collect_tables (FromRef.table_name schema name) out = push_table (table_ref schema name) out
  collect_tables (FromRef.join left right) out = collect_tables right (collect_tables left out)
  collect_tables FromRef.empty_join out = out
  collect_tables (FromRef.cross_product children) out = collect_list children out
  collect_tables FromRef.empty_cross_product out = out
  collect_tables FromRef.subquery out = push_note note_from_subquery out

  pub collect_list : FromRefs → ParsedStatement → ParsedStatement
  collect_list FromRefs.nil out = out
  collect_list (FromRefs.cons child children) out = collect_list children (collect_tables child out)

-- The qualifier, its dot and the name of a column.
abbrev pub column_text : Expr → Bytes
column_text e = elim e.table [
  | none ↦ copy_or_empty e.name
  | some t ↦ t ++ dot ∷ copy_or_empty e.name
]

-- One round of the loop of `classify_projection`.
abbrev pub project : Option Expr → ParsedStatement → ParsedStatement
project none out = out
project (some e) out =
    if is_star e.type
    then record out { has_wildcard_projection = true }
    else if is_column_ref e.type
    then record out { projection_columns = out.projection_columns ++ column_text e ∷ [] }
    else if is_count_star e
    then record out { has_safe_count_star_projection = true }
    else record out { has_computed_projection = true }

unfoldable pub project_all : List (Option Expr) → ParsedStatement → ParsedStatement
project_all [] out = out
project_all (e ∷ l) out = project_all l (project e out)

abbrev pub classify_projection : Option (List (Option Expr)) → ParsedStatement → ParsedStatement
classify_projection none out = out
classify_projection (some l) out = project_all l out

-- A pointer to a list that is not empty.
abbrev pub has_some : Option ℕ → Bool
has_some none = false
has_some (some n) = not (n == 0)

-- The rest of `translate_select`, behind the projection.
abbrev pub complete_select : SelectStatement → ParsedStatement → ParsedStatement
complete_select stmt out₀ =
    let out₁ = record out₀ { has_group_by = stmt.has_group_by } in
    let out₂ = if has_some stmt.with_count then push_note note_with_cte out₁ else out₁ in
    if has_some stmt.set_count then push_note note_set_operation out₂ else out₂

unfoldable pub translate_select : SelectStatement → ParsedStatement → ParsedStatement
translate_select stmt out =
    let begun = record out { type = StatementType.select } in
    complete_select stmt
      (classify_projection stmt.select_list (collect_tables stmt.from_table begun))

abbrev pub is_positive : ℤ → Bool
is_positive (pos n) = ltb 0 n
is_positive (negsuc n) = false

abbrev pub classify_insert_value : Expr → InsertValueKind
classify_insert_value e = elim e.type [
  | ExprType.literal_int ↦
      if is_positive e.ival
      then InsertValueKind.positive_integer_literal
      else InsertValueKind.non_positive_numeric_literal
  | ExprType.literal_float ↦
      if e.fval_is_positive
      then InsertValueKind.positive_decimal_literal
      else InsertValueKind.non_positive_numeric_literal
  | _ ↦ InsertValueKind.unsupported
]

-- A null entry is unsupported.
abbrev pub insert_value_kind : Option Expr → InsertValueKind
insert_value_kind none = InsertValueKind.unsupported
insert_value_kind (some e) = classify_insert_value e

abbrev pub insert_value_kinds : InsertSource → Option (List (Option Expr)) → List InsertValueKind
insert_value_kinds InsertSource.values (some l) = map insert_value_kind l
insert_value_kinds _ _ = []

abbrev pub insert_columns : Option (List (Option Bytes)) → ParsedStatement → ParsedStatement
insert_columns none out = push_note note_insert_without_columns out
insert_columns (some columns) out = record out {
  affected_columns = out.affected_columns ++ map copy_or_empty columns;
}

unfoldable pub translate_insert : InsertStatement → ParsedStatement → ParsedStatement
translate_insert stmt out₀ =
    let out₁ =
      push_table (table_ref stmt.schema stmt.table_name)
        (record out₀ { type = StatementType.insert }) in
    let out₂ = insert_columns stmt.columns out₁ in
    let source = if stmt.is_insert_select then InsertSource.select else InsertSource.values in
    record out₂ {
      insert_source = source;
      insert_value_kinds = out₂.insert_value_kinds ++ insert_value_kinds source stmt.values;
    }
