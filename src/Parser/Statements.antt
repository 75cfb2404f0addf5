-- ===== src/Parser/Statements.antt =====
-- The other statements that the parser reports, and the choice among all of them.
use sql_proxy_service.Prelude.{
  Bool, not, Option, none, some, List, [], ◌∷◌, ◌++◌, if◌then◌else◌, Bytes,
}
use sql_proxy_service.Analysis.{StatementType, ParsedStatement, default_statement}
use sql_proxy_service.Syntax.{UpdateStatement, NamedStatement, SqlStatement}
use sql_proxy_service.Parser.{
  copy_or_empty, note_non_table_create, note_non_table_drop, table_ref, push_table, push_note,
  collect_tables, translate_select, translate_insert,
}

-- The columns of the clauses that are not null.
abbrev pub updated_columns : List (Option (Option Bytes)) → List Bytes
updated_columns [] = []
updated_columns (none ∷ l) = updated_columns l
updated_columns (some column ∷ l) = copy_or_empty column ∷ updated_columns l

unfoldable pub translate_update : UpdateStatement → ParsedStatement → ParsedStatement
translate_update stmt out₀ =
    let out₁ = collect_tables stmt.table (record out₀ { type = StatementType.update }) in
    elim stmt.updates [
      | none ↦ out₁
      | some l ↦ record out₁ { affected_columns = out₁.affected_columns ++ updated_columns l }
    ]

unfoldable pub translate_delete : NamedStatement → ParsedStatement → ParsedStatement
translate_delete stmt out =
    push_table (table_ref stmt.schema stmt.name) (record out { type = StatementType.delete })

-- `if (name != nullptr)`
abbrev pub push_named : NamedStatement → ParsedStatement → ParsedStatement
push_named stmt out = elim stmt.name [
  | none ↦ out
  | some name ↦ push_table (table_ref stmt.schema (some name)) out
]

unfoldable pub translate_create : Bool → NamedStatement → ParsedStatement → ParsedStatement
translate_create is_table stmt out₀ =
    let out₁ = push_named stmt (record out₀ { type = StatementType.create }) in
    if not is_table then push_note note_non_table_create out₁ else out₁

unfoldable pub translate_drop : Bool → NamedStatement → ParsedStatement → ParsedStatement
translate_drop is_table stmt out₀ =
    let out₁ = push_named stmt (record out₀ { type = StatementType.drop }) in
    if not is_table then push_note note_non_table_drop out₁ else out₁

unfoldable pub translate_alter : NamedStatement → ParsedStatement → ParsedStatement
translate_alter stmt out = push_named stmt (record out { type = StatementType.alter })

unfoldable pub translate_statement : SqlStatement → ParsedStatement
translate_statement (SqlStatement.select stmt) = translate_select stmt default_statement
translate_statement (SqlStatement.insert stmt) = translate_insert stmt default_statement
translate_statement (SqlStatement.update stmt) = translate_update stmt default_statement
translate_statement (SqlStatement.delete stmt) = translate_delete stmt default_statement
translate_statement (SqlStatement.create is_table stmt) =
    translate_create is_table stmt default_statement
translate_statement (SqlStatement.drop is_table stmt) =
    translate_drop is_table stmt default_statement
translate_statement (SqlStatement.alter stmt) = translate_alter stmt default_statement
translate_statement SqlStatement.other = default_statement
