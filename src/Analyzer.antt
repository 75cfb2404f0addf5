-- ===== src/Analyzer.antt =====
-- `src/core/sql_analyzer.cpp`: the parser's statement facts become a `SqlAnalysis`. The parser is
-- the port `ISqlParser`: an action that the caller supplies, on a state of its own.
pub mod Tables
pub mod Outcomes
mod Examples
use sql_proxy_service.Prelude.{
  ℕ, suc, Bool, true, false, Option, none, some, List, [], ◌∷◌, ◌++◌, ◌==◌, if◌then◌else◌, length,
  is_empty, any, Bytes, codes, ok, Action, pure, bind, occurs,
}
use sql_proxy_service.Prelude.Int.{ℤ, to_int32}
use sql_proxy_service.Analysis.{
  TableRef, ParsedStatement, ParseResult, SqlAnalysis, AnalysisStatus, statement_class_of,
  default_analysis,
}

-- The set " \t\n\r\f\v" of `find_first_not_of`.
abbrev pub whitespace : Bytes
whitespace = b' ' ∷ b'\t' ∷ b'\n' ∷ b'\r' ∷ 12 ∷ 11 ∷ []

-- `s.find_first_not_of(set)`; `none` is `npos`.
pub find_first_not_of : Bytes → Bytes → Option ℕ
find_first_not_of set [] = none
find_first_not_of set (c ∷ s) =
    if any (λ b. b == c) set
    then elim (find_first_not_of set s) [ none ↦ none | some i ↦ some (suc i) ]
    else some 0

unfoldable pub is_blank : Bytes → Bool
unfolding find_first_not_of
is_blank sql = elim (find_first_not_of whitespace sql) [ none ↦ true | some i ↦ false ]

unfoldable pub qualified_name : TableRef → Bytes
qualified_name table =
    if is_empty table.schema then table.name else table.schema ++ b'.' ∷ table.name

-- The loop of `normalized_tables`.
pub normalized_from : List Bytes → List TableRef → List Bytes
unfolding qualified_name
normalized_from result [] = result
normalized_from result (table ∷ tables) =
    let name = qualified_name table in
    normalized_from (if occurs name result then result else result ++ name ∷ []) tables

unfoldable pub normalized_tables : List TableRef → List Bytes
unfolding normalized_from
normalized_tables tables = normalized_from [] tables

-- The lines of `analyze` behind the checks, on the one statement.
unfoldable pub analysis_of_statement : ℤ → ParsedStatement → SqlAnalysis
analysis_of_statement count statement = record {
  status = AnalysisStatus.ok;
  statement_type = statement.type;
  statement_class = statement_class_of statement.type;
  statement_count = count;
  tables = normalized_tables statement.tables;
  projection_columns = statement.projection_columns;
  has_wildcard_projection = statement.has_wildcard_projection;
  has_computed_projection = statement.has_computed_projection;
  has_safe_count_star_projection = statement.has_safe_count_star_projection;
  has_group_by = statement.has_group_by;
  affected_columns = statement.affected_columns;
  insert_source = statement.insert_source;
  insert_value_kinds = statement.insert_value_kinds;
  unsupported_features = statement.unsupported_features;
  error_reason = [];
}

-- `parsed.statements` is empty, has one element, or has more.
analysis_of_statements : ℤ → List ParsedStatement → SqlAnalysis
unfolding analysis_of_statement
analysis_of_statements count [] = record default_analysis {
  statement_count = count;
  status = AnalysisStatus.parse_error;
  error_reason = codes "parser returned success with no statements";
}
analysis_of_statements count (statement ∷ []) = analysis_of_statement count statement
analysis_of_statements count (statement ∷ _ ∷ _) = record default_analysis {
  statement_count = count;
  status = AnalysisStatus.multiple_statements;
}

-- `analyze` behind the call of the parser.
unfoldable pub analysis_of_parse : ParseResult → SqlAnalysis
unfolding analysis_of_statements
analysis_of_parse parsed =
    let count = to_int32 (length parsed.statements) in
    if parsed.success
    then analysis_of_statements count parsed.statements
    else record default_analysis {
      statement_count = count;
      status = AnalysisStatus.parse_error;
      error_reason =
          if is_empty parsed.error then codes "parser reported failure" else parsed.error;
    }

-- Blank input never reaches the parser.
unfoldable pub analyze :
    {S : Type 0} → (Bytes → Action S ParseResult) → Bytes → Action S SqlAnalysis
unfolding analysis_of_parse is_blank
analyze parse sql =
    if is_blank sql
    then pure (record default_analysis { status = AnalysisStatus.empty_input })
    else bind (parse sql) (λ parsed. pure (analysis_of_parse parsed))
