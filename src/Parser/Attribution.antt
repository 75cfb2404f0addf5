-- ===== src/Parser/Attribution.antt =====
-- From the select list as it was written to the class of each result column.
use sql_proxy_service.Prelude.{
  ℕ, zero, suc, ◌≡◌, refl, ap, ◌∙◌, inl, inr, true, false, Option, none, some, List, [], ◌∷◌, arith,
  Option-cases, length, get_elem?, any, All,
}
use sql_proxy_service.Analysis.{
  StatementType, StatementClass, AnalysisStatus, ParsedStatement, SqlAnalysis, statement_class_of,
}
use sql_proxy_service.Text.{Free, dot}
use sql_proxy_service.Analyzer.{analysis_of_statement, analysis_of_parse}
use sql_proxy_service.Execution.{ColumnInfo}
use sql_proxy_service.Classifier.{
  Mappings, strip_qualifier, positional_shape, classify_source, classify,
}
use sql_proxy_service.Classifier.Shapes.{
  IsAnalysedSelect, IsColumnList, positional_shape_iff, classify-positional, strip_qualifier_lem,
}
use sql_proxy_service.Syntax.{Expr, SelectStatement, SqlStatement}
use sql_proxy_service.Parser.{copy_or_empty, column_text, is_count_star}
use sql_proxy_service.Parser.Statements.{translate_statement}
use sql_proxy_service.Parser.Projection.{
  is_entry, is_plain, is_wildcard, is_computed, plain_columns, count_star-function,
}
use sql_proxy_service.Parser.Select.{entries, translate_select-IsSelectReport}
use sql_proxy_service.Parser.Insert.{analysis}

-- Every entry is a plain column.
abbrev pub ArePlain : List (Option Expr) → Type 0
ArePlain l = All (λ e. is_entry is_plain e ≡ true) l

plain_flags :
    (l : List (Option Expr))
    → ArePlain l
    → (any (is_entry is_wildcard) l ≡ false)
      × (any (is_entry is_count_star) l ≡ false)
      × (any (is_entry is_computed) l ≡ false)
plain_flags [] h = (refl, refl, refl)
plain_flags (none ∷ l) h = cc h.0
plain_flags (some e ∷ l) h =
    let (stars, counts, computed) = plain_flags l h.1 in
    let call = count_star-function e in
    (ground (arith, stars, h.0), ground (arith, counts, call, h.0), ground (arith, computed, h.0))

length-plain_columns : (l : List (Option Expr)) → ArePlain l → length (plain_columns l) ≡ length l
unfolding plain_columns
length-plain_columns [] h = refl
length-plain_columns (none ∷ l) h = cc h.0
length-plain_columns (some e ∷ l) h = ground (arith, length-plain_columns l h.1, h.0)

get_elem?-plain_columns :
    (l : List (Option Expr)) (j : ℕ) (e : Expr)
    → ArePlain l
    → get_elem? l j ≡ some (some e)
    → get_elem? (plain_columns l) j ≡ some (column_text e)
unfolding plain_columns
get_elem?-plain_columns [] j e h k = cc
get_elem?-plain_columns (none ∷ l) j e h k = cc h.0
get_elem?-plain_columns (some d ∷ l) zero e h k = ground (arith, h.0)
get_elem?-plain_columns (some d ∷ l) (suc j) e h k =
    ground (arith, get_elem?-plain_columns l j e h.1, h.0)

strip_qualifier-column_text :
    (e : Expr)
    → Free dot (copy_or_empty e.name)
    → strip_qualifier (column_text e) ≡ copy_or_empty e.name
strip_qualifier-column_text e h = elim (Option-cases e.table) [
  | inl none_given ↦ rw none_given (strip_qualifier_lem [] (copy_or_empty e.name) h).1
  | inr (t, given) ↦ rw given (strip_qualifier_lem t (copy_or_empty e.name) h).0
]

-- The analysis takes over what the parser reports.
pub analysis-select :
    (p : ParsedStatement)
    → p.type ≡ StatementType.select
    → ((analysis_of_parse (record { success = true; statements = p ∷ []; error = [] })).status
        ≡ AnalysisStatus.ok)
      × ((analysis_of_parse
            (record { success = true; statements = p ∷ []; error = [] })).statement_class
          ≡ StatementClass.select)
unfolding analysis_of_parse analysis_of_statement statement_class_of
analysis-select p h = (refl, ground arith)

positional_shape-fields :
    (a : SqlAnalysis) (columns : List ColumnInfo) (j : ℕ) {c : ColumnInfo}
    → IsAnalysedSelect a
    → IsColumnList a columns
    → get_elem? columns j ≡ some c
    → positional_shape a columns ≡ true
positional_shape-fields a [] j s l h = cc
positional_shape-fields a (x ∷ columns) j s l h = (positional_shape_iff a x columns).1 (s, l)

module _ (stmt : SelectStatement) (columns : List ColumnInfo) (j : ℕ) (c : ColumnInfo) where
  positional_shape-select :
      ArePlain (entries stmt.select_list)
      → length (entries stmt.select_list) ≡ length columns
      → get_elem? columns j ≡ some c
      → positional_shape (analysis (SqlStatement.select stmt)) columns ≡ true
  unfolding analysis_of_parse analysis_of_statement
  positional_shape-select plain width column =
      let p = translate_statement (SqlStatement.select stmt) in
      let r = translate_select-IsSelectReport stmt in
      let (stars, counts, computed) = plain_flags (entries stmt.select_list) plain in
      let (status, class) = analysis-select p r.type in
      let wide = length-plain_columns (entries stmt.select_list) plain in
      positional_shape-fields (analysis (SqlStatement.select stmt)) columns j
        (record { analysed = status; select = class; plain = r.computed ∙ computed })
        (r.wildcard ∙ stars, r.count_star ∙ counts, ap length r.columns ∙ wide ∙ width) column

  -- In the result of a SELECT whose list is plain columns only, as many as the result has, column
  -- `j` is classified by the name at place `j` of the select list, without its qualifier, if the name
  -- itself holds no dot. Aliases, which name the result columns, play no part.
  pub select-attribution :
      (m : Mappings) (e : Expr)
      → ArePlain (entries stmt.select_list)
      → length (entries stmt.select_list) ≡ length columns
      → get_elem? columns j ≡ some c
      → get_elem? (entries stmt.select_list) j ≡ some (some e)
      → Free dot (copy_or_empty e.name)
      → get_elem? (classify m (analysis (SqlStatement.select stmt)) columns).columns j
        ≡ some (classify_source m (copy_or_empty e.name))
  unfolding analysis_of_parse analysis_of_statement
  select-attribution m e plain width column entry free =
      let r = translate_select-IsSelectReport stmt in
      let name =
        ap (λ l. get_elem? l j) r.columns
        ∙ get_elem?-plain_columns (entries stmt.select_list) j e plain entry in
      let shape = positional_shape-select plain width column in
      classify-positional m (analysis (SqlStatement.select stmt)) columns j c (column_text e) shape
        column name
      ∙ ap (λ s. some (classify_source m s)) (strip_qualifier-column_text e free)
