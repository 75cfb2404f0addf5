-- ===== src/Parser/Select.antt =====
-- The translation of a SELECT.
use sql_proxy_service.Prelude.{
  ◌≡◌, refl, sym, subst, Bool, false, ◌||◌, Option, none, some, List, [], ◌∷◌, ◌++◌, arith,
  if◌then◌else◌, any,
}
use mathlib.Core.List.{append_assoc, append-nil}
use sql_proxy_service.Analysis.{StatementType, ParsedStatement, default_statement}
use sql_proxy_service.Syntax.{Expr, SelectStatement, SqlStatement}
use sql_proxy_service.Parser.{
  is_count_star, has_some, note_with_cte, note_set_operation, collect_tables, project_all,
  classify_projection, complete_select, translate_select,
}
use sql_proxy_service.Parser.Statements.{translate_statement}
use sql_proxy_service.Parser.Tables.{leaves, notes, added, collect_tables_lem}
use sql_proxy_service.Parser.Projection.{
  is_entry, is_wildcard, is_computed, plain_columns, Projects, project_all-Projects,
}

-- The entries of a select list, none for a null pointer.
abbrev pub entries : Option (List (Option Expr)) → List (Option Expr)
entries none = []
entries (some l) = l

-- What the translation of a SELECT reports.
pub record IsSelectReport (stmt : SelectStatement) (p : ParsedStatement) : Type 0 where
  pub type : p.type ≡ StatementType.select
  pub tables : p.tables ≡ leaves stmt.from_table
  pub columns : p.projection_columns ≡ plain_columns (entries stmt.select_list)
  pub wildcard : p.has_wildcard_projection ≡ any (is_entry is_wildcard) (entries stmt.select_list)
  pub count_star :
      p.has_safe_count_star_projection ≡ any (is_entry is_count_star) (entries stmt.select_list)
  pub computed : p.has_computed_projection ≡ any (is_entry is_computed) (entries stmt.select_list)
  pub grouped : p.has_group_by ≡ stmt.has_group_by
  pub features :
      p.unsupported_features
      ≡ notes stmt.from_table
        ++ (if has_some stmt.with_count then note_with_cte ∷ [] else [])
        ++ (if has_some stmt.set_count then note_set_operation ∷ [] else [])

||-false : (b : Bool) → (b || false) ≡ b
||-false b = ground arith

classify_projection-entries :
    (l : Option (List (Option Expr))) (out : ParsedStatement)
    → classify_projection l out ≡ project_all (entries l) out
unfolding project_all
classify_projection-entries none out = refl
classify_projection-entries (some l) out = refl

-- The statement that the projection starts from.
abbrev start : SelectStatement → ParsedStatement
start stmt =
    added (leaves stmt.from_table) (notes stmt.from_table)
      (record default_statement { type = StatementType.select })

completed :
    (stmt : SelectStatement) (out : ParsedStatement)
    → Projects (entries stmt.select_list) (start stmt) out
    → IsSelectReport stmt (complete_select stmt out)
completed stmt out h = record {
  type = ground (arith, h.type);
  tables = ground (arith, h.tables);
  columns = ground (arith, h.columns);
  wildcard = ground (arith, h.wildcard);
  count_star = ground (arith, h.count_star);
  computed = ground (arith, h.computed);
  grouped = ground arith;
  features = ground (
    arith,
    h.features,
    append_assoc (notes stmt.from_table) (note_with_cte ∷ []) (note_set_operation ∷ []),
    append-nil (notes stmt.from_table),
    append-nil (notes stmt.from_table ++ note_with_cte ∷ []),
  );
}

-- A SELECT is reported with the tables of its FROM clause, the texts of its plain columns in written
-- order, the flags of the kinds of entries that it has, whether it is grouped, and a note for each
-- subquery in FROM, for a WITH and for a set operation.
pub translate_select-IsSelectReport :
    (stmt : SelectStatement) → IsSelectReport stmt (translate_statement (SqlStatement.select stmt))
unfolding translate_statement translate_select
translate_select-IsSelectReport stmt =
    let begun = record default_statement { type = StatementType.select } in
    let l = entries stmt.select_list in
    let same : classify_projection stmt.select_list (collect_tables stmt.from_table begun)
        ≡ project_all l (start stmt) =
      cc (
        collect_tables_lem stmt.from_table begun,
        classify_projection-entries stmt.select_list (collect_tables stmt.from_table begun),
      ) in
    subst (λ out. IsSelectReport stmt (complete_select stmt out)) (sym same)
      (completed stmt (project_all l (start stmt)) (project_all-Projects l (start stmt)))
