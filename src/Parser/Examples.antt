-- ===== src/Parser/Examples.antt =====
-- Concrete syntax trees.
use sql_proxy_service.Prelude.{
  false, ℕ, suc, ◌≡◌, refl, ◌↔◌, true, false, none, some, [], ◌∷◌, arith, get_elem?, Bytes, codes,
  ok, Action,
}
use sql_proxy_service.Prelude.Int.{pos, negsuc}
use sql_proxy_service.Analysis.{default_statement}
use sql_proxy_service.Policy.{evaluate}
use sql_proxy_service.Syntax.{
  ExprType, Expr, FromRef, FromRefs, SelectStatement, InsertStatement, SqlStatement,
  SqlParserResult,
}
use sql_proxy_service.Parser.{collect_tables}
use sql_proxy_service.Parser.Statements.{translate_statement}
use sql_proxy_service.Execution.{ColumnType, ColumnInfo}
use sql_proxy_service.Classifier.{default_classification_config, classify_source, classify}
use sql_proxy_service.Parser.Attribution.{select-attribution}
use sql_proxy_service.Parser.Tables.{leaves, notes, added, collect_tables_lem}
use sql_proxy_service.Parser.Counting.{AreCounts, expression_attributed_iff}
use sql_proxy_service.Parser.Select.{IsSelectReport, translate_select-IsSelectReport}
use sql_proxy_service.Parser.Insert.{IsOrderTree, analysis, insert_allowed_iff}
use sql_proxy_service.Parser.Result.{parse, parse_result, sanitized_error, to_string_next}
use sql_proxy_service.Prelude.Decimal.{decimal_from}

-- `c.email`
abbrev email : Expr
email = record {
  type = ExprType.column_ref;
  name = some (codes "email");
  table = some (codes "c");
  distinct = false;
  has_window = false;
  expr_list = none;
  ival = pos 0;
  fval_is_positive = false;
}

-- `CoUnT(*)`
abbrev count : Expr
count = record email {
  type = ExprType.function_ref;
  name = some (codes "CoUnT");
  table = none;
  expr_list = some (some ExprType.star ∷ []);
}

-- `7`
abbrev seven : Expr
seven = record email { type = ExprType.literal_int; name = none; table = none; ival = pos 7 }

-- `customers JOIN public.orders, (SELECT ...)`
abbrev from : FromRef
from = FromRef.cross_product (
    FromRefs.cons
      (FromRef.join (FromRef.table_name none (some (codes "customers")))
        (FromRef.table_name (some (codes "public")) (some (codes "orders"))))
      (FromRefs.cons FromRef.subquery FromRefs.nil))

abbrev select : SelectStatement
select = record {
  from_table = from;
  select_list = some (some email ∷ none ∷ some count ∷ []);
  has_group_by = true;
  with_count = some 0;
  set_count = some 1;
}

abbrev insert : InsertStatement
insert = record {
  schema = none;
  table_name = some (codes "orders");
  columns = some (some (codes "customer_id") ∷ some (codes "amount") ∷ []);
  is_insert_select = false;
  values = some (some seven ∷ some seven ∷ []);
}

-- A parser that finds an error at the ninth line, and counts its calls.
abbrev failing : Bytes → Action ℕ SqlParserResult
failing sql n = (
  ok (record { is_valid = false; error_line = pos 8; error_column = negsuc 0; statements = [] }),
  suc n,
)

parse_test : parse failing (codes "SELEC") 0 ≡ (
  ok (record {
    success = false;
    statements = [];
    error = codes "syntax error at line 9, column 0";
  }),
  1,
)
unfolding parse parse_result sanitized_error to_string_next decimal_from
parse_test = refl

collect_tables_lem_example :
    collect_tables from default_statement ≡ added (leaves from) (notes from) default_statement
collect_tables_lem_example = collect_tables_lem from default_statement

translate_select-IsSelectReport_example :
    IsSelectReport select (translate_statement (SqlStatement.select select))
translate_select-IsSelectReport_example = translate_select-IsSelectReport select

insert_allowed_iff_example :
    ((evaluate (analysis (SqlStatement.insert insert))).allowed ≡ true) ↔ IsOrderTree insert
insert_allowed_iff_example = insert_allowed_iff insert

-- `SELECT c.email AS contact FROM ...`
abbrev aliased : SelectStatement
aliased = record select { select_list = some (some email ∷ []); has_group_by = false }

abbrev contact : ColumnInfo
contact = record { name = codes "contact"; type = ColumnType.text }

select-attribution_example :
    get_elem?
      (classify default_classification_config
        (analysis (SqlStatement.select aliased))
        (contact ∷ [])).columns
      0
    ≡ some (classify_source default_classification_config (codes "email"))
select-attribution_example =
    select-attribution aliased (contact ∷ []) 0 contact default_classification_config email
      (refl, tt) refl refl refl (ground arith)

-- `SELECT CoUnT(*) FROM ...`
abbrev counting : SelectStatement
counting = record select { select_list = some (none ∷ some count ∷ []); has_group_by = false }

expression_attributed_iff_example :
    ((classify default_classification_config
        (analysis (SqlStatement.select counting))
        (contact ∷ [])).fully_attributed
      ≡ true)
    ↔ (AreCounts (none ∷ some count ∷ []) × (false ≡ false))
expression_attributed_iff_example =
    expression_attributed_iff counting default_classification_config contact [] 1 count refl
      ((λ h. cc h), (λ h. cc h))
