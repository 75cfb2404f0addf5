-- ===== src/Parser/Tables.antt =====
-- The tables of a FROM clause.
use sql_proxy_service.Prelude.{◌≡◌, List, [], ◌∷◌, ◌++◌, Bytes}
use mathlib.Core.List.{append_assoc, append-nil}
use sql_proxy_service.Analysis.{TableRef, ParsedStatement}
use sql_proxy_service.Syntax.{FromRef, FromRefs}
use sql_proxy_service.Parser.{table_ref, note_from_subquery, collect_tables, collect_list}

-- The named tables from left to right, and one note for each subquery.
unfoldable mutual
  pub leaves : FromRef → List TableRef
  leaves FromRef.null = []
  leaves (FromRef.table_name schema name) = table_ref schema name ∷ []
  leaves (FromRef.join left right) = leaves left ++ leaves right
  leaves FromRef.empty_join = []
  leaves (FromRef.cross_product children) = leaves_all children
  leaves FromRef.empty_cross_product = []
  leaves FromRef.subquery = []

  leaves_all : FromRefs → List TableRef
  leaves_all FromRefs.nil = []
  leaves_all (FromRefs.cons child children) = leaves child ++ leaves_all children

unfoldable mutual
  pub notes : FromRef → List Bytes
  notes (FromRef.join left right) = notes left ++ notes right
  notes (FromRef.cross_product children) = notes_all children
  notes FromRef.subquery = note_from_subquery ∷ []
  notes _ = []

  notes_all : FromRefs → List Bytes
  notes_all FromRefs.nil = []
  notes_all (FromRefs.cons child children) = notes child ++ notes_all children

-- The statement with tables and notes added.
abbrev pub added : List TableRef → List Bytes → ParsedStatement → ParsedStatement
added tables n out = record out {
  tables = out.tables ++ tables;
  unsupported_features = out.unsupported_features ++ n;
}

added-added :
    (ts us : List TableRef) (n k : List Bytes) (out : ParsedStatement)
    → added us k (added ts n out) ≡ added (ts ++ us) (n ++ k) out
added-added ts us n k out =
    cc (append_assoc out.tables ts us, append_assoc out.unsupported_features n k)

added-nothing : (out : ParsedStatement) → out ≡ added [] [] out
added-nothing out = cc (append-nil out.tables, append-nil out.unsupported_features)

mutual
  unfolding collect_tables collect_list leaves leaves_all notes notes_all

  collect_tables-added :
      (r : FromRef) (out : ParsedStatement) → collect_tables r out ≡ added (leaves r) (notes r) out
  collect_tables-added FromRef.null out = added-nothing out
  collect_tables-added (FromRef.table_name schema name) out =
      cc (append-nil out.unsupported_features)
  collect_tables-added (FromRef.join left right) out = cc (
    collect_tables-added left out,
    collect_tables-added right (collect_tables left out),
    added-added (leaves left) (leaves right) (notes left) (notes right) out,
  )
  collect_tables-added FromRef.empty_join out = added-nothing out
  collect_tables-added (FromRef.cross_product children) out = collect_list-added children out
  collect_tables-added FromRef.empty_cross_product out = added-nothing out
  collect_tables-added FromRef.subquery out = cc (append-nil out.tables)

  collect_list-added :
      (l : FromRefs) (out : ParsedStatement)
      → collect_list l out ≡ added (leaves_all l) (notes_all l) out
  collect_list-added FromRefs.nil out = added-nothing out
  collect_list-added (FromRefs.cons child children) out = cc (
    collect_tables-added child out,
    collect_list-added children (collect_tables child out),
    added-added (leaves child) (leaves_all children) (notes child) (notes_all children) out,
  )

-- The tables of a FROM clause are collected from left to right, through joins and cross products,
-- and each subquery adds one note in place of a table; nothing else of the statement changes.
pub collect_tables_lem :
    (r : FromRef) (out : ParsedStatement) → collect_tables r out ≡ added (leaves r) (notes r) out
collect_tables_lem r out = collect_tables-added r out
