-- ===== src/Parser/Insert.antt =====
-- From the syntax tree of an INSERT to the decision on it.
use sql_proxy_service.Prelude.{
  ◌≡◌, refl, sym, ap, ◌∙◌, subst, ◌≢◌, ◌↔◌, ◌⊎◌, inl, inr, true, false, Option, none, some, List,
  [], ◌∷◌, ◌++◌, map, arith, if◌then◌else◌, Bool-cases, Option-cases, is_empty, Bytes, codes,
}
use sql_proxy_service.Prelude.Int.{pos, to_int32}
use sql_proxy_service.Analysis.{
  StatementType, StatementClass, InsertSource, InsertValueKind, AnalysisStatus, ParseResult,
  SqlAnalysis, TableRef, statement_class_of,
}
use sql_proxy_service.Text.{Free, dot}
use sql_proxy_service.Analyzer.{
  qualified_name, normalized_tables, analysis_of_statement, analysis_of_parse,
}
use sql_proxy_service.Policy.{evaluate}
use sql_proxy_service.Policy.Permission.{IsOrderInsert, evaluate_iff}
use sql_proxy_service.Syntax.{Expr, InsertStatement, SqlStatement}
use sql_proxy_service.Parser.{
  copy_or_empty, insert_value_kind, insert_value_kinds, translate_insert,
}
use sql_proxy_service.Parser.Statements.{translate_statement}
use sql_proxy_service.Parser.Literals.{
  IsPositiveInteger, IsPositiveDecimal, integer_literal_iff, positive_amount, amount_kind,
}

-- What the parser reports for one statement, and its analysis.
abbrev pub report : SqlStatement → ParseResult
report stmt = record { success = true; statements = translate_statement stmt ∷ []; error = [] }

abbrev pub analysis : SqlStatement → SqlAnalysis
analysis stmt = analysis_of_parse (report stmt)

-- The tree of `INSERT INTO orders (customer_id, amount) VALUES (<+int>, <+number>)`.
pub record IsOrderTree (stmt : InsertStatement) : Type 0 where
  pub unqualified : copy_or_empty stmt.schema ≡ []
  pub target : copy_or_empty stmt.table_name ≡ codes "orders"
  pub literal : stmt.is_insert_select ≡ false
  pub names : List (Option Bytes)
  pub columns : stmt.columns ≡ some names
  pub fixed : map copy_or_empty names ≡ codes "customer_id" ∷ codes "amount" ∷ []
  pub first : Expr
  pub second : Expr
  pub values : stmt.values ≡ some (some first ∷ some second ∷ [])
  pub customer : IsPositiveInteger first
  pub amount : IsPositiveInteger second ⊎ IsPositiveDecimal second

dotted-not-Free : (s t : Bytes) → ¬ Free dot (s ++ dot ∷ t)
dotted-not-Free [] t h = h.0 refl
dotted-not-Free (c ∷ s) t h = dotted-not-Free s t h.1

plain_name :
    (t : TableRef) → qualified_name t ≡ codes "orders" → (t.schema ≡ []) × (t.name ≡ codes "orders")
unfolding qualified_name
plain_name t h = elim (Bool-cases (is_empty t.schema)) [
  | inl e ↦ (ground arith, ground arith)
  | inr e ↦
      let free : Free dot (codes "orders") = ground arith in
      let dotted : t.schema ++ dot ∷ t.name ≡ codes "orders" = ground arith in
      absurd (dotted-not-Free t.schema t.name (subst (Free dot) (sym dotted) free))
]

-- The analysis of an insert, field by field.
analysis-insert :
    (stmt : InsertStatement)
    → ((analysis (SqlStatement.insert stmt)).statement_class ≡ StatementClass.dml)
      × ((analysis (SqlStatement.insert stmt)).statement_type ≡ StatementType.insert)
      × ((analysis (SqlStatement.insert stmt)).tables
          ≡ qualified_name
              (record { schema = copy_or_empty stmt.schema; name = copy_or_empty stmt.table_name })
            ∷ [])
      × ((analysis (SqlStatement.insert stmt)).status ≡ AnalysisStatus.ok)
      × ((analysis (SqlStatement.insert stmt)).statement_count ≡ pos 1)
unfolding analysis_of_parse analysis_of_statement statement_class_of translate_statement
    translate_insert normalized_tables to_int32
analysis-insert stmt = (ground arith, ground arith, ground arith, refl, refl)

module _ (stmt : InsertStatement) where
  abbrev a : SqlAnalysis
  a = analysis (SqlStatement.insert stmt)

  -- A column list leaves no note, a missing one does.
  analysis-columns :
      ((names : List (Option Bytes)) × (stmt.columns ≡ some names)
        × (a.affected_columns ≡ map copy_or_empty names)
        × (a.unsupported_features ≡ []))
      ⊎ ((stmt.columns ≡ none) × (a.unsupported_features ≢ []))
  unfolding analysis_of_parse analysis_of_statement translate_statement translate_insert
  analysis-columns = elim (Option-cases stmt.columns) [
    | inl e ↦ inr (e, ground arith)
    | inr (names, e) ↦ inl (names, e, ground arith, ground arith)
  ]

  analysis-values :
      (a.insert_source
        ≡ (if stmt.is_insert_select then InsertSource.select else InsertSource.values))
      × (a.insert_value_kinds
          ≡ insert_value_kinds
              (if stmt.is_insert_select then InsertSource.select else InsertSource.values)
              stmt.values)
  unfolding analysis_of_parse analysis_of_statement translate_statement translate_insert
  analysis-values = (ground arith, ground arith)

two_values :
    (vs : Option (List (Option Expr))) (k l : InsertValueKind)
    → insert_value_kinds InsertSource.values vs ≡ k ∷ l ∷ []
    → (v : Option Expr) × (w : Option Expr) × (vs ≡ some (v ∷ w ∷ []))
      × (insert_value_kind v ≡ k)
      × (insert_value_kind w ≡ l)
two_values none k l h = cc
two_values (some []) k l h = cc
two_values (some (v ∷ [])) k l h = cc
two_values (some (v ∷ w ∷ [])) k l h = (v, w, refl, cc h, cc h)
two_values (some (v ∷ w ∷ x ∷ vs)) k l h = cc

IsOrderTree-of_insert :
    (stmt : InsertStatement)
    → IsOrderInsert (analysis (SqlStatement.insert stmt))
    → IsOrderTree stmt
IsOrderTree-of_insert stmt o =
    let (class, type, tables, _, _) = analysis-insert stmt in
    let (source, kinds) = analysis-values stmt in
    let named =
      plain_name
        (record { schema = copy_or_empty stmt.schema; name = copy_or_empty stmt.table_name })
        (cc (tables, o.target)) in
    let literal : stmt.is_insert_select ≡ false = ground (arith, source, o.source) in
    let (v, w, values, first, second) =
      two_values stmt.values InsertValueKind.positive_integer_literal o.amount
        (ground (arith, kinds, o.values)) in
    let (customer, v_some, integer) = (integer_literal_iff v).0 first in
    let (amount, w_some, positive) = positive_amount w (ground (arith, second, o.positive)) in
    elim (analysis-columns stmt) [
      | inr (_, bad) ↦ absurd (bad o.understood)
      | inl (names, columns, affected, _) ↦ record {
        unqualified = named.0;
        target = named.1;
        literal = literal;
        names = names;
        columns = columns;
        fixed = sym affected ∙ o.columns;
        first = customer;
        second = amount;
        values = cc (values, v_some, w_some);
        customer = integer;
        amount = positive;
      }
    ]

insert-of_tree :
    (stmt : InsertStatement)
    → IsOrderTree stmt
    → IsOrderInsert (analysis (SqlStatement.insert stmt))
unfolding qualified_name
insert-of_tree stmt o =
    let (class, type, tables, _, _) = analysis-insert stmt in
    let (source, kinds) = analysis-values stmt in
    elim (analysis-columns stmt) [
      | inr (none_given, _) ↦ cc (none_given, o.columns)
      | inl (names, columns, affected, understood) ↦
          let customer = (integer_literal_iff (some o.first)).1 (o.first, refl, o.customer) in
          let same : names ≡ o.names = cc (columns, o.columns) in
          record {
            class = class;
            type = type;
            target = ground (arith, tables, o.unqualified, o.target);
            understood = understood;
            source = ground (arith, source, o.literal);
            columns = affected ∙ ap (map copy_or_empty) same ∙ o.fixed;
            amount = insert_value_kind (some o.second);
            values = ground (arith, kinds, o.literal, o.values, customer);
            positive = amount_kind o.second o.amount;
          }
    ]

-- An INSERT is allowed exactly if its tree is the one of
-- `INSERT INTO orders (customer_id, amount) VALUES (<+int>, <+number>)`: no schema, the two columns
-- in this order, literal values, of which the first is a positive integer and the second a positive
-- integer or decimal.
pub insert_allowed_iff :
    (stmt : InsertStatement)
    → ((evaluate (analysis (SqlStatement.insert stmt))).allowed ≡ true) ↔ IsOrderTree stmt
insert_allowed_iff stmt =
    let b = analysis (SqlStatement.insert stmt) in
    let (class, type, tables, status, count) = analysis-insert stmt in
    (
      (λ h. elim ((evaluate_iff b).0 h).1 [
        | inl r ↦ cc (r.class, class)
        | inr o ↦ IsOrderTree-of_insert stmt o
      ]),
      (λ h.
          (evaluate_iff b).1
            (record { analysed = status; single = count }, inr (insert-of_tree stmt h))),
    )
