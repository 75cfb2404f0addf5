-- ===== src/Parser/Counting.antt =====
-- Which computed projections the classification lets through.
use sql_proxy_service.Prelude.{
  ℕ, zero, suc, ◌≡◌, refl, sym, ◌∙◌, ◌≢◌, ◌↔◌, inl, inr, Bool, true, false, Option, none, some,
  List, [], ◌∷◌, arith, Bool-cases, get_elem?, any, codes,
}
use sql_proxy_service.Analysis.{StatementClass, AnalysisStatus, SqlAnalysis}
use sql_proxy_service.Analyzer.{analysis_of_statement, analysis_of_parse}
use sql_proxy_service.Execution.{ColumnInfo}
use sql_proxy_service.Classifier.{Mappings, classify}
use sql_proxy_service.Classifier.Shapes.{fully_attributed_iff}
use sql_proxy_service.Syntax.{ExprType, Expr, SelectStatement, SqlStatement}
use sql_proxy_service.Text.{ascii_lower}
use sql_proxy_service.Parser.{copy_or_empty, is_count_star}
use sql_proxy_service.Parser.Statements.{translate_statement}
use sql_proxy_service.Parser.Projection.{
  is_entry, is_wildcard, is_computed, plain_columns, count_star-function, is_count_star_iff,
}
use sql_proxy_service.Parser.Select.{entries, translate_select-IsSelectReport}
use sql_proxy_service.Parser.Insert.{analysis}
use sql_proxy_service.Parser.Attribution.{analysis-select}

-- `COUNT(*)`: a call of a function named COUNT, in any case of the letters, without DISTINCT and
-- without a window, whose only argument is the star.
pub record IsCountAll (e : Expr) : Type 0 where
  pub call : e.type ≡ ExprType.function_ref
  pub name : ascii_lower (copy_or_empty e.name) ≡ codes "count"
  pub distinct : e.distinct ≡ false
  pub window : e.has_window ≡ false
  pub argument : e.expr_list ≡ some (some ExprType.star ∷ [])

IsCountAll-iff : (e : Expr) → (is_count_star e ≡ true) ↔ IsCountAll e
IsCountAll-iff e = (
  (λ h.
      let (call, name, distinct, window, argument) = (is_count_star_iff e).0 h in
      record {
        call = call;
        name = name;
        distinct = distinct;
        window = window;
        argument = argument;
      }),
  (λ h. (is_count_star_iff e).1 (h.call, h.name, h.distinct, h.window, h.argument)),
)

-- Every entry that is not null is a COUNT(*).
abbrev pub AreCounts : List (Option Expr) → Type 0
AreCounts [] = Unit
AreCounts (none ∷ l) = AreCounts l
AreCounts (some e ∷ l) = IsCountAll e × AreCounts l

all_counts_iff :
    (l : List (Option Expr))
    → AreCounts l ↔ (
        (any (is_entry is_wildcard) l ≡ false)
        × (any (is_entry is_computed) l ≡ false)
        × (plain_columns l ≡ []))
unfolding plain_columns
all_counts_iff [] = ((λ h. (refl, refl, refl)), (λ h. tt))
all_counts_iff (none ∷ l) = all_counts_iff l
all_counts_iff (some e ∷ l) =
    let rest = all_counts_iff l in
    let count = IsCountAll-iff e in
    let call = count_star-function e in
    (
      (λ (h, g).
          let k = rest.0 g in
          let c = count.1 h in
          (
            ground (arith, k, c, call c),
            ground (arith, k, c, call c),
            ground (arith, k, c, call c),
          )),
      (λ h. (
        count.0 (ground (arith, h)),
        rest.1 (ground (arith, h), ground (arith, h), ground (arith, h)),
      )),
    )

any-get_elem? :
    {A : Type 0} (p : A → Bool) (l : List A) (i : ℕ) (x : A)
    → get_elem? l i ≡ some x
    → p x ≡ true
    → any p l ≡ true
any-get_elem? p [] i x h k = cc
any-get_elem? p (y ∷ l) zero x h k = ground (arith)
any-get_elem? p (y ∷ l) (suc i) x h k = ground (arith, any-get_elem? p l i x h k)

-- A call of a function, a literal, or any other expression that reads no plain column.
abbrev pub IsExpression : Expr → Type 0
IsExpression e = (e.type ≢ ExprType.star) × (e.type ≢ ExprType.column_ref)

-- In the analysis, such an entry is either counted or computed.
expression_flags :
    (l : List (Option Expr)) (i : ℕ) (e : Expr)
    → get_elem? l i ≡ some (some e)
    → IsExpression e
    → any (is_entry is_computed) l ≡ false
    → any (is_entry is_count_star) l ≡ true
expression_flags l i e h x none_computed = elim (Bool-cases (is_count_star e)) [
  | inl count ↦ any-get_elem? (is_entry is_count_star) l i (some e) h count
  | inr other ↦
      let computed : is_computed e ≡ true = ground (arith, x.0, x.1) in
      cc (any-get_elem? (is_entry is_computed) l i (some e) h computed, none_computed)
]

module _ (stmt : SelectStatement) where
  abbrev a : SqlAnalysis
  a = analysis (SqlStatement.select stmt)

  -- The flags of the analysis are those of the select list.
  analysis-flags :
      (a.status ≡ AnalysisStatus.ok)
      × (a.statement_class ≡ StatementClass.select)
      × (a.projection_columns ≡ plain_columns (entries stmt.select_list))
      × (a.has_wildcard_projection ≡ any (is_entry is_wildcard) (entries stmt.select_list))
      × (a.has_safe_count_star_projection ≡ any (is_entry is_count_star) (entries stmt.select_list))
      × (a.has_computed_projection ≡ any (is_entry is_computed) (entries stmt.select_list))
      × (a.has_group_by ≡ stmt.has_group_by)
  unfolding analysis_of_parse analysis_of_statement
  analysis-flags =
      let r = translate_select-IsSelectReport stmt in
      let (status, class) =
        analysis-select (translate_statement (SqlStatement.select stmt)) r.type in
      (status, class, r.columns, r.wildcard, r.count_star, r.computed, r.grouped)

  -- If the select list holds an expression that is neither a star nor a plain column, then a
  -- non-empty result is fully attributed exactly if every entry of the list is a `COUNT(*)`, a
  -- null pointer aside, and the statement has no GROUP BY.
  pub expression_attributed_iff :
      (m : Mappings) (c : ColumnInfo) (l : List ColumnInfo) (i : ℕ) (e : Expr)
      → get_elem? (entries stmt.select_list) i ≡ some (some e)
      → IsExpression e
      → ((classify m (analysis (SqlStatement.select stmt)) (c ∷ l)).fully_attributed ≡ true)
        ↔ (AreCounts (entries stmt.select_list) × (stmt.has_group_by ≡ false))
  expression_attributed_iff m c l i e h x =
      let (status, class, columns, wildcard, count, computed, grouped) = analysis-flags in
      let counts = all_counts_iff (entries stmt.select_list) in
      let flags = expression_flags (entries stmt.select_list) i e h x in
      let shapes = fully_attributed_iff m a c l in
      (
        (λ k.
            let (s, shape) = shapes.0 k in
            let safe = count ∙ flags (sym computed ∙ s.plain) in
            elim shape [
              | inl (_, none_counted, _) ↦ cc (safe, none_counted)
              | inr (inl (_, none_counted, _)) ↦ cc (safe, none_counted)
              | inr (inr (no_star, _, ungrouped, no_columns)) ↦ (
                counts.1 (sym wildcard ∙ no_star, sym computed ∙ s.plain, sym columns ∙ no_columns),
                sym grouped ∙ ungrouped,
              )
            ]),
        (λ (k, g).
            let (no_star, none_computed, no_columns) = counts.0 k in
            shapes.1 (
              record { analysed = status; select = class; plain = computed ∙ none_computed },
              inr (
                  inr (
                    wildcard ∙ no_star,
                    count ∙ flags none_computed,
                    grouped ∙ g,
                    columns ∙ no_columns,
                  )),
            )),
      )
